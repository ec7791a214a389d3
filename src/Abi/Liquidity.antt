-- ===== src/Abi/Liquidity.antt =====
-- The calls of the liquidity form fit the ABI of the router.
use ark_swap.Prelude.{
  ◌<◌, ◌≡◌, refl, Bool, true, false, Option, none, some, List, [], ◌∷◌, Text, text_eq, codes, find,
  All, length,
}
use ark_swap.Prelude.Int.{ℤ, pos}
use ark_swap.Liquidity.{
  LiquidityCall, Signature, add_liquidity_eth, add_liquidity, remove_liquidity_eth,
  remove_liquidity,
}
use ark_swap.Abi.{address, integer, uint, AbiFunction, arg, Fits, Match}
use ark_swap.Abi.Router
use ark_swap.Abi.Router.{router_abi}
use ark_swap.Abi.Calls.{liquidity_arguments}
use ark_swap.Abi.Typed.{is_sent}

-- The amounts, minimums and the deadline of a call; its addresses; the account; the permit.
abbrev pub numbers_of : LiquidityCall → List ℤ
numbers_of (add_liquidity_eth t a m n to d v) = pos a ∷ m ∷ n ∷ pos d ∷ []
numbers_of (add_liquidity t u a b m n to d) = pos a ∷ pos b ∷ m ∷ n ∷ pos d ∷ []
numbers_of (remove_liquidity_eth f t l m n to d s) = pos l ∷ m ∷ n ∷ pos d ∷ []
numbers_of (remove_liquidity t u l m n to d s) = pos l ∷ m ∷ n ∷ pos d ∷ []

abbrev pub addresses_of : LiquidityCall → List Text
addresses_of (add_liquidity_eth t a m n to d v) = t ∷ to ∷ []
addresses_of (add_liquidity t u a b m n to d) = t ∷ u ∷ to ∷ []
addresses_of (remove_liquidity_eth f t l m n to d s) = t ∷ to ∷ []
addresses_of (remove_liquidity t u l m n to d s) = t ∷ u ∷ to ∷ []

abbrev pub account_of : LiquidityCall → Text
account_of (add_liquidity_eth t a m n to d v) = to
account_of (add_liquidity t u a b m n to d) = to
account_of (remove_liquidity_eth f t l m n to d s) = to
account_of (remove_liquidity t u l m n to d s) = to

abbrev pub permit_of : LiquidityCall → Option Signature
permit_of (add_liquidity_eth t a m n to d v) = none
permit_of (add_liquidity t u a b m n to d) = none
permit_of (remove_liquidity_eth f t l m n to d s) = s
permit_of (remove_liquidity t u l m n to d s) = s

-- A permit in its three parts: a byte and two words of 32 bytes.
abbrev pub IsSplit : Option Signature → Type 0
IsSplit none = Unit
IsSplit (some s) = (s.v < 256) × (length s.r ≡ 66) × (length s.s ≡ 66)

module _ (is_address : Text → Bool) where
  -- A call of the liquidity form whose parts have encodings has one itself: the router's ABI lists its function,
  -- every argument fits its type, the value is sent exactly to the payable function, and the account stands
  -- under the ABI's name for it.
  pub liquidity_arguments-IsTyped :
      (c : LiquidityCall)
      → All (λ n. Fits is_address (uint 256) (integer n)) (numbers_of c)
      → All (λ a. is_address a ≡ true) (addresses_of c)
      → IsSplit (permit_of c)
      → (f : AbiFunction) × (find
            (λ g. text_eq g.name (liquidity_arguments c).function_name)
            router_abi
          ≡ some f)
        × Match is_address f.inputs (liquidity_arguments c).args
        × (f.payable ≡ is_sent (liquidity_arguments c).value)
        × (arg f.inputs (liquidity_arguments c).args (codes "to") ≡ some (address (account_of c)))
  unfolding liquidity_arguments router_abi arg text_eq
  liquidity_arguments-IsTyped (add_liquidity_eth t a m n to d v) (ha, (hm, (hn, (hd, _))))
        (ht, (hto, _)) _ =
      (Router.add_liquidity_eth, refl, (ht, (ha, (hm, (hn, (hto, (hd, tt)))))), refl, refl)
  liquidity_arguments-IsTyped (add_liquidity t u a b m n to d) (ha, (hb, (hm, (hn, (hd, _)))))
        (ht, (hu, (hto, _))) _ =
      (Router.add_liquidity, refl, (ht, (hu, (ha, (hb, (hm, (hn, (hto, (hd, tt)))))))), refl, refl)
  liquidity_arguments-IsTyped (remove_liquidity_eth true t l m n to d none)
        (hl, (hm, (hn, (hd, _)))) (ht, (hto, _)) _ =
      (
        Router.remove_liquidity_eth_supporting_fee_on_transfer_tokens,
        refl,
        (ht, (hl, (hm, (hn, (hto, (hd, tt)))))),
        refl,
        refl,
      )
  liquidity_arguments-IsTyped (remove_liquidity_eth true t l m n to d (some s))
        (hl, (hm, (hn, (hd, _)))) (ht, (hto, _)) (hv, hr, hs) =
      (
        Router.remove_liquidity_eth_with_permit_supporting_fee_on_transfer_tokens,
        refl,
        (ht, (hl, (hm, (hn, (hto, (hd, (tt, (hv, (hr, (hs, tt)))))))))),
        refl,
        refl,
      )
  liquidity_arguments-IsTyped (remove_liquidity_eth false t l m n to d none)
        (hl, (hm, (hn, (hd, _)))) (ht, (hto, _)) _ =
      (Router.remove_liquidity_eth, refl, (ht, (hl, (hm, (hn, (hto, (hd, tt)))))), refl, refl)
  liquidity_arguments-IsTyped (remove_liquidity_eth false t l m n to d (some s))
        (hl, (hm, (hn, (hd, _)))) (ht, (hto, _)) (hv, hr, hs) =
      (
        Router.remove_liquidity_eth_with_permit,
        refl,
        (ht, (hl, (hm, (hn, (hto, (hd, (tt, (hv, (hr, (hs, tt)))))))))),
        refl,
        refl,
      )
  liquidity_arguments-IsTyped (remove_liquidity t u l m n to d none) (hl, (hm, (hn, (hd, _))))
        (ht, (hu, (hto, _))) _ =
      (Router.remove_liquidity, refl, (ht, (hu, (hl, (hm, (hn, (hto, (hd, tt))))))), refl, refl)
  liquidity_arguments-IsTyped (remove_liquidity t u l m n to d (some s)) (hl, (hm, (hn, (hd, _))))
        (ht, (hu, (hto, _))) (hv, hr, hs) =
      (
        Router.remove_liquidity_with_permit,
        refl,
        (ht, (hu, (hl, (hm, (hn, (hto, (hd, (tt, (hv, (hr, (hs, tt))))))))))),
        refl,
        refl,
      )
