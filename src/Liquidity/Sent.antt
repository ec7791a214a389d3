-- ===== src/Liquidity/Sent.antt =====
-- The calls that the liquidity form sends.
use ark_swap.Prelude.{
  is_known, ℕ, ◌<◌, ◌≡◌, refl, sym, ◌∙◌, Bool, true, false, not, ◌||◌, Option, none, some, [], Text,
  arith, is_set, get_or, leb, Bool-cases, inl, inr, ◌⊎◌,
}
use ark_swap.Prelude.Int.{ℤ}
use ark_swap.Tokens.{Token}
use ark_swap.Liquidity.{
  LiquidityInput, LiquidityCall, Signature, add_liquidity, add_liquidity_eth, remove_liquidity,
  remove_liquidity_eth, native_side, NativeSide, side_a, side_b, neither, remove_amount,
  with_slippage, expected_out,
}
use ark_swap.Liquidity.Removal.{
  Removal, nothing, throws, falls_back, sends, use_permit, remove_native, remove_tokens, remove_by,
  remove_with, has_pool, submit_remove,
}

-- A call that removes this much liquidity with these minimums of the tokens A and B, in whichever order the
-- function takes them, to the account, with this permit.
abbrev pub Removes : LiquidityInput → LiquidityCall → ℕ → ℤ → ℤ → Text → Option Signature → Type 0
Removes i (add_liquidity_eth t a m n to d v) amount min_a min_b who signed = ⊥
Removes i (add_liquidity t u a b m n to d) amount min_a min_b who signed = ⊥
Removes i (remove_liquidity_eth f t l m n to d s) amount min_a min_b who signed =
    (l ≡ amount)
    × (((m ≡ min_b) × (n ≡ min_a) × ((i.token_a).is_native ≡ true) × ((i.token_b).address ≡ some t))
        ⊎ ((m ≡ min_a)
            × (n ≡ min_b)
            × ((i.token_b).is_native ≡ true)
            × ((i.token_a).address ≡ some t)))
    × (to ≡ who)
    × (s ≡ signed)
Removes i (remove_liquidity t u l m n to d s) amount min_a min_b who signed =
    (l ≡ amount)
    × ((m ≡ min_a) × (n ≡ min_b) × ((i.token_a).address ≡ some t) × ((i.token_b).address ≡ some u))
    × (to ≡ who)
    × (s ≡ signed)

abbrev pub is_signed : Option Signature → Bool
is_signed none = false
is_signed (some s) = true

is_set_lem : (o : Option Text) → is_set o ≡ true → o ≡ some (get_or o [])
is_set_lem none e = cc
is_set_lem (some t) e = refl

sends_injective : {c d : LiquidityCall} → ◌≡◌ {A = Removal} (sends c) (sends d) → c ≡ d
sends_injective e = cc

remove_native_inv :
    (i : LiquidityInput) (token : Token) (m n : ℤ) (who : Text) (signed : Option Signature)
    {c : LiquidityCall}
    → remove_native i token m n who signed ≡ sends c
    → (token.address ≡ some (get_or token.address []))
      × (remove_liquidity_eth i.fee_on_transfer
            (get_or token.address [])
            (remove_amount i)
            m
            n
            who
            (get_or i.deadline 0)
            signed
          ≡ c)
remove_native_inv i token m n who signed {c} e = elim (Bool-cases (is_set token.address)) [
  | inl here ↦ (is_set_lem token.address here, sends_injective (rw here at e))
  | inr missing ↦ absurd (nothing≢sends (rw missing at e))
]
  where
    nothing≢sends : ¬ (nothing ≡ sends c)
    nothing≢sends k = cc

remove_tokens_inv :
    (i : LiquidityInput) (m n : ℤ) (who : Text) (signed : Option Signature) {c : LiquidityCall}
    → remove_tokens i m n who signed ≡ sends c
    → ((i.token_a).address ≡ some (get_or (i.token_a).address []))
      × ((i.token_b).address ≡ some (get_or (i.token_b).address []))
      × (remove_liquidity
            (get_or (i.token_a).address [])
            (get_or (i.token_b).address [])
            (remove_amount i)
            m
            n
            who
            (get_or i.deadline 0)
            signed
          ≡ c)
remove_tokens_inv i m n who signed {c} e =
    elim (Bool-cases (not (is_set (i.token_a).address) || not (is_set (i.token_b).address))) [
      | inl missing ↦ absurd (nothing≢sends (rw missing at e))
      | inr here ↦ (
        is_set_lem (i.token_a).address (ground arith),
        is_set_lem (i.token_b).address (ground arith),
        sends_injective (rw here at e),
      )
    ]
  where
    nothing≢sends : ¬ (nothing ≡ sends c)
    nothing≢sends k = cc

-- What the side says of the tokens.
side_lem :
    (i : LiquidityInput)
    → (native_side i ≡ side_a → (i.token_a).is_native ≡ true)
      × (native_side i ≡ side_b → (i.token_b).is_native ≡ true)
unfolding native_side
side_lem i = ground arith

remove_by-Removes :
    (i : LiquidityInput) (side : NativeSide) (m n : ℤ) (who : Text) (signed : Option Signature)
    {c : LiquidityCall}
    → native_side i ≡ side
    → remove_by i side m n who signed ≡ sends c
    → Removes i c (remove_amount i) m n who signed
unfolding remove_by
remove_by-Removes i side_a m n who signed on e =
    let (here, same) = remove_native_inv i i.token_b n m who signed e in
    rw (← same) (refl, inl (refl, refl, (side_lem i).0 on, here), refl, refl)
remove_by-Removes i side_b m n who signed on e =
    let (here, same) = remove_native_inv i i.token_a m n who signed e in
    rw (← same) (refl, inr (refl, refl, (side_lem i).1 on, here), refl, refl)
remove_by-Removes i neither m n who signed on e =
    let (here_a, here_b, same) = remove_tokens_inv i m n who signed e in
    rw (← same) (refl, (refl, refl, here_a, here_b), refl, refl)

sends_inv :
    (i : LiquidityInput) (signature : Option Signature) {c : LiquidityCall}
    → submit_remove i signature ≡ sends c
    → (0 < remove_amount i)
      × ((signed : Option Signature) × (remove_with i (get_or i.address []) signed ≡ sends c)
          × (i.lp_needs_approval ≡ true → is_signed signed ≡ true))
unfolding submit_remove native_side expected_out remove_amount remove_by
sends_inv i signature {c} e =
    elim (Bool-cases (
      not (is_set i.router)
      || not (is_set i.address)
      || not (has_pool i)
      || leb (remove_amount i) 0)) [
        | inl missing ↦ absurd (nothing≢sends (rw missing at e))
        | inr here ↦ elim (Bool-cases (is_known i.deadline)) [
          | inr late ↦ absurd (throws≢sends (rw (here, late) at e))
          | inl timed ↦ (
            ground arith,
            elim (Bool-cases (use_permit i)) [
              | inl permits ↦ by_permit signature permits (rw (here, timed, permits) at e)
              | inr classic ↦ elim (Bool-cases i.lp_needs_approval) [
                | inl needed ↦ absurd (nothing≢sends (rw (here, timed, classic, needed) at e))
                | inr free ↦ (
                  none,
                  rw (here, timed, classic, free) at e,
                  λ needed. absurd (false≢true (sym free ∙ needed)),
                )
              ]
            ],
          )
        ]
      ]
  where
    nothing≢sends : ¬ (nothing ≡ sends c)
    nothing≢sends k = cc

    throws≢sends : ¬ (throws ≡ sends c)
    throws≢sends k = cc

    false≢true : ¬ (false ≡ true)
    false≢true k = cc

    by_permit :
        (o : Option Signature)
        → use_permit i ≡ true
        → (elim o [ none ↦ falls_back | some sig ↦ remove_with i (get_or i.address []) (some sig) ])
          ≡ sends c
        → (signed : Option Signature) × (remove_with i (get_or i.address []) signed ≡ sends c)
          × (i.lp_needs_approval ≡ true → is_signed signed ≡ true)
    by_permit none permits h = cc
    by_permit (some sig) permits h = (some sig, h, λ needed. refl)

-- A removal that is sent removes the chosen part of the balance, which is not nothing, to the connected
-- account, with the tolerance below the expected amounts as the minimums of the right tokens; while the
-- router lacks an allowance of the pool's token it carries a permit.
pub submit_remove-Removes :
    (i : LiquidityInput) (signature : Option Signature) {c : LiquidityCall}
    → submit_remove i signature ≡ sends c
    → (0 < remove_amount i)
      × ((signed : Option Signature) × Removes i c
            (remove_amount i)
            (with_slippage i (expected_out i).a)
            (with_slippage i (expected_out i).b)
            (get_or i.address [])
            signed
          × (i.lp_needs_approval ≡ true → is_signed signed ≡ true))
submit_remove-Removes i signature e =
    let (some_removed, (signed, sent, permitted)) = sends_inv i signature e in
    (
      some_removed,
      (
        signed,
        remove_by-Removes i (native_side i) _ _ (get_or i.address []) signed refl sent,
        permitted,
      ),
    )
