-- ===== src/Url/RoundTrip.antt =====
-- What the two forms write into the address is what they read from it.
use ark_swap.Prelude.{
  ◌≡◌, refl, ◌∙◌, false, not, ◌&&◌, none, some, List, Text, text_eq, codes, is_empty, if◌then◌else◌,
  Bool-cases, inl, inr,
}
use ark_swap.Tokens.{Token, resolve_token, token_param, same_token}
use ark_swap.Route.{SwapSide, exact_in, exact_out}
use ark_swap.SwapForm.{SwapState, Typed}
use ark_swap.Url.Params.{Query, get, set, get-set, get-set_other, get-delete, get-delete_other}
use ark_swap.Url.{
  in_key, out_key, amount_key, side_key, side_text, side_param, apply_typed, apply_tokens,
  apply_swap_url, write_swap_url, PoolMode, add, remove, select, PoolSelection, a_key, b_key,
  mode_key, mode_text, mode_param, apply_selection, apply_pool_url, write_pool_url,
}
use ark_swap.Format.{is_amount}

-- The token is found in the list under the name that the address gives it.
abbrev pub IsNamed : (Text → Text) → List Token → Token → Type 0
IsNamed to_lower tokens t = resolve_token to_lower tokens (some (token_param t)) ≡ some t

module _ (s : SwapState) (q : Query) where
  abbrev base : Query
  base = set out_key (token_param s.token_out) (set in_key (token_param s.token_in) q)

  -- What the two effects of the form leave at each key.
  get-in : get in_key (write_swap_url s q) ≡ some (token_param s.token_in)
  unfolding write_swap_url text_eq
  get-in =
      let first : get in_key base ≡ some (token_param s.token_in) =
        get-set_other out_key in_key refl _ _ ∙ get-set in_key _ q in
      elim (Bool-cases (is_empty (s.typed).value)) [
        | inl e ↦
            rw (e, get-delete_other side_key in_key refl, get-delete_other amount_key in_key refl)
              first
        | inr e ↦
            rw (e, get-set_other side_key in_key refl, get-set_other amount_key in_key refl) first
      ]

  get-out : get out_key (write_swap_url s q) ≡ some (token_param s.token_out)
  unfolding write_swap_url text_eq
  get-out =
      let first : get out_key base ≡ some (token_param s.token_out) = get-set out_key _ _ in
      elim (Bool-cases (is_empty (s.typed).value)) [
        | inl e ↦
            rw (e, get-delete_other side_key out_key refl, get-delete_other amount_key out_key refl)
              first
        | inr e ↦
            rw (e, get-set_other side_key out_key refl, get-set_other amount_key out_key refl) first
      ]

  get-amount :
      get amount_key (write_swap_url s q)
      ≡ (if is_empty (s.typed).value then none else some (s.typed).value)
  unfolding write_swap_url text_eq
  get-amount = elim (Bool-cases (is_empty (s.typed).value)) [
    | inl e ↦ rw (e, get-delete_other side_key amount_key refl) (get-delete amount_key _)
    | inr e ↦ rw (e, get-set_other side_key amount_key refl) (get-set amount_key _ _)
  ]

  get-side :
      is_empty (s.typed).value ≡ false
      → get side_key (write_swap_url s q) ≡ some (side_text (s.typed).side)
  unfolding write_swap_url
  get-side e = rw e (get-set side_key _ _)

  side_back :
      (x : SwapSide) → (if text_eq (side_text x) (codes "out") then exact_out else exact_in) ≡ x
  unfolding text_eq
  side_back exact_in = refl
  side_back exact_out = refl

  side_param-write_swap_url :
      is_empty (s.typed).value ≡ false → side_param (write_swap_url s q) ≡ (s.typed).side
  side_param-write_swap_url e = rw (get-side e) (side_back (s.typed).side)

-- The amount that the form takes from its own address: the typed one when it is not empty and is an amount,
-- and what was there before otherwise.
abbrev pub restored : Typed → Typed → Typed
restored typed old = if not (is_empty typed.value) && is_amount typed.value then typed else old

apply_typed-write :
    (s u : SwapState) (q : Query)
    → apply_typed (write_swap_url s q) u ≡ record u { typed = restored s.typed u.typed }
apply_typed-write s u q = elim (Bool-cases (is_empty (s.typed).value)) [
  | inl e ↦ rw (apply_typed, get-amount s q, e) refl
  | inr e ↦ elim (Bool-cases (is_amount (s.typed).value)) [
    | inl a ↦
        rw (apply_typed, get-amount s q, e, apply_typed, e, a, side_param-write_swap_url s q e) refl
    | inr a ↦ rw (apply_typed, get-amount s q, e, apply_typed, e, a) refl
  ]
]

-- A form with two different tokens, each found under the name that its address gives it, is opened again
-- from its address, whatever form was there and whatever other parameters the address has; the typed
-- amount comes with it when it is not empty and is an amount, and else the old one stays.
pub apply_swap_url-write_swap_url :
    (to_lower : Text → Text) (tokens : List Token) (s old : SwapState) (q : Query)
    → IsNamed to_lower tokens s.token_in
    → IsNamed to_lower tokens s.token_out
    → same_token s.token_in s.token_out ≡ some false
    → same_token s.token_out s.token_in ≡ some false
    → apply_swap_url to_lower tokens (write_swap_url s q) old
      ≡ some (record s { typed = restored s.typed old.typed })
unfolding apply_swap_url apply_tokens
apply_swap_url-write_swap_url to_lower tokens s old q named_in named_out differ back =
    rw (get-in s q, get-out s q, named_in, named_out, differ, back, apply_typed-write s) refl

mode_back : (m : PoolMode) → mode_param (some (mode_text m)) ≡ some m
unfolding text_eq
mode_back add = refl
mode_back remove = refl

-- A selection of two different tokens, each found under the name that its address gives it, is restored
-- from its address with its mode, whatever was selected before.
pub apply_pool_url-write_pool_url :
    (to_lower : Text → Text) (tokens : List Token) (s old : PoolSelection) (q : Query)
    → IsNamed to_lower tokens s.token_a
    → IsNamed to_lower tokens s.token_b
    → same_token s.token_a s.token_b ≡ some false
    → apply_pool_url to_lower tokens (write_pool_url s q) old ≡ some s
unfolding apply_pool_url apply_selection write_pool_url select text_eq
apply_pool_url-write_pool_url to_lower tokens s old q named_a named_b differ =
    let a : get a_key (write_pool_url s q) ≡ some (token_param s.token_a) =
      get-set_other mode_key a_key refl _ _
      ∙ get-set_other b_key a_key refl _ _
      ∙ get-set a_key _ q in
    let b : get b_key (write_pool_url s q) ≡ some (token_param s.token_b) =
      get-set_other mode_key b_key refl _ _ ∙ get-set b_key _ _ in
    let m : get mode_key (write_pool_url s q) ≡ some (mode_text s.mode) = get-set mode_key _ _ in
    rw (a, b, m, named_a, named_b, mode_back s.mode, apply_selection, differ) refl
