-- ===== src/Url/Distinct.antt =====
-- What an address can do to the tokens of the forms.
use ark_swap.Prelude.{
  ◌≡◌, refl, subst, Bool, true, false, not, ◌&&◌, none, some, List, Text, get_or, Option, arith,
  Bool-cases, All, All-split, find, find-eq-some, text_eq, is_empty, trim, lower, Option-cases, inl,
  inr,
}
use mathlib.Core.Option.{some-injective}
use ark_swap.Tokens.{
  Token, token_key, token_by_address, address_is, symbol_is, is_hex_address, resolve_token,
  same_token,
}
use ark_swap.Tokens.Identity.{same_token_comm}
use ark_swap.SwapForm.{SwapState}
use ark_swap.Url.Params.{Query, get}
use ark_swap.Format.{is_amount}
use ark_swap.Url.{in_key, amount_key, out_key, apply_typed, apply_tokens, apply_swap_url}

abbrev AreDistinct : Token → Token → Type 0
AreDistinct a b = same_token a b ≡ some false

-- The tokens of the form differ.
abbrev pub DistinctForm : SwapState → Type 0
DistinctForm s = AreDistinct s.token_in s.token_out

moved : {v u : SwapState} → some v ≡ some u → DistinctForm v → DistinctForm u
moved {v} {u} e h = subst DistinctForm (some-injective v u e) h

-- Both guarded changes go through on tokens that the comparison does not throw at, and leave different
-- tokens different.
apply_tokens-differ :
    (a b : Option Token) (s : SwapState)
    → (x : Bool) × (same_token (get_or a s.token_in) (get_or b s.token_out) ≡ some x)
    → DistinctForm s
    → (u : SwapState) × (apply_tokens a b s ≡ some u) × DistinctForm u
unfolding apply_tokens
apply_tokens-differ none none s k h = (s, refl, h)
apply_tokens-differ (some a) none s (true, same) h = (s, rw (same, apply_tokens) refl, h)
apply_tokens-differ (some a) none s (false, differ) h =
    (record s { token_in = a }, rw (differ, apply_tokens) refl, differ)
apply_tokens-differ none (some b) s (true, same) h =
    (s, rw (same_token_comm b s.token_in, same) refl, h)
apply_tokens-differ none (some b) s (false, differ) h =
    (record s { token_out = b }, rw (same_token_comm b s.token_in, differ) refl, differ)
apply_tokens-differ (some a) (some b) s (true, same) h =
    (s, rw (same, apply_tokens, same_token_comm b a, same) refl, h)
apply_tokens-differ (some a) (some b) s (false, differ) h = (
  record s { token_in = a; token_out = b },
  rw (differ, apply_tokens, same_token_comm b a, differ) refl,
  differ,
)

apply_typed-DistinctForm :
    (q : Query) (s : SwapState) → DistinctForm s → DistinctForm (apply_typed q s)
apply_typed-DistinctForm q s h = elim (Option-cases (get amount_key q)) [
  | inl e ↦ rw (e, apply_typed) h
  | inr (amount, e) ↦ elim (Bool-cases (not (is_empty amount) && is_amount amount)) [
    | inl f ↦ rw (e, apply_typed, f) h
    | inr f ↦ rw (e, apply_typed, f) h
  ]
]

-- The token is native or has an address.
abbrev pub HasKey : Token → Type 0
HasKey t = (key : Text) × (token_key t ≡ some key)

find-All :
    (p : Token → Bool) (tokens : List Token) {t : Token}
    → All HasKey tokens
    → find p tokens ≡ some t
    → HasKey t
find-All p tokens h e =
    let (before, after, split, _, _) = find-eq-some p tokens e in
    (All-split HasKey before _ (rw split at h)).1.0

-- A token named by an address is one of the list.
resolve_token-HasKey :
    (to_lower : Text → Text) (tokens : List Token) (id : Option Text) {t : Token}
    → All HasKey tokens
    → resolve_token to_lower tokens id ≡ some t
    → HasKey t
unfolding resolve_token token_by_address
resolve_token-HasKey to_lower tokens none {t} h e = absurd (none≢some e)
  where
    none≢some : ¬ (none ≡ some t)
    none≢some k = cc
resolve_token-HasKey to_lower tokens (some id) {t} h e = elim (Bool-cases (is_empty (trim id))) [
  | inl none_named ↦ absurd (none≢some (rw (none_named, resolve_token) at e))
  | inr named ↦ elim (Bool-cases (is_hex_address (trim id))) [
    | inl hex ↦ find-All (address_is (lower (trim id))) tokens h (ground arith)
    | inr word ↦ find-All (symbol_is to_lower (to_lower (trim id))) tokens h (ground arith)
  ]
]
  where
    none≢some : ¬ (none ≡ some t)
    none≢some k = cc

chosen-HasKey :
    (to_lower : Text → Text) (tokens : List Token) (id : Option Text) (old : Token)
    → All HasKey tokens
    → HasKey old
    → HasKey (get_or (resolve_token to_lower tokens id) old)
chosen-HasKey to_lower tokens id old h k = elim (Option-cases (resolve_token to_lower tokens id)) [
  | inl e ↦ rw e k
  | inr (t, e) ↦ rw e (resolve_token-HasKey to_lower tokens id h e)
]

same_token-HasKey : (a b : Token) → HasKey a → HasKey b → (x : Bool) × (same_token a b ≡ some x)
unfolding same_token
same_token-HasKey a b (k, e) (l, f) = (text_eq k l, rw (e, f) refl)

-- Whatever the address holds, opening it over a form with different tokens does not throw and leaves
-- different tokens, when every token of the list and of the form is native or has an address.
pub apply_swap_url-DistinctForm :
    (to_lower : Text → Text) (tokens : List Token) (q : Query) (s : SwapState)
    → All HasKey tokens
    → HasKey s.token_in
    → HasKey s.token_out
    → DistinctForm s
    → (u : SwapState) × (apply_swap_url to_lower tokens q s ≡ some u) × DistinctForm u
unfolding apply_swap_url
apply_swap_url-DistinctForm to_lower tokens q s keys key_in key_out h =
    let in_tok = resolve_token to_lower tokens (get in_key q) in
    let out_tok = resolve_token to_lower tokens (get out_key q) in
    let (u, e, d) =
      apply_tokens-differ in_tok out_tok s
        (same_token-HasKey _ _ (chosen-HasKey to_lower tokens (get in_key q) s.token_in keys key_in)
          (chosen-HasKey to_lower tokens (get out_key q) s.token_out keys key_out))
        h in
    (apply_typed q u, rw (e, apply_swap_url) refl, apply_typed-DistinctForm q u d)
