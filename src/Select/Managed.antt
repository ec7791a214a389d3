-- ===== src/Select/Managed.antt =====
-- Which tokens the liquidity form is pointed at by a position (apps/web/src/components/PositionsCard.tsx).
use ark_swap.Prelude.{
  ◌≡◌, ◌⊎◌, refl, sym, ◌∙◌, true, false, Option, none, some, List, ◌∷◌, Text, lower, All, All-split,
  is_set, text_eq→eq, Bool-cases, Option-cases, inl, inr,
}
use mathlib.Core.Bool.{false≢true, and-eq-true_iff}
use ark_swap.Tokens.{kash, Token, token_by_address, routed_address}
use ark_swap.Tokens.Resolve.{token_by_address_first}
use ark_swap.Valuation.{PoolToken}
use ark_swap.PoolTable.{is_wkash_side}
use ark_swap.Select.{as_token}

-- A native token has no address.
abbrev pub IsPlain : Token → Type 0
IsPlain t = (t.is_native ≡ false) ⊎ (t.address ≡ none)

wkash_side :
    (wkash : Option Text) (t : PoolToken)
    → is_wkash_side wkash t ≡ true
    → (w : Text) × (wkash ≡ some w) × (lower w ≡ lower t.address)
wkash_side none t e = absurd (false≢true e)
wkash_side (some w) t e =
    let same = ((and-eq-true_iff (is_set (some w)) _).0 e).1 in (w, refl, sym (text_eq→eq _ _ same))

plain-routed :
    (wkash : Option Text) (u : Token) (x : Text)
    → IsPlain u
    → u.address ≡ some x
    → routed_address wkash u ≡ some x
unfolding routed_address
plain-routed wkash u x (inl foreign) address = rw (routed_address, foreign) address
plain-routed wkash u x (inr missing) address = absurd (none≢some (sym missing ∙ address))
  where
    none≢some : ¬ (none ≡ some x)
    none≢some k = cc

-- The token that the form gets for a side of a pool is routed through that side's contract, up to case, when
-- no native token of the list has an address: also for WKASH, which the form gets as native KASH, and for a
-- token that is not listed.
pub as_token-routed :
    (wkash : Option Text) (tokens : List Token) (t : PoolToken)
    → All IsPlain tokens
    → (a : Text) × (routed_address wkash (as_token wkash tokens t) ≡ some a)
      × (lower a ≡ lower t.address)
unfolding as_token routed_address
as_token-routed wkash tokens t plain = elim (Bool-cases (is_wkash_side wkash t)) [
  | inl e ↦
      let same : as_token wkash tokens t ≡ kash = rw (as_token, e) refl in
      let (w, set, lowered) = wkash_side wkash t e in (w, rw (same, set) refl, lowered)
  | inr e ↦ elim (Option-cases (token_by_address tokens (some t.address))) [
    | inl missing ↦ (t.address, rw (as_token, e, missing) refl, refl)
    | inr (u, found) ↦
        let same : as_token wkash tokens t ≡ u = rw (as_token, e, found) refl in
        let (before, after, x, split, _, address, lowered) =
          token_by_address_first tokens t.address found in
        let here = (All-split IsPlain before (u ∷ after) (rw split at plain)).1 in
        (x, rw same (plain-routed wkash u x here.0 address), lowered)
  ]
]
