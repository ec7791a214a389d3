-- ===== src/Select/Picked.antt =====
-- What picking a token does to the tokens of the swap form.
use ark_swap.Prelude.{◌≡◌, ◌∙◌, subst, true, false, none, some, Option-cases, inl, inr}
use mathlib.Core.Option.{some-injective}
use ark_swap.Tokens.{Token, same_token}
use ark_swap.Tokens.Identity.{same_token_comm}
use ark_swap.SwapForm.{SwapState, flip}
use ark_swap.Select.{is_disabled, pick}
use ark_swap.Url.Distinct.{DistinctForm}

pick_inv :
    (exclude token : Token) {t : Token}
    → pick (some exclude) token ≡ some t
    → (same_token token exclude ≡ some false) × (token ≡ t)
unfolding is_disabled
pick_inv exclude token {t} e = elim (Option-cases (same_token token exclude)) [
  | inl thrown ↦ absurd (none≢some (rw thrown at e))
  | inr (true, same) ↦ absurd (none≢some (rw same at e))
  | inr (false, differ) ↦ (differ, some-injective _ _ (rw differ at e))
]
  where
    none≢some : ¬ (none ≡ some t)
    none≢some k = cc

-- One change of the form's tokens by the lists beside the amounts or the arrow between them.
pub data Step : SwapState → SwapState → Type 0 where
  picks_in :
      (s : SwapState) (token : Token) {t : Token}
      → pick (some s.token_out) token ≡ some t
      → Step s (record s { token_in = t })
  picks_out :
      (s : SwapState) (token : Token) {t : Token}
      → pick (some s.token_in) token ≡ some t
      → Step s (record s { token_out = t })
  flips : (s : SwapState) → Step s (flip s)

pub data Reach (start : SwapState) : SwapState → Type 0 where
  here : Reach start start
  next : {s t : SwapState} → Reach start s → Step s t → Reach start t

-- A form that starts with different tokens keeps them different, whichever listed tokens are picked on
-- either side and however often the sides are swapped.
pub Reach-DistinctForm : {start s : SwapState} → DistinctForm start → Reach start s → DistinctForm s
unfolding flip
Reach-DistinctForm h here = h
Reach-DistinctForm h (next r (picks_in s token e)) =
    let (differ, same) = pick_inv s.token_out token e in
    subst (λ t. same_token t s.token_out ≡ some false) same differ
Reach-DistinctForm h (next r (picks_out s token {t} e)) =
    let (differ, same) = pick_inv s.token_in token e in
    same_token_comm s.token_in t ∙ subst (λ u. same_token u s.token_in ≡ some false) same differ
Reach-DistinctForm h (next r (flips s)) =
    same_token_comm s.token_out s.token_in ∙ Reach-DistinctForm h r
