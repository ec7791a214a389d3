-- ===== src/Router/Checks.antt =====
-- The checks of the router that a call of the form passes.
use ark_swap.Prelude.{
  ℕ, ◌+◌, ◌-◌, ◌≡◌, refl, ◌≤◌, true, false, ◌⊎◌, none, some, List, [], ◌∷◌, ◌++◌, Text,
  text_eq_refl, get_or, arith, Result, ok, length, get_elem?-append, leb, if◌then◌else◌, Bool-cases,
  Option-cases, inl, inr, length-append,
}
use ark_swap.Prelude.Int.{pos}
use ark_swap.Route.{SwapSide, exact_in, exact_out, SwapRoute}
use ark_swap.SwapForm.{CardInput, SwapQuote, swap_quote, quote_of, is_out, side_of_form}
use ark_swap.SwapForm.Calls.{SwapCall, call_exact_in, call_exact_out, submit}
use ark_swap.SwapForm.Bounds.{swap_quote_inv}
use ark_swap.Router.{RouterError, Reserves, sell, buy, run_swap, starts_at, ends_at}

-- The token that a path starts from, and the one that it ends at.
pub starts_lem : (weth a : Text) (path : List Text) → a ≡ weth → starts_at weth (a ∷ path) ≡ ok tt
starts_lem weth a path e = rw (e, text_eq_refl) refl

pub ends_lem : (weth z : Text) (path : List Text) → z ≡ weth → ends_at weth (path ++ z ∷ []) ≡ ok tt
ends_lem weth z path e =
    let at : length (path ++ z ∷ []) - 1 ≡ length path + 0 =
      omega (arith, length-append path (z ∷ [])) in
    rw (at, get_elem?-append path (z ∷ []) 0, e, text_eq_refl) refl

-- What the form and the chain have in common: the call is in time, its path leads from and to the wrapped
-- token wherever the form has the native one, and the tokens are not taxed.
pub record IsTimely (i : CardInput) (weth : Text) (now : ℕ) (path : List Text) : Type 0 where
  pub untaxed : i.fee_on_transfer ≡ false
  pub in_time : now ≤ get_or i.deadline 0
  pub from : ((i.form).token_in).is_native ≡ true → starts_at weth path ≡ ok tt
  pub into : ((i.form).token_out).is_native ≡ true → ends_at weth path ≡ ok tt

module _ (reserves : Reserves) (taxed : SwapCall → Result RouterError (List ℕ)) (weth : Text)
    (now : ℕ) (i : CardInput) (q : SwapQuote) (path : List Text) (to : Text)
    (t : IsTimely i weth now path) where
  pub run_exact_in :
      (m : ℕ)
      → q.min_received ≡ pos m
      → run_swap reserves taxed weth now (call_exact_in i q path to)
        ≡ sell reserves q.amount_in m path
  unfolding call_exact_in run_swap
  run_exact_in m e =
      let passes : leb now (get_or i.deadline 0) ≡ true = ground (arith, t.in_time) in
      elim (Bool-cases ((i.form).token_in).is_native) [
        | inl a ↦ rw (a, t.untaxed, e, passes, t.from a) refl
        | inr a ↦ elim (Bool-cases ((i.form).token_out).is_native) [
          | inl b ↦ rw (a, b, t.untaxed, e, passes, t.into b) refl
          | inr b ↦ rw (a, b, t.untaxed, e, passes) refl
        ]
      ]

  pub run_exact_out :
      run_swap reserves taxed weth now (call_exact_out i q path to)
      ≡ buy reserves q.amount_out q.max_sold path
  unfolding call_exact_out run_swap
  run_exact_out =
      let passes : leb now (get_or i.deadline 0) ≡ true = ground (arith, t.in_time) in
      elim (Bool-cases ((i.form).token_in).is_native) [
        | inl a ↦ rw (a, passes, t.from a) refl
        | inr a ↦ elim (Bool-cases ((i.form).token_out).is_native) [
          | inl b ↦ rw (a, b, passes, t.into b) refl
          | inr b ↦ rw (a, b, passes) refl
        ]
      ]

pub submit_inv :
    (i : CardInput) (r : SwapRoute) {c : SwapCall}
    → i.route ≡ some r
    → submit i ≡ some c
    → c ≡ (
        if is_out (side_of_form i)
        then call_exact_out i (quote_of i r) r.path (get_or i.address [])
        else call_exact_in i (quote_of i r) r.path (get_or i.address []))
unfolding submit
submit_inv i r {c} er e = elim (Option-cases (swap_quote i)) [
  | inl missing ↦ absurd (none≢some (ground arith))
  | inr (q, found) ↦ ground (arith, swap_quote_inv i r er found)
]
  where
    none≢some : ¬ (none ≡ some c)
    none≢some k = cc

pub side_cases :
    (s : SwapSide) → ((s ≡ exact_in) × (is_out s ≡ false)) ⊎ ((s ≡ exact_out) × (is_out s ≡ true))
side_cases exact_in = inl (refl, refl)
side_cases exact_out = inr (refl, refl)
