-- ===== src/Router/Candidates.antt =====
-- The candidate of apps/web/src/hooks/useSwapRoute.ts that a route comes from.
use ark_swap.Prelude.{
  ℕ, ◌≡◌, refl, ap, ◌∙◌, Option, none, some, List, [], ◌∷◌, Text, All, ok, >>=-eq-ok, ok_injective,
  inl, inr, Result-cases,
}
use ark_swap.PairAddress.{Viem}
use ark_swap.Route.{SwapSide, SwapRoute, Candidate}
use ark_swap.Route.Quoting.{Hop, Pools, Quote}
use ark_swap.Route.Search.{evaluate, hops_of, hops_from, quote_side, quote_hops, route_of}
use ark_swap.Route.Optimal.{Quotes, IsFrom}

module _ (v : Viem) (factory : Text) (pools : Pools) (side : SwapSide) (amount : ℕ) where
  -- A route comes from a candidate with the property that all have.
  pub IsFrom-All :
      {P : Candidate → Type 0} (r : SwapRoute) (cs : List Candidate)
      → IsFrom v factory pools side amount r cs
      → All P cs
      → (c : Candidate) × (q : Quote) × P c
        × Quotes v factory pools side amount c (some q)
        × (r ≡ route_of c q)
  IsFrom-All r [] h k = elim h [ ]
  IsFrom-All r (c ∷ cs) (inl (q, found, same)) (p, k) = (c, q, p, found, same)
  IsFrom-All r (c ∷ cs) (inr h) (p, k) = IsFrom-All r cs h k

  quoted :
      (o : Option (List Hop)) {q : Quote}
      → elim o [ none ↦ none | some hs ↦ quote_hops v factory pools side amount hs ] ≡ some q
      → (hops : List Hop) × (o ≡ some hops)
        × (quote_side v factory pools side amount hops ≡ ok (some q))
  unfolding quote_hops
  quoted none e = cc
  quoted (some hops) {q} e = elim (Result-cases (quote_side v factory pools side amount hops)) [
    | inl (x, failed) ↦ absurd (none≢some (rw (quote_hops, failed) at e))
    | inr (o, made) ↦ (hops, refl, made ∙ ap ok (rw (quote_hops, made) at e))
  ]
    where
      none≢some : ¬ (none ≡ some q)
      none≢some k = cc

  pub evaluate_inv :
      (c : Candidate) {q : Quote}
      → evaluate v factory pools side amount c ≡ ok (some q)
      → (hops : List Hop) × (hops_of v factory pools c ≡ ok (some hops))
        × (quote_side v factory pools side amount hops ≡ ok (some q))
  unfolding evaluate
  evaluate_inv c {q} e =
      let (o, walked, found) = >>=-eq-ok (hops_of v factory pools c) _ e in
      let (hops, same, side_quote) = quoted o (ok_injective _ _ found) in
      (hops, walked ∙ ap ok same, side_quote)

pub hops_of_lem :
    (v : Viem) (factory : Text) (pools : Pools) (c : Candidate) (a : Text) (path : List Text)
    → c.path ≡ a ∷ path
    → hops_of v factory pools c ≡ hops_from v factory pools a path
unfolding hops_of
hops_of_lem v factory pools c a path e = rw (hops_of, e) refl
