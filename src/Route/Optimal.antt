-- ===== src/Route/Optimal.antt =====
-- What the search of apps/web/src/hooks/useSwapRoute.ts returns.
use native.Mathlib.Nat.{le_refl}
use ark_swap.Prelude.{
  ℕ, ◌≤◌, ◌<◌, ◌≡◌, false, Option, none, some, List, [], ◌∷◌, Text, arith, All, is_empty, Result,
  ok, err, >>=-eq-ok, ok_injective, sym, ◌⊎◌, Bool-cases, inl, inr,
}
use ark_swap.PairAddress.{Viem, AddressError}
use ark_swap.Route.{SwapSide, exact_in, exact_out, SwapRoute, Candidate}
use ark_swap.Route.Quoting.{Pools, Quote}
use mathlib.Core.Option.{some-injective}
use ark_swap.Route.Search.{
  RouteInput, RouteResult, lift_address, input_candidates, input_pools, search_route,
  use_swap_route, evaluate, better, route_of, improve, best_from,
}

-- The route is at least as good a deal as the quote.
abbrev pub IsAsGood : SwapSide → Option SwapRoute → Quote → Type 0
IsAsGood side none q = ⊥
IsAsGood exact_in (some r) q = q.amount_out ≤ r.amount_out
IsAsGood exact_out (some r) q = r.amount_in ≤ q.amount_in

-- A candidate without a quote is no rival.
abbrev pub Covers : SwapSide → Option SwapRoute → Option Quote → Type 0
Covers side best none = Unit
Covers side best (some q) = IsAsGood side best q

improve_keeps :
    (side : SwapSide) (best : Option SwapRoute) (c : Candidate) (e : Option Quote) (q : Quote)
    → IsAsGood side best q
    → IsAsGood side (improve side best c e) q
improve_keeps side none c e q h = elim h [ ]
improve_keeps side (some b) c none q h = h
improve_keeps exact_in (some b) c (some p) q h = ground arith
improve_keeps exact_out (some b) c (some p) q h = ground arith

improve_covers :
    (side : SwapSide) (best : Option SwapRoute) (c : Candidate) (q : Quote)
    → IsAsGood side (improve side best c (some q)) q
improve_covers exact_in none c q = le_refl _
improve_covers exact_out none c q = le_refl _
improve_covers exact_in (some b) c q = ground arith
improve_covers exact_out (some b) c q = ground arith

module _ (v : Viem) (factory : Text) (pools : Pools) (side : SwapSide) (amount : ℕ) where
  -- What the candidate evaluates to: its quote, or none.
  abbrev pub Quotes : Candidate → Option Quote → Type 0
  Quotes c q = evaluate v factory pools side amount c ≡ ok q

  abbrev pub IsBest : Option SwapRoute → Candidate → Type 0
  IsBest best c = (found : Option Quote) × Quotes c found × Covers side best found

  -- The route is the quote of one of the candidates.
  abbrev pub IsFrom : SwapRoute → List Candidate → Type 0
  IsFrom r [] = ⊥
  IsFrom r (c ∷ cs) = ((q : Quote) × Quotes c (some q) × (r ≡ route_of c q)) ⊎ IsFrom r cs

  abbrev pub IsRouteFrom : Option SwapRoute → List Candidate → Type 0
  IsRouteFrom none cs = Unit
  IsRouteFrom (some r) cs = IsFrom r cs

  best_from_keeps :
      (best : Option SwapRoute) (cs : List Candidate) {r : Option SwapRoute} (q : Quote)
      → best_from v factory pools side amount best cs ≡ ok r
      → IsAsGood side best q
      → IsAsGood side r q
  unfolding best_from
  best_from_keeps best [] {r} q e h = rw (← ok_injective best r e) h
  best_from_keeps best (c ∷ cs) {r} q e h =
      let (found, quoted, rest) =
        >>=-eq-ok (evaluate v factory pools side amount c)
          (λ x. best_from v factory pools side amount (improve side best c x) cs) e in
      best_from_keeps (improve side best c found) cs q rest (improve_keeps side best c found q h)

  best_from-IsBest :
      (best : Option SwapRoute) (cs : List Candidate) {r : Option SwapRoute}
      → best_from v factory pools side amount best cs ≡ ok r
      → All (IsBest r) cs
  unfolding best_from
  best_from-IsBest best [] e = tt
  best_from-IsBest best (c ∷ cs) {r} e =
      let (found, quoted, rest) =
        >>=-eq-ok (evaluate v factory pools side amount c)
          (λ x. best_from v factory pools side amount (improve side best c x) cs) e in
      ((found, quoted, covers found rest), best_from-IsBest (improve side best c found) cs rest)
    where
      covers :
          (found : Option Quote)
          → best_from v factory pools side amount (improve side best c found) cs ≡ ok r
          → Covers side r found
      covers none rest = tt
      covers (some q) rest =
          best_from_keeps (improve side best c (some q)) cs q rest (improve_covers side best c q)

  improve-IsFrom :
      (best : Option SwapRoute) (c : Candidate) (found : Option Quote) (r : SwapRoute)
      → Quotes c found
      → improve side best c found ≡ some r
      → (best ≡ some r) ⊎ ((q : Quote) × Quotes c (some q) × (r ≡ route_of c q))
  improve-IsFrom best c none r own e = inl e
  improve-IsFrom best c (some q) r own e = elim (Bool-cases (better side q best)) [
    | inl new ↦ inr (q, own, sym (some-injective _ _ (rw new at e)))
    | inr old ↦ inl (rw old at e)
  ]

  best_from-IsFrom :
      (best : Option SwapRoute) (cs : List Candidate) (r : SwapRoute)
      → best_from v factory pools side amount best cs ≡ ok (some r)
      → (best ≡ some r) ⊎ IsFrom r cs
  unfolding best_from
  best_from-IsFrom best [] r e = inl (ok_injective _ _ e)
  best_from-IsFrom best (c ∷ cs) r e =
      let (found, quoted, rest) =
        >>=-eq-ok (evaluate v factory pools side amount c)
          (λ x. best_from v factory pools side amount (improve side best c x) cs) e in
      elim (best_from-IsFrom (improve side best c found) cs r rest) [
        | inr later ↦ inr (inr later)
        | inl now ↦ elim (improve-IsFrom best c found r quoted now) [
          | inl old ↦ inl old
          | inr new ↦ inr (inl new)
        ]
      ]

lift_address_inv :
    {A : Type 0} (m : Result AddressError A) {a : A} → lift_address m ≡ ok a → m ≡ ok a
lift_address_inv (ok b) h = cc
lift_address_inv (err e) h = cc

-- A hook call that returns has run the loop over its candidates.
use_swap_route_inv :
    (v : Viem) (i : RouteInput) (f : Text) (a : ℕ) (cs : List Candidate) (pools : Pools)
    {out : RouteResult}
    → i.factory ≡ some f
    → is_empty f ≡ false
    → i.amount ≡ some a
    → 0 < a
    → input_candidates i ≡ ok cs
    → input_pools v i cs ≡ ok pools
    → use_swap_route v i ≡ ok out
    → best_from v f pools i.side a none cs ≡ ok out.route
unfolding use_swap_route search_route
use_swap_route_inv v i f a cs pools {out} ef nf ea pa ecs epools e =
    let found : search_route v i cs pools ≡ ok out.route = ground arith in
    lift_address_inv (best_from v f pools i.side a none cs) (ground arith)

-- Whenever the hook returns for a positive amount and a configured factory, a route that it returns is
-- the quote of one of the candidate paths, no candidate has a quote that gives more output for an exact
-- input or asks less input for an exact output, and without a route no candidate has a quote.
pub use_swap_route_optimal :
    (v : Viem) (i : RouteInput) (f : Text) (a : ℕ) (cs : List Candidate) (pools : Pools)
    {out : RouteResult}
    → i.factory ≡ some f
    → is_empty f ≡ false
    → i.amount ≡ some a
    → 0 < a
    → input_candidates i ≡ ok cs
    → input_pools v i cs ≡ ok pools
    → use_swap_route v i ≡ ok out
    → All (IsBest v f pools i.side a out.route) cs × IsRouteFrom v f pools i.side a out.route cs
use_swap_route_optimal v i f a cs pools {out} ef nf ea pa ecs epools e =
    let run = use_swap_route_inv v i f a cs pools ef nf ea pa ecs epools e in
    (best_from-IsBest v f pools i.side a none cs run, from out.route run)
  where
    none≢some : {r : SwapRoute} → ¬ (none ≡ some r)
    none≢some h = cc

    from :
        (o : Option SwapRoute)
        → best_from v f pools i.side a none cs ≡ ok o
        → IsRouteFrom v f pools i.side a o cs
    from none ran = tt
    from (some r) ran = elim (best_from-IsFrom v f pools i.side a none cs r ran) [
      | inl h ↦ absurd (none≢some h)
      | inr h ↦ h
    ]
