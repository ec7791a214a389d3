-- ===== src/Reads/Route.antt =====
-- The route of apps/web/src/hooks/useSwapRoute.ts, from its batched read to the route that it returns.
use ark_swap.Prelude.{
  ◌≡◌, refl, ap, ◌∙◌, ℕ, ◌<◌, false, Option, none, some, List, [], ◌∷◌, map, length, Text, is_empty,
  option_map, All, Result, ok, err, ◌>>=◌, >>=-eq-ok,
}
use ark_swap.PairAddress.{Viem, AddressError}
use ark_swap.Route.{Candidate}
use ark_swap.Route.Quoting.{Pools, get_pool, read_pools}
use ark_swap.Route.Search.{
  RouteInput, RouteResult, lift_address, pair_keys, input_candidates, input_pools,
}
use ark_swap.Route.Optimal.{IsBest, IsRouteFrom, use_swap_route_optimal}
use ark_swap.Reads.{Request, Answer, Reader, flat_map, route_requests, route_reads}
use ark_swap.Reads.Decoded.{route_read_of, route_reads-append}
use ark_swap.Reads.Ordered.{AnswersInOrder, ltb-suc}
use ark_swap.Reads.Coverage.{AllHops, pair_keys-Hops, read_pools-Hops}
use ark_swap.Reads.Hops.{
  route_keys, route_query, with_reads, read_swap_route, own_pool, pair_keys-Small,
}

lift_address-eq-ok :
    {A : Type 0} (r : Result AddressError A) {a : A} → lift_address r ≡ ok a → r ≡ ok a
lift_address-eq-ok (ok b) e = cc
lift_address-eq-ok (err f) e = cc

module _ (v : Viem) (i : RouteInput) (cs : List Candidate) where
  route_keys_inv :
      (f : Text) {keys : List Text}
      → i.factory ≡ some f
      → is_empty f ≡ false
      → route_keys v i cs ≡ ok keys
      → pair_keys v f cs [] ≡ ok keys
  unfolding route_keys
  route_keys_inv f ef nf e = lift_address-eq-ok _ (rw (ef, nf) at e)

  module _ (answer : Request → Option Answer) (read : Reader)
      (ordered : AnswersInOrder answer read) where
    abbrev read_results : List Text → Option (List (Option (ℕ × ℕ) × Option Text))
    read_results keys =
        option_map (λ results. route_reads results 0 keys) ((route_query read keys).results)

    decoded-own :
        (keys : List Text)
        → (elim (read_results keys) as (λ x. Pools) [
          | none ↦ []
          | some results ↦ read_pools keys results
        ])
          ≡ read_pools keys (map (route_read_of answer) keys)
    unfolding read_pools
    decoded-own [] = refl
    decoded-own (k ∷ keys) =
        rw (ltb-suc (length keys), ordered (flat_map route_requests (k ∷ keys)))
          (ap (read_pools (k ∷ keys)) (route_reads-append answer [] 0 (k ∷ keys) refl))

    input_pools-own :
        {keys : List Text}
        → route_keys v i cs ≡ ok keys
        → input_pools v (with_reads read keys i) cs
          ≡ ok (read_pools keys (map (route_read_of answer) keys))
    unfolding input_pools route_keys
    input_pools-own {keys} e =
        ap
          (λ r. r >>= λ ks. ok (elim (read_results keys) as (λ x. Pools) [
            | none ↦ []
            | some results ↦ read_pools ks results
          ]))
          e
        ∙ ap ok (decoded-own keys)

-- When the hook returns for a positive amount and a configured factory, and its batch is answered in the
-- order of the requests, then there are pools in which the pair of every hop of every candidate has the
-- reserves and the first token that the contract at its own address answers, or no pool where it answers
-- none or a side is empty; and on these pools the returned route is the quote of one of the candidates, no
-- candidate has a better quote, and without a route no candidate has a quote.
pub read_swap_route_optimal :
    (v : Viem) (answer : Request → Option Answer) (read : Reader)
    → AnswersInOrder answer read
    → (i : RouteInput) (f : Text) (a : ℕ) {out : RouteResult} → i.factory ≡ some f
    → is_empty f ≡ false
    → i.amount ≡ some a
    → 0 < a
    → read_swap_route v read i ≡ ok out
    → (cs : List Candidate) × (pools : Pools) × (input_candidates i ≡ ok cs)
      × All (λ c. AllHops v f (λ k. get_pool k pools ≡ own_pool answer k) c.path) cs
      × All (IsBest v f pools i.side a out.route) cs
      × IsRouteFrom v f pools i.side a out.route cs
unfolding read_swap_route input_candidates
read_swap_route_optimal v answer read ordered i f a ef nf ea pa e =
    let (cs, ecs, rest) = >>=-eq-ok (input_candidates i) _ e in
    let (keys, ekeys, run) = >>=-eq-ok (route_keys v i cs) _ rest in
    let pools = read_pools keys (map (route_read_of answer) keys) in
    let (best, from) =
      use_swap_route_optimal v (with_reads read keys i) f a cs pools ef nf ea pa ecs
        (input_pools-own v i cs answer read ordered ekeys) run in
    let asked = pair_keys-Hops v f cs [] (route_keys_inv v i cs f ef nf ekeys) in
    (
      cs,
      pools,
      ecs,
      read_pools-Hops v f answer cs keys
          (pair_keys-Small v f cs [] tt (route_keys_inv v i cs f ef nf ekeys)) asked,
      best,
      from,
    )
