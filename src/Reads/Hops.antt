-- ===== src/Reads/Hops.antt =====
-- apps/web/src/hooks/useSwapRoute.ts on its batched read: the pools that a route is quoted on.
use ark_swap.Prelude.{
  ◌≡◌, refl, sym, ap, ◌∙◌, inl, inr, ℕ, ltb, ◌==◌, ◌||◌, Option, none, some, List, [], ◌∷◌, map,
  length, Text, text_eq, text_eq→eq, lower, lower_idem, get_or, is_set, option_map, All, Result, ok,
  ok_injective, subst, Option-cases, ◌>>=◌, >>=-eq-ok, Bool-cases, if◌then◌else◌,
}
use ark_swap.PairAddress.{Viem, AddressError, compute_pair_address}
use ark_swap.Route.{Candidate}
use ark_swap.Route.Quoting.{Pools, PoolReserves, get_pool, read_pools}
use ark_swap.Route.Search.{
  RouteInput, RouteError, RouteResult, lift_address, pair_keys, path_keys, add_key,
  input_candidates, use_swap_route,
}
use ark_swap.Reads.{
  Request, Answer, Query, Reader, read_if, flat_map, route_requests, route_reads, as_address,
  as_reserves, get_reserves, token0,
}
use ark_swap.Reads.Decoded.{route_read_of}

-- `pairAddrs`.
unfoldable pub route_keys : Viem → RouteInput → List Candidate → Result RouteError (List Text)
route_keys v i cs =
    if is_set i.factory then lift_address (pair_keys v (get_or i.factory []) cs []) else ok []

abbrev pub route_query : Reader → List Text → Query
route_query read keys = read_if (ltb 0 (length keys)) read (flat_map route_requests keys)

abbrev pub with_reads : Reader → List Text → RouteInput → RouteInput
with_reads read keys i =
    let query = route_query read keys in
    record i {
      results = option_map (λ results. route_reads results 0 keys) query.results;
      is_loading = query.is_loading;
    }

-- The hook with the read that it starts for the pairs of its candidates.
unfoldable pub read_swap_route : Viem → Reader → RouteInput → Result RouteError RouteResult
read_swap_route v read i = do
  cs ← input_candidates i
  keys ← route_keys v i cs
  use_swap_route v (with_reads read keys i)

-- A pool where both reads have returned and both sides have reserves.
abbrev pub pool_of : Option (ℕ × ℕ) → Option Text → Option PoolReserves
pool_of (some (r0, r1)) (some t0) =
    if r0 == 0 || r1 == 0 then none else some (record { token0 = t0; reserve0 = r0; reserve1 = r1 })
pool_of _ _ = none

pub read_pools-cons :
    (p : Text) (ps : List Text) (o : Option (ℕ × ℕ)) (t : Option Text)
    (results : List (Option (ℕ × ℕ) × Option Text))
    → read_pools (p ∷ ps) ((o, t) ∷ results) ≡ (elim (pool_of o t) as (λ x. Pools) [
      | none ↦ read_pools ps results
      | some pool ↦ (lower p, pool) ∷ read_pools ps results
    ])
unfolding read_pools
read_pools-cons p ps none none results = refl
read_pools-cons p ps none (some t0) results = refl
read_pools-cons p ps (some (r0, r1)) none results = refl
read_pools-cons p ps (some (r0, r1)) (some t0) results = elim (Bool-cases (r0 == 0 || r1 == 0)) [
  | inl e ↦ rw e refl
  | inr e ↦ rw e refl
]

module _ (answer : Request → Option Answer) where
  -- What the contract at an address answers.
  abbrev pub own_pool : Text → Option PoolReserves
  own_pool k =
      pool_of (as_reserves (answer (record { address = k; reading = get_reserves })))
        (as_address (answer (record { address = k; reading = token0 })))

  pub get_pool-own :
      (keys : List Text)
      → All (λ k. lower k ≡ k) keys
      → (k : Text) {pool : PoolReserves}
      → get_pool k (read_pools keys (map (route_read_of answer) keys)) ≡ some pool
      → own_pool k ≡ some pool
  unfolding read_pools get_pool
  get_pool-own [] small k e = cc
  get_pool-own (p ∷ ps) (s, small) k {pool} e =
      let results = map (route_read_of answer) ps in
      let split =
        ap (get_pool k)
          (sym (read_pools-cons p ps (route_read_of answer p).0 (route_read_of answer p).1 results))
        ∙ e in
      elim (Option-cases (own_pool p)) [
        | inl missing ↦ get_pool-own ps small k (rw missing at split)
        | inr (q, here) ↦ elim (Bool-cases (text_eq (lower p) k)) [
          | inl same ↦
              let is_k : p ≡ k = sym s ∙ text_eq→eq _ _ same in
              subst (λ x. own_pool x ≡ some pool) is_k (here ∙ rw (here, same) at split)
          | inr other ↦ get_pool-own ps small k (rw (here, other) at split)
        ]
      ]

module _ (v : Viem) (factory : Text) where
  abbrev pub Small : List Text → Type 0
  Small keys = All (λ k. lower k ≡ k) keys

  add_key-Small :
      (a : Text) (keys : List Text) → Small keys → Small (add_key v factory (lower a) keys)
  add_key-Small a [] h = (lower_idem a, tt)
  add_key-Small a (k ∷ keys) (s, h) = elim (Bool-cases (text_eq k (lower a))) [
    | inl e ↦ rw e (s, h)
    | inr e ↦ rw e (s, add_key-Small a keys h)
  ]

  path_keys-Small :
      (a : Text) (path keys : List Text) {out : List Text}
      → Small keys
      → path_keys v factory a path keys ≡ ok out
      → Small out
  unfolding path_keys
  path_keys-Small a [] keys h e = subst Small (ok_injective _ _ e) h
  path_keys-Small a (b ∷ path) keys h e =
      let (addr, at, rest) = >>=-eq-ok (compute_pair_address v factory a b) _ e in
      path_keys-Small b path _ (add_key-Small addr keys h) rest

  first_keys-Small :
      (path keys : List Text) {out : List Text}
      → Small keys
      → (elim path as (λ x. Result AddressError (List Text)) [
        | [] ↦ ok keys
        | a ∷ rest ↦ path_keys v factory a rest keys
      ])
        ≡ ok out
      → Small out
  first_keys-Small [] keys h e = subst Small (ok_injective _ _ e) h
  first_keys-Small (a ∷ path) keys h e = path_keys-Small a path keys h e

  pub pair_keys-Small :
      (cs : List Candidate) (keys : List Text) {out : List Text}
      → Small keys
      → pair_keys v factory cs keys ≡ ok out
      → Small out
  unfolding pair_keys
  pair_keys-Small [] keys h e = subst Small (ok_injective _ _ e) h
  pair_keys-Small (c ∷ cs) keys h e =
      let (more, at, rest) = >>=-eq-ok _ _ e in
      pair_keys-Small cs more (first_keys-Small c.path keys h at) rest
