-- ===== src/Reads/State.antt =====
-- apps/web/src/hooks/usePoolState.ts on its batched read.
use ark_swap.Prelude.{
  ◌≡◌, ap, ◌∙◌, arith, Option, none, some, Text, lower, get_or, is_set, not, ◌&&◌, if◌then◌else◌,
  List, ◌∷◌, option_map, [], map, Result, ok, ok_injective, >>=-eq-ok, ◌>>=◌,
}
use ark_swap.Tokens.{Token, routed_address}
use ark_swap.PairAddress.{Viem, AddressError, compute_pair_address}
use ark_swap.Pools.{
  PoolState, PoolResult, PoolRead, routed, derive, use_pool_state, check_pool, pool_at,
}
use ark_swap.Pools.State.{check_pool_lem}
use ark_swap.Reads.{
  Request, Answer, Reader, state_requests, state_read, as_address, as_amount, as_reserves, get_pair,
  get_reserves, total_supply, token0, token1,
}
use ark_swap.Reads.Ordered.{AnswersInOrder}

-- What the hook hands to the form, with the read that it starts at the derived address.
unfoldable pub read_pool_state :
    Viem
    → Reader
    → Option Text
    → Option Text
    → Option Token
    → Option Token
    → Result AddressError PoolResult
read_pool_state v read factory wkash token_a token_b = do
  derived ← derive v factory (routed wkash token_a) (routed wkash token_b)
  use_pool_state v factory wkash token_a token_b (elim derived [
    | none ↦ none
    | some pair ↦ option_map state_read (
        (read (
          state_requests (get_or factory []) pair (get_or (routed wkash token_a) [])
            (get_or (routed wkash token_b) []))).results)
  ])

-- `poolReadContracts`: the derived address and the four reads that it lists.
unfoldable pub pool_read_contracts :
    Viem
    → Option Text
    → Option Text
    → Token
    → Token
    → Result AddressError (Option (Text × List Request))
pool_read_contracts v factory wkash token_a token_b =
    let a = routed_address wkash token_a in
    let b = routed_address wkash token_b in
    if not (is_set a && is_set b && is_set factory) then ok none else do
      pair ← compute_pair_address v (get_or factory []) (get_or a []) (get_or b [])
      ok (
          some (
            pair,
            record { address = get_or factory []; reading = get_pair (get_or a []) (get_or b []) }
                ∷ record { address = pair; reading = get_reserves }
                ∷ record { address = pair; reading = token0 }
                ∷ record { address = pair; reading = total_supply }
                ∷ [],
          ))

-- The pool stands with what the contract at its own address answers.
pub record IsOwn (answer : Request → Option Answer) (p : PoolState) : Type 0 where
  pub reserves :
      as_reserves (answer (record { address = p.pair; reading = get_reserves }))
      ≡ some (p.reserve0, p.reserve1)
  pub token0 : as_address (answer (record { address = p.pair; reading = token0 })) ≡ some p.token0
  pub token1 : as_address (answer (record { address = p.pair; reading = token1 })) ≡ some p.token1
  pub total_supply :
      as_amount (answer (record { address = p.pair; reading = total_supply })) ≡ some p.total_supply

pool_at_lem :
    (pair : Text) (r : PoolRead) {p : PoolState}
    → pool_at pair r ≡ some p
    → (p.pair ≡ pair)
      × (r.reserves ≡ some (p.reserve0, p.reserve1))
      × (r.token0 ≡ some p.token0)
      × (r.token1 ≡ some p.token1)
      × (r.total_supply ≡ some p.total_supply)
pool_at_lem pair r e = ground arith

check_pool-pool_at :
    (pair : Text) (r : PoolRead) {p : PoolState}
    → (check_pool pair r).pool ≡ some p
    → pool_at pair r ≡ some p
unfolding check_pool
check_pool-pool_at pair r e = ground arith

module _ (answer : Request → Option Answer) (factory a b : Text) where
  -- The read of a pool at its derived address.
  check_pool-IsOwn :
      (pair : Text) {p : PoolState}
      → (check_pool pair (state_read (map answer (state_requests factory pair a b)))).pool ≡ some p
      → IsOwn answer p
        × (lower (
              get_or
                (as_address (answer (record { address = factory; reading = get_pair a b })))
                [])
            ≡ lower p.pair)
  check_pool-IsOwn pair e =
      let results = state_read (map answer (state_requests factory pair a b)) in
      let (here, r, t0, t1, supply) =
        pool_at_lem pair results (check_pool-pool_at pair results e) in
      let (_, registered, same, matches) = check_pool_lem pair results e in
      (
        record {
          reserves = rw here r;
          token0 = rw here t0;
          token1 = rw here t1;
          total_supply = rw here supply;
        },
        rw here same,
      )

module _ (v : Viem) (answer : Request → Option Answer) (read : Reader)
    (ordered : AnswersInOrder answer read) (factory wkash : Option Text)
    (token_a token_b : Option Token) where
  abbrev pub registered_at : Option Text
  registered_at = as_address (
      answer (record {
        address = get_or factory [];
        reading = get_pair (get_or (routed wkash token_a) []) (get_or (routed wkash token_b) []);
      }))

  abbrev batch : Text → Reader → Option PoolRead
  batch pair reader = option_map state_read (
      (reader (
        state_requests (get_or factory []) pair (get_or (routed wkash token_a) [])
          (get_or (routed wkash token_b) []))).results)

  at_derived :
      (derived : Option Text) {r : PoolResult} {p : PoolState}
      → derive v factory (routed wkash token_a) (routed wkash token_b) ≡ ok derived
      → use_pool_state v factory wkash token_a token_b
          (elim derived as (λ x. Option PoolRead) [ none ↦ none | some pair ↦ batch pair read ])
        ≡ ok r
      → r.pool ≡ some p
      → IsOwn answer p × (lower (get_or registered_at []) ≡ lower p.pair)
  unfolding use_pool_state
  at_derived none at rest found =
      let same = ok_injective _ _ (rw (use_pool_state, at) at rest) in cc
  at_derived (some pair) {r} {p} at rest found =
      let requests =
        state_requests (get_or factory []) pair (get_or (routed wkash token_a) [])
          (get_or (routed wkash token_b) []) in
      let same : check_pool pair (state_read (map answer requests)) ≡ r =
        ok_injective _ _ (rw (use_pool_state, at, ordered requests) at rest) in
      check_pool-IsOwn answer (get_or factory []) (get_or (routed wkash token_a) [])
        (get_or (routed wkash token_b) []) pair (ap (λ k. k.pool) same ∙ found)

  -- With the batch answered in the order of its requests, a pool that the hook reports stands at the address
  -- that the factory has registered for the two tokens, up to case, and carries the tokens, the reserves
  -- and the supply that the contract at that address answers.
  pub read_pool_state-IsOwn :
      {r : PoolResult} {p : PoolState}
      → read_pool_state v read factory wkash token_a token_b ≡ ok r
      → r.pool ≡ some p
      → IsOwn answer p × (lower (get_or registered_at []) ≡ lower p.pair)
  unfolding read_pool_state
  read_pool_state-IsOwn {r} {p} e found =
      let (derived, at, rest) =
        >>=-eq-ok (derive v factory (routed wkash token_a) (routed wkash token_b)) _ e in
      at_derived derived at rest found
