-- ===== src/Tests/Reads.antt =====
-- Batched reads of a factory with one pair of WKASH and of a token that no list describes.
use ark_swap.Prelude.{
  ◌≡◌, refl, sym, ◌∙◌, subst, arith, true, false, Option, none, some, List, [], ◌∷◌, map, Text,
  codes, text_eq, text_lt, lower, All, ok,
}
use mathlib.Core.List.{flatten}
use mathlib.Core.Option.{some-injective}
use ark_swap.Tokens.{kash, routed_address, is_hex_address}
use ark_swap.PairAddress.{compute_pair_address, sort_tokens, create2_address, checked}
use ark_swap.Pools.{PoolState, PoolResult, derive, is_enabled, use_pool_state, check_pool}
use ark_swap.Stats.Totals.{sum_kash, sum_stables}
use ark_swap.Route.{
  exact_in, Candidate, candidates, usable_hubs, other_hubs, addressed_hubs, through_pairs,
}
use ark_swap.Route.Quoting.{
  Pools, oriented, get_pool, read_pools, leg, step_in, walk_in, quote_exact_in,
}
use ark_swap.Route.Search.{
  input_candidates, input_pools, pair_keys, path_keys, search_route, use_swap_route, best_from,
  evaluate, hops_of, hops_from, quote_hops, quote_side,
}
use ark_swap.Route.Optimal.{IsBest, IsRouteFrom}
use ark_swap.Reads.{
  Request, Reading, Answer, Reader, address, amount, text, reserves, as_address, all_pairs_length,
  all_pairs, get_pair, token0, token1, get_reserves, total_supply, balance_of, symbol, decimals,
  name, pair_addresses, route_reads,
}
use ark_swap.Reads.Pools.{PairCount, use_pools, use_protocol_stats}
use ark_swap.Reads.Rows.{SpellsAlike, own_rows, use_pools-own}
use ark_swap.Reads.Totals.{own_summaries, use_protocol_stats-own}
use ark_swap.Reads.State.{IsOwn, read_pool_state, read_pool_state-IsOwn}
use ark_swap.Reads.Coverage.{AllHops}
use ark_swap.Reads.Hops.{own_pool, read_swap_route, route_keys}
use ark_swap.Reads.Route.{read_swap_route_optimal}
use ark_swap.Amm.{get_amount_out}
use ark_swap.Tests.Amm.{plain_viem, wkash, factory}
use ark_swap.Tests.Tokens.{usdc_token}
use ark_swap.Tests.Route.{input, found, pair_key}

abbrev low_wkash : Text
low_wkash = codes "0x6792d2fd02d8a55c543f627d0e90526f9278c6d6"

abbrev other : Text
other = codes "0x0000000000000000000000000000000000000abc"

abbrev answer_of : Reading → Option Answer
answer_of all_pairs_length = some (amount 1)
answer_of (all_pairs i) = some (address pair_key)
answer_of (get_pair a b) = some (address pair_key)
answer_of token0 = some (address low_wkash)
answer_of token1 = some (address other)
answer_of get_reserves = some (reserves 1_000_000 2_000_000 0)
answer_of total_supply = some (amount 500)
answer_of (balance_of a) = some (amount 5)
answer_of symbol = some (text (codes "OTH"))
answer_of decimals = some (amount 8)
answer_of name = none

abbrev answer : Request → Option Answer
answer r = answer_of r.reading

abbrev read : Reader
read requests = record { results = some (map answer requests); is_loading = false }

abbrev counted : PairCount
counted = record { result = some 1; is_loading = false }

small : (reading : Reading) (a : Text) → as_address (answer_of reading) ≡ some a → lower a ≡ a
unfolding lower
small all_pairs_length a e = cc
small (all_pairs i) a e = subst (λ t. lower t ≡ t) (some-injective _ _ e) refl
small (get_pair b c) a e = subst (λ t. lower t ≡ t) (some-injective _ _ e) refl
small token0 a e = subst (λ t. lower t ≡ t) (some-injective _ _ e) refl
small token1 a e = subst (λ t. lower t ≡ t) (some-injective _ _ e) refl
small get_reserves a e = cc
small total_supply a e = cc
small (balance_of b) a e = cc
small symbol a e = cc
small decimals a e = cc
small name a e = cc

answer-SpellsAlike : SpellsAlike answer
answer-SpellsAlike a b (r, is_a) (s, is_b) same =
    sym (small r.reading a is_a) ∙ same ∙ small s.reading b is_b

use_pools-own_example :
    (use_pools read (some factory) counted (usdc_token ∷ [])).pools
    ≡ own_rows answer (usdc_token ∷ []) (pair_key ∷ [])
unfolding pair_addresses
use_pools-own_example =
    use_pools-own answer read (λ requests. refl) answer-SpellsAlike (some factory) counted
      (usdc_token ∷ [])

use_protocol_stats-own_example :
    let s = use_protocol_stats read (some factory) (some wkash) counted (usdc_token ∷ []) in
    let own = own_summaries answer (usdc_token ∷ []) (pair_key ∷ []) in
    (s.pools ≡ own)
    × ((s.locked).kash_locked ≡ sum_kash (some wkash) own)
    × ((s.locked).stables_locked ≡ sum_stables (some wkash) own)
unfolding pair_addresses
use_protocol_stats-own_example =
    use_protocol_stats-own answer read (λ requests. refl) (usdc_token ∷ []) (some factory)
      (some wkash) counted

abbrev state : PoolState
state = record {
  pair = pair_key;
  token0 = low_wkash;
  token1 = other;
  reserve0 = 1_000_000;
  reserve1 = 2_000_000;
  total_supply = 500;
  exists = true;
}

abbrev shown : PoolResult
shown = record { pool = some state; derived = some pair_key; derivation_mismatch = false }

read_pool_state-IsOwn_example : IsOwn answer state × (lower pair_key ≡ lower pair_key)
unfolding read_pool_state derive is_enabled use_pool_state check_pool compute_pair_address
    sort_tokens checked create2_address is_hex_address text_eq text_lt lower routed_address flatten
read_pool_state-IsOwn_example =
    read_pool_state-IsOwn plain_viem answer read (λ requests. refl) (some factory) (some wkash)
      (some kash) (some usdc_token) {r = shown} {p = state} refl refl

read_swap_route_optimal_example :
    (cs : List Candidate) × (pools : Pools) × (input_candidates input ≡ ok cs)
    × All (λ c. AllHops plain_viem factory (λ k. get_pool k pools ≡ own_pool answer k) c.path) cs
    × All (IsBest plain_viem factory pools exact_in 1000 found.route) cs
    × IsRouteFrom plain_viem factory pools exact_in 1000 found.route cs
unfolding read_swap_route route_keys input_candidates usable_hubs other_hubs addressed_hubs
    candidates through_pairs routed_address text_eq lower input_pools pair_keys path_keys
    compute_pair_address sort_tokens checked create2_address read_pools use_swap_route search_route
    best_from evaluate hops_of hops_from quote_hops quote_side quote_exact_in walk_in step_in leg
    get_pool oriented get_amount_out is_hex_address text_lt flatten route_reads
read_swap_route_optimal_example =
    read_swap_route_optimal plain_viem answer read (λ requests. refl) input factory 1000
      {out = found} refl refl refl (omega arith) refl
