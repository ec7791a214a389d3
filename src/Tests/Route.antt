-- ===== src/Tests/Route.antt =====
-- The route search on one pool of WKASH and mUSDC, without hubs.
use ark_swap.Prelude.{
  ℕ, ◌-◌, ◌*◌, ◌/◌, ◌≤◌, ◌<◌, ◌≡◌, refl, false, some, List, [], ◌∷◌, arith, Text, codes, text_eq,
  text_lt, lower, All, ok,
}
use mathlib.Core.List.{flatten}
use ark_swap.Tokens.{kash, routed_address, is_hex_address}
use ark_swap.Amm.{get_amount_out, get_amount_in}
use ark_swap.PairAddress.{compute_pair_address, sort_tokens, create2_address, checked}
use ark_swap.Route.{
  exact_in, Candidate, direct, usable_hubs, other_hubs, addressed_hubs, candidates, through_pairs,
}
use ark_swap.Route.Quoting.{
  Hop, Pools, oriented, get_pool, read_pools, leg, step_in, step_out, walk_in, walk_out, Walk,
  start, Quote, quote_exact_in, quote_exact_out,
}
use ark_swap.Route.Quoting.RoundTrip.{quote_exact_in-quote_exact_out}
use ark_swap.Route.Quoting.Bounds.{quote_exact_in_bounds}
use ark_swap.Route.Search.{
  RouteInput, RouteResult, ends_of, input_candidates, input_pools, pair_keys, path_keys,
  search_route, use_swap_route, best_from, evaluate, hops_of, hops_from, quote_hops, quote_side,
}
use ark_swap.Route.Candidates.{IsPath, input_candidates-IsPath}
use ark_swap.Route.Optimal.{IsBest, IsRouteFrom, use_swap_route_optimal}
use ark_swap.Tests.Amm.{plain_viem, usdc, wkash, factory}
use ark_swap.Tests.Tokens.{usdc_token}

abbrev pub input : RouteInput
input = record {
  factory = some factory;
  wkash = some wkash;
  hubs = [];
  token_in = kash;
  token_out = usdc_token;
  amount = some 1000;
  side = exact_in;
  results = some ((some (1_000_000, 2_000_000), some wkash) ∷ []);
  is_loading = false;
}

abbrev pub pair_key : Text
pair_key = codes "0x138c0c5290a90de3583c2a126a9e19b519432e74"

abbrev pub pools : Pools
pools = (pair_key, record { token0 = wkash; reserve0 = 1_000_000; reserve1 = 2_000_000 }) ∷ []

abbrev hop : Hop
hop = record { pair = pair_key; token_in = wkash; token_out = usdc }

abbrev pub found : RouteResult
found = record {
  route = some (record {
    path = wkash ∷ usdc ∷ [];
    symbols = codes "KASH" ∷ codes "mUSDC" ∷ [];
    amount_in = 1000;
    amount_out = 1992;
    impact_bps = 40;
  });
  no_liquidity = false;
}

quote_exact_in-quote_exact_out_example :
    (p : Quote) × (quote_exact_in (hop ∷ []) pools 251 ≡ ok (some p))
    × (◌≡◌ {A = ℕ} 500 500)
    × (500 ≤ p.amount_out)
unfolding quote_exact_out walk_out step_out leg get_pool oriented get_amount_in text_eq lower
quote_exact_in-quote_exact_out_example =
    quote_exact_in-quote_exact_out (hop ∷ []) pools 500 (omega arith) refl

quote_exact_in_bounds_example :
    (w : Walk) × (walk_in pools (start 1000) (hop ∷ []) ≡ ok w)
    × (◌≡◌ {A = ℕ} 1000 1000)
    × (0 < 1992)
    × (1992 ≤ w.ideal_num / w.ideal_den)
    × (40 ≡ (w.ideal_num / w.ideal_den - 1992) * 10_000 / (w.ideal_num / w.ideal_den))
    × (40 ≤ 10_000)
unfolding quote_exact_in walk_in step_in leg get_pool oriented get_amount_out text_eq lower
quote_exact_in_bounds_example = quote_exact_in_bounds (hop ∷ []) pools 1000 refl

input_candidates-IsPath_example : All (IsPath (ends_of input)) (direct (ends_of input) ∷ [])
unfolding input_candidates usable_hubs other_hubs addressed_hubs candidates through_pairs
    routed_address text_eq lower
input_candidates-IsPath_example = input_candidates-IsPath input refl

abbrev pub paths : List Candidate
paths = direct (ends_of input) ∷ []

use_swap_route_optimal_example :
    All (IsBest plain_viem factory pools exact_in 1000 found.route) paths
    × IsRouteFrom plain_viem factory pools exact_in 1000 found.route paths
unfolding input_candidates usable_hubs other_hubs addressed_hubs candidates through_pairs
    routed_address text_eq lower input_pools pair_keys path_keys compute_pair_address sort_tokens
    checked create2_address read_pools use_swap_route search_route best_from evaluate hops_of
    hops_from quote_hops quote_side quote_exact_in walk_in step_in leg get_pool oriented
    get_amount_out is_hex_address text_lt flatten
use_swap_route_optimal_example =
    use_swap_route_optimal plain_viem input factory 1000 paths pools {out = found} refl refl refl
      (omega arith) refl refl refl
