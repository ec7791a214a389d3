-- ===== src/Tests/Trades.antt =====
-- A server with two pools and two swaps, and the chart's pool.
use ark_swap.Prelude.{
  ℕ, ◌-◌, ◌≡◌, refl, true, false, Bool, some, none, Option, List, [], ◌∷◌, map, Text, codes,
}
use ark_swap.Prelude.Int.{pos}
use ark_swap.Prelude.Sorting.{sort}
use ark_swap.Analytics.{
  AnalyticsResult, success, Request, Fetched, responded, envelope, Number, ratio, not_finite, pairs,
  pair_swaps, get, strip_slash, read_response, clamp_limit,
}
use ark_swap.Analytics.Types.{Pagination, TokenSummary, PairSummary, SwapRecord}
use ark_swap.Trades.{
  limit_of, pools_sampled, sequence, merged, newest, is_newer, recent_trades, deepest,
}
use ark_swap.Trades.Recent.{AreNewest, all_trades, recent_trades-AreNewest}

abbrev token : TokenSummary
token = record {
  address = codes "0x1";
  symbol = none;
  name = none;
  decimals = none;
  metadata_complete = false;
  is_whitelisted = false;
  is_stable = false;
  is_wkash = false;
  price_usd = none;
}

abbrev pool_of : Text → Option Text → PairSummary
pool_of address tvl = record {
  address = address;
  token0 = token;
  token1 = token;
  reserve0 = codes "1";
  reserve1 = codes "1";
  total_supply = codes "1";
  tvl_usd = tvl;
  volume_24h_usd = codes "0";
  fees_24h_usd = codes "0";
  tx_count_24h = 0;
}

abbrev swap_at : ℕ → SwapRecord
swap_at time = record {
  tx_hash = codes "0x2";
  log_index = 0;
  block_number = 1;
  timestamp = time;
  pair_address = codes "0x3";
  sender = codes "0x4";
  recipient = codes "0x4";
  token_in = none;
  token_out = none;
  token_in_symbol = none;
  token_out_symbol = none;
  amount_in = none;
  amount_out = none;
  amount_usd = none;
}

abbrev pools : List PairSummary
pools =
    pool_of (codes "a") (some (codes "5"))
    ∷ pool_of (codes "b") none
    ∷ pool_of (codes "c") (some (codes "7"))
    ∷ []

abbrev page : Pagination
page = record { limit = 4; offset = 0; total = 3 }

abbrev pool_server : Request → Fetched (List PairSummary × Pagination)
pool_server r = responded true 200 (envelope (pools, page) none)

abbrev swap_server : Request → Fetched (List SwapRecord × Pagination)
swap_server r = responded true 200 (envelope (swap_at 10 ∷ swap_at 20 ∷ [], page) none)

abbrev base_url : Option Text
base_url = some (codes "http://a")

abbrev is_url : Text → Bool
is_url t = true

recent_trades-AreNewest_example :
    (data_of : List PairSummary × Pagination) × (pages : List
      (AnalyticsResult (List SwapRecord × Pagination)))
    × (pairs base_url is_url pool_server (limit_of pools_sampled) [] ≡ some (success data_of))
    × (sequence (
          map
            (λ pool. pair_swaps base_url is_url swap_server pool.address (limit_of 2) [])
            (data_of.0))
        ≡ some pages)
    × AreNewest 2 (all_trades pages) (swap_at 20 ∷ swap_at 20 ∷ [])
unfolding recent_trades get strip_slash read_response clamp_limit merged newest is_newer sort
recent_trades-AreNewest_example =
    recent_trades-AreNewest base_url is_url pool_server swap_server 2 refl

abbrev digit_number : Text → Number
digit_number (c ∷ []) = ratio (pos (c - b'0')) 0
digit_number [] = not_finite
digit_number (c ∷ d ∷ s) = not_finite

abbrev units : PairSummary → ℕ
units p = elim p.tvl_usd [ none ↦ 0 | some t ↦ elim t [ [] ↦ 0 | c ∷ s ↦ c - b'0' ] ]

deepest_runs : deepest digit_number pools ≡ some (pool_of (codes "c") (some (codes "7")))
unfolding deepest sort
deepest_runs = refl
