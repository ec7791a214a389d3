-- ===== src/Trades.antt =====
-- apps/web/src/hooks/useRecentTrades.ts and apps/web/src/hooks/useAnalytics.ts: what the panels read through
-- the analytics client. The query library is left out; `none` is a rejected promise.
pub mod Recent
pub mod DeepestPair
use ark_swap.Prelude.{
  ℕ, suc, ◌*◌, Bool, true, false, not, ◌&&◌, ◌||◌, Option, none, some, List, [], ◌∷◌, ◌++◌, map,
  Text, codes, is_empty, is_set, ltb, ◌==◌, if◌then◌else◌, get_or, take, filter, filter_map, ◌>>=?◌,
}
use ark_swap.Prelude.Int.{ℤ, pos, negsuc, scale, ltb_ℤ}
use ark_swap.Prelude.Sorting.{sort}
use ark_swap.Analytics.{
  AnalyticsResult, success, failure, Request, Fetched, Number, not_finite, ratio, base, pairs,
  pair_swaps, pair_chart, stats,
}
use ark_swap.Analytics.Types.{
  Pagination, PairSummary, SwapRecord, ProtocolStats, ChartInterval, ChartPoint,
}

abbrev pub pools_sampled : ℕ
pools_sampled = 4

-- A limit that is a whole number.
abbrev pub limit_of : ℕ → Option Number
limit_of n = some (ratio (pos n) 0)

-- `Promise.all`.
abbrev pub sequence {ℓ} : {A : Type ℓ} → List (Option A) → Option (List A)
sequence [] = some []
sequence (a ∷ rest) = a >>=? λ x. sequence rest >>=? λ xs. some (x ∷ xs)

-- The loop that keeps the pages that came back.
unfoldable pub merged : List (AnalyticsResult (List SwapRecord × Pagination)) → List SwapRecord
merged [] = []
merged (success page ∷ pages) = page.0 ++ merged pages
merged (failure reason message ∷ pages) = merged pages

-- The comparison of the sort is negative.
unfoldable pub is_newer : SwapRecord → SwapRecord → Bool
is_newer a b =
    if not (a.timestamp == b.timestamp)
    then ltb b.timestamp a.timestamp
    else if not (a.block_number == b.block_number)
    then ltb b.block_number a.block_number
    else ltb b.log_index a.log_index

unfoldable pub newest : ℕ → List SwapRecord → List SwapRecord
unfolding is_newer
newest limit swaps = take limit (sort is_newer swaps)

-- `a < b`, of numbers; a text that is no number gives one that is not finite.
abbrev pub number_lt : Number → Number → Bool
number_lt (ratio a d) (ratio b e) = ltb_ℤ (scale a (suc e)) (scale b (suc d))
number_lt not_finite b = false
number_lt (ratio a d) not_finite = false

abbrev pub is_priced : PairSummary → Bool
is_priced p = elim p.tvl_usd [ none ↦ false | some t ↦ true ]

abbrev pub tvl_number : (Text → Number) → PairSummary → Number
tvl_number number_of p = number_of (get_or p.tvl_usd [])

-- The first of the priced pools, sorted by depth.
unfoldable pub deepest : (Text → Number) → List PairSummary → Option PairSummary
deepest number_of data_of =
    elim (sort (λ a b. number_lt (tvl_number number_of b) (tvl_number number_of a))
      (filter is_priced data_of)) [ [] ↦ none | best ∷ others ↦ some best ]

-- What the fetch of the swaps' pages returns, by the pool that is asked for.
module _ (base_url : Option Text) (is_url : Text → Bool) where
  -- `client.configured`.
  abbrev pub configured : Bool
  configured = not (is_empty (base base_url is_url))

  unfoldable pub recent_trades :
      (Request → Fetched (List PairSummary × Pagination))
      → (Request → Fetched (List SwapRecord × Pagination))
      → ℕ
      → Option (AnalyticsResult (List SwapRecord))
  unfolding merged newest
  recent_trades fetch_pairs fetch_swaps limit =
      pairs base_url is_url fetch_pairs (limit_of pools_sampled) [] >>=? λ r. elim r [
        | failure reason message ↦ some (failure reason message)
        | success data_of ↦
            sequence (
              map (λ pool. pair_swaps base_url is_url fetch_swaps pool.address (limit_of limit) [])
                (data_of.0))
            >>=? λ pages. some (success (newest limit (merged pages)))
      ]

  -- Whether the query of a pair's history runs.
  abbrev pub chart_enabled : Option Text → Bool
  chart_enabled address = configured && is_set address

  unfoldable pub deepest_pair :
      (Text → Number)
      → (Request → Fetched (List PairSummary × Pagination))
      → Option (AnalyticsResult (Option PairSummary))
  unfolding deepest
  deepest_pair number_of fetch_pairs = pairs base_url is_url fetch_pairs (limit_of 20) [] >>=? λ r.
      elim r [
        | failure reason message ↦ some (failure reason message)
        | success data_of ↦ some (success (deepest number_of (data_of.0)))
      ]
