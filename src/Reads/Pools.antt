-- ===== src/Reads/Pools.antt =====
-- usePools, usePositions and useProtocolStats of apps/web/src/hooks on their batched reads.
use ark_swap.Prelude.{
  ℕ, Bool, ◌&&◌, ◌||◌, Option, none, some, List, [], Text, is_set, get_or, map, length, ltb,
  if◌then◌else◌,
}
use ark_swap.Tokens.{Token}
use ark_swap.PoolList.{PoolRow, Position, unknown_tokens, pool_rows, sorted_positions}
use ark_swap.Stats.{PoolSummary, Locked, summaries, totals}
use ark_swap.Reads.{
  Request, Answer, Query, Reader, read_if, flat_map, as_amount, pair_requests, pair_addresses,
  detail_requests, meta_requests, summary_requests, pair_reads, token_reads, summary_reads,
  balance_of,
}

-- `useReadContract` of `allPairsLength`: its result and whether it is still loading.
pub record PairCount : Type 0 where
  pub result : Option ℕ
  pub is_loading : Bool

module _ (read : Reader) (factory : Option Text) (counted : PairCount) where
  abbrev pub count : ℕ
  count = get_or counted.result 0

  abbrev pub address_query : Query
  address_query = read_if (ltb 0 count) read (pair_requests (get_or factory []) 0 count)

  abbrev pub listed_pairs : List Text
  listed_pairs = pair_addresses (get_or (address_query.results) [])

  -- `pairAddresses.flatMap(…)`, where there are addresses.
  abbrev pub detail_query : (Text → List Request) → Query
  detail_query requests =
      read_if (ltb 0 (length listed_pairs)) read (flat_map requests listed_pairs)

pub record PoolsResult : Type 0 where
  pub pools : List PoolRow
  pub pool_count : ℕ
  pub is_loading : Bool

-- The rows of what `details` returned, with one more read for the tokens that no list describes.
unfoldable pub decoded_pools : Reader → List Token → List Text → List (Option Answer) → List PoolRow
decoded_pools read tokens pairs details =
    let pair_data = pair_reads details 0 pairs in
    let unknown = unknown_tokens tokens pair_data [] in
    let metas = read_if (ltb 0 (length unknown)) read (flat_map meta_requests unknown) in
    pool_rows tokens unknown (token_reads (get_or (metas.results) []) 0 unknown) pair_data

unfoldable pub use_pools : Reader → Option Text → PairCount → List Token → PoolsResult
use_pools read factory counted tokens =
    let n = count read factory counted in
    let addresses = address_query read factory counted in
    let details = detail_query read factory counted detail_requests in
    record {
      pools = elim (details.results) [
        | none ↦ []
        | some results ↦ decoded_pools read tokens (listed_pairs read factory counted) results
      ];
      pool_count = n;
      is_loading = counted.is_loading || ltb 0 n && (addresses.is_loading || details.is_loading);
    }

pub record StatsResult : Type 0 where
  pub pools : List PoolSummary
  pub pool_count : ℕ
  pub locked : Locked
  pub token_count : ℕ

-- `listed` is `TOKEN_LIST`.
unfoldable pub use_protocol_stats :
    Reader → Option Text → Option Text → PairCount → List Token → StatsResult
use_protocol_stats read factory wkash counted listed =
    let details = detail_query read factory counted summary_requests in
    let pools : List PoolSummary = elim (details.results) [
      | none ↦ []
      | some results ↦
          summaries listed (summary_reads results 0 (listed_pairs read factory counted))
    ] in
    record {
      pools = pools;
      pool_count = count read factory counted;
      locked = totals wkash pools;
      token_count = length listed;
    }

abbrev pub balance_requests : Text → List PoolRow → List Request
balance_requests account rows =
    map (λ r. record { address = (r.priced).pair; reading = balance_of account }) rows

pub record PositionsResult : Type 0 where
  pub positions : List Position
  pub is_loading : Bool
  pub connected : Bool

unfoldable pub use_positions : Reader → Option Text → PoolsResult → PositionsResult
use_positions read account listed =
    let rows = listed.pools in
    let some_rows = ltb 0 (length rows) in
    let balances =
      read_if (is_set account && some_rows) read (balance_requests (get_or account []) rows) in
    record {
      positions =
          if is_set account
          then elim (balances.results) [
            | none ↦ []
            | some results ↦
                sorted_positions (map (λ r. r.priced) rows) rows (map as_amount results)
          ]
          else [];
      is_loading = is_set account && (listed.is_loading || some_rows && balances.is_loading);
      connected = is_set account;
    }
