-- ===== src/Reads.antt =====
-- The batched contract reads of apps/web/src/hooks: the requests that usePools.ts, usePositions.ts,
-- useProtocolStats.ts, usePoolState.ts and useSwapRoute.ts put into one call, and the positions at which
-- they look for the answers. The query library is an argument: what it returns for a list of requests.
pub mod Decoded
pub mod Pools
pub mod Ordered
pub mod Unknown
pub mod Rows
pub mod Totals
pub mod State
pub mod Hops
pub mod Coverage
pub mod Route
pub mod Encoded
pub mod Fits
use ark_swap.Prelude.{
  ℕ, zero, suc, ◌+◌, ◌*◌, Bool, false, Option, none, some, List, [], ◌∷◌, ◌++◌, Text, is_empty,
  is_set, get_or, get_elem?, map, if◌then◌else◌, ◌>>=?◌,
}
use ark_swap.PoolList.{PairRead, TokenRead}
use ark_swap.Stats.{SummaryRead}
use ark_swap.Pools.{PoolRead}

-- `functionName` and `args`.
pub data Reading : Type 0 where
  all_pairs_length : Reading
  all_pairs : ℕ → Reading
  get_pair : Text → Text → Reading
  token0 : Reading
  token1 : Reading
  get_reserves : Reading
  total_supply : Reading
  balance_of : Text → Reading
  symbol : Reading
  decimals : Reading
  name : Reading

pub record Request : Type 0 where
  pub address : Text
  pub reading : Reading

-- What a read returns: an address, an integer, a string, or the reserves with their time stamp.
pub data Answer : Type 0 where
  address : Text → Answer
  amount : ℕ → Answer
  text : Text → Answer
  reserves : ℕ → ℕ → ℕ → Answer

-- `data`, called `results` here, and `isLoading`; with `allowFailure` each result stands for itself, a failed one as `none`.
pub record Query : Type 0 where
  pub results : Option (List (Option Answer))
  pub is_loading : Bool

abbrev pub Reader : Type 0
Reader = List Request → Query

abbrev pub disabled : Query
disabled = record { results = none; is_loading = false }

-- `useReadContracts` with `query.enabled`.
abbrev pub read_if : Bool → Reader → Reader
read_if enabled read requests = if enabled then read requests else disabled

abbrev pub flat_map {ℓ κ} : {A : Type ℓ} {B : Type κ} → (A → List B) → List A → List B
flat_map f [] = []
flat_map f (x ∷ xs) = f x ++ flat_map f xs

-- The casts of `result`; the query library answers with the type of the ABI.
abbrev pub as_address : Option Answer → Option Text
as_address (some (Answer.address a)) = some a
as_address _ = none

abbrev pub as_amount : Option Answer → Option ℕ
as_amount (some (amount n)) = some n
as_amount _ = none

abbrev pub as_text : Option Answer → Option Text
as_text (some (text t)) = some t
as_text _ = none

abbrev pub as_reserves : Option Answer → Option (ℕ × ℕ)
as_reserves (some (reserves r0 r1 at)) = some (r0, r1)
as_reserves _ = none

-- `data[i]?.result`.
abbrev pub result_at : List (Option Answer) → ℕ → Option Answer
result_at results i = get_elem? results i >>=? λ r. r

-- `Array.from({length: count}, (_, i) => …)`: the numbers from `i` on.
abbrev pub pair_requests : Text → ℕ → ℕ → List Request
pair_requests factory i zero = []
pair_requests factory i (suc count) =
    record { address = factory; reading = all_pairs i } ∷ pair_requests factory (suc i) count

-- `.map((r) => r.result).filter(Boolean)`.
unfoldable pub pair_addresses : List (Option Answer) → List Text
pair_addresses [] = []
pair_addresses (r ∷ rs) = elim (as_address r) [
  | none ↦ pair_addresses rs
  | some a ↦ if is_empty a then pair_addresses rs else a ∷ pair_addresses rs
]

abbrev pub detail_requests : Text → List Request
detail_requests p =
    record { address = p; reading = token0 }
    ∷ record { address = p; reading = token1 }
    ∷ record { address = p; reading = get_reserves }
    ∷ record { address = p; reading = total_supply }
    ∷ []

abbrev pub meta_requests : Text → List Request
meta_requests a =
    record { address = a; reading = symbol }
    ∷ record { address = a; reading = decimals }
    ∷ record { address = a; reading = name }
    ∷ []

-- `pairAddresses.forEach((pair, i) => …)` of usePools.
unfoldable pub pair_reads : List (Option Answer) → ℕ → List Text → List PairRead
pair_reads details i [] = []
pair_reads details i (p ∷ ps) =
    record {
      pair = p;
      token0 = as_address (result_at details (i * 4));
      token1 = as_address (result_at details (i * 4 + 1));
      reserves = as_reserves (result_at details (i * 4 + 2));
      total_supply = as_amount (result_at details (i * 4 + 3));
    }
    ∷ pair_reads details (suc i) ps

-- `meta?.[i * 3]` and its neighbours, for each of the unknown tokens from `i` on.
unfoldable pub token_reads : List (Option Answer) → ℕ → List Text → List TokenRead
token_reads metas i [] = []
token_reads metas i (u ∷ us) =
    record {
      symbol = as_text (result_at metas (i * 3));
      decimals = as_amount (result_at metas (i * 3 + 1));
      name = as_text (result_at metas (i * 3 + 2));
    }
    ∷ token_reads metas (suc i) us

-- The three reads of a pair in useProtocolStats.
abbrev pub summary_requests : Text → List Request
summary_requests p =
    record { address = p; reading = token0 }
    ∷ record { address = p; reading = token1 }
    ∷ record { address = p; reading = get_reserves }
    ∷ []

unfoldable pub summary_reads : List (Option Answer) → ℕ → List Text → List SummaryRead
summary_reads details i [] = []
summary_reads details i (p ∷ ps) =
    record {
      pair = p;
      token0 = as_address (result_at details (i * 3));
      token1 = as_address (result_at details (i * 3 + 1));
      reserves = as_reserves (result_at details (i * 3 + 2));
    }
    ∷ summary_reads details (suc i) ps

-- The two reads of a pair in useSwapRoute.
abbrev pub route_requests : Text → List Request
route_requests p =
    record { address = p; reading = get_reserves } ∷ record { address = p; reading = token0 } ∷ []

unfoldable pub route_reads :
    List (Option Answer) → ℕ → List Text → List (Option (ℕ × ℕ) × Option Text)
route_reads results i [] = []
route_reads results i (p ∷ ps) =
    (as_reserves (result_at results (i * 2)), as_address (result_at results (i * 2 + 1)))
    ∷ route_reads results (suc i) ps

-- The five reads of usePoolState, where it is enabled.
abbrev pub state_requests : Text → Text → Text → Text → List Request
state_requests factory derived a b =
    record { address = factory; reading = get_pair a b }
    ∷ record { address = derived; reading = get_reserves }
    ∷ record { address = derived; reading = token0 }
    ∷ record { address = derived; reading = token1 }
    ∷ record { address = derived; reading = total_supply }
    ∷ []

abbrev pub state_read : List (Option Answer) → PoolRead
state_read results = record {
  registered = as_address (result_at results 0);
  reserves = as_reserves (result_at results 1);
  token0 = as_address (result_at results 2);
  token1 = as_address (result_at results 3);
  total_supply = as_amount (result_at results 4);
}
