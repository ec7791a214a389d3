-- ===== src/PoolTable.antt =====
-- apps/web/src/components/PoolsTable.tsx: the rows of the table of pools, what the API and the wallet add to
-- them, and their links into the forms. `sort` compares two rows that are worth the same as if either
-- came first; here the later of them does.
pub mod Rows
pub mod Links
use ark_swap.Prelude.{
  ℕ, ◌+◌, Bool, true, false, not, ◌&&◌, ◌||◌, Option, none, some, List, [], ◌∷◌, Text, text_eq,
  lower, trim, is_empty, is_set, get_or, ltb, if◌then◌else◌, filter, length, ◌==◌,
}
use ark_swap.Prelude.Sorting.{sort}
use ark_swap.Prelude.Search.{includes, map_get, map_set}
use ark_swap.Tokens.{kash, token_param}
use ark_swap.Valuation.{PoolToken, PricedPool}
use ark_swap.PoolList.{PoolRow, Position}
use ark_swap.Analytics.{AnalyticsResult, success, failure}
use ark_swap.Analytics.Types.{Pagination, PairSummary}
use ark_swap.Url.{in_key, out_key, a_key, b_key, mode_key, mode_text, add}
use ark_swap.Url.Params.{Query}

abbrev pub PairPage : Type 0
PairPage = AnalyticsResult (List PairSummary × Pagination)

abbrev note_pairs : List PairSummary → List (Text × PairSummary) → List (Text × PairSummary)
note_pairs [] m = m
note_pairs (p ∷ ps) m = note_pairs ps (map_set (lower p.address) p m)

-- `byAddress`.
unfoldable pub by_address : Option PairPage → List (Text × PairSummary)
by_address none = []
by_address (some (failure reason message)) = []
by_address (some (success page)) = note_pairs (page.0) []

abbrev note_shares : List Position → List (Text × ℕ) → List (Text × ℕ)
note_shares [] m = m
note_shares (p ∷ ps) m = note_shares ps (map_set (lower ((p.row).priced).pair) p.share_bps m)

-- `shareOf`.
unfoldable pub share_of : List Position → List (Text × ℕ)
share_of positions = note_shares positions []

-- The texts are folded as ASCII ones.
abbrev pub matches : Text → PoolRow → Bool
matches q p =
    includes (lower ((p.priced).token0).symbol) q
    || includes (lower ((p.priced).token1).symbol) q
    || includes (lower (p.priced).pair) q

abbrev pub filtered : Text → List PoolRow → List PoolRow
filtered query pools =
    let q = lower (trim query) in if is_empty q then pools else filter (matches q) pools

-- `(b ?? -1n) > (a ?? -1n)`.
abbrev pub is_worth_more : Option ℕ → Option ℕ → Bool
is_worth_more none a = false
is_worth_more (some b) none = true
is_worth_more (some b) (some a) = ltb a b

-- `rows`.
unfoldable pub rows : Text → List PoolRow → List PoolRow
rows query pools = sort (λ a b. not (is_worth_more b.tvl a.tvl)) (filtered query pools)

abbrev pub add_tvl : Option ℕ → PoolRow → Option ℕ
add_tvl acc p = elim p.tvl [ none ↦ acc | some v ↦ some (get_or acc 0 + v) ]

abbrev pub total_from : Option ℕ → List PoolRow → Option ℕ
total_from acc [] = acc
total_from acc (p ∷ ps) = total_from (add_tvl acc p) ps

-- `totalTvl`.
unfoldable pub total_tvl : List PoolRow → Option ℕ
total_tvl pools = total_from none pools

-- `unavailable`.
abbrev pub unavailable : Bool → Option PairPage → Bool
unavailable configured none = false
unavailable configured (some (success page)) = false
unavailable configured (some (failure reason message)) = configured

-- What stands in the table in place of rows, when it is empty.
pub data EmptyTable : Type 0 where
  no_pools_created : EmptyTable
  no_pool_matches : EmptyTable

abbrev pub empty_table : Bool → List PoolRow → List PoolRow → Option EmptyTable
empty_table is_loading shown pools =
    if not is_loading && length shown == 0
    then some (if length pools == 0 then no_pools_created else no_pool_matches)
    else none

-- The row of a pool, with what is known of it elsewhere.
pub record PoolLine : Type 0 where
  pub pool : PoolRow
  pub analytics : Option PairSummary
  pub share : Option ℕ

abbrev pub line_of : Option PairPage → List Position → PoolRow → PoolLine
line_of page positions p = record {
  pool = p;
  analytics = map_get (lower (p.priced).pair) (by_address page);
  share = map_get (lower (p.priced).pair) (share_of positions);
}

-- `wkash` is `WKASH_ADDRESS`.
abbrev pub is_wkash_side : Option Text → PoolToken → Bool
is_wkash_side wkash t = is_set wkash && text_eq (lower t.address) (lower (get_or wkash []))

unfoldable pub link_param : Option Text → PoolToken → Text
link_param wkash t =
    if is_wkash_side wkash t then token_param kash else if t.known then t.symbol else t.address

-- The parameters of the two links, as the form's page reads them.
unfoldable pub swap_link : Option Text → PricedPool → Query
swap_link wkash p = (in_key, link_param wkash p.token0) ∷ (out_key, link_param wkash p.token1) ∷ []

unfoldable pub add_link : Option Text → PricedPool → Query
add_link wkash p =
    (a_key, link_param wkash p.token0)
    ∷ (b_key, link_param wkash p.token1)
    ∷ (mode_key, mode_text add)
    ∷ []

-- Whether the badge of an unreviewed token is shown.
abbrev pub is_unverified : PricedPool → Bool
is_unverified p = not (p.token0).known || not (p.token1).known
