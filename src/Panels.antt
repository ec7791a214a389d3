-- ===== src/Panels.antt =====
-- apps/web/src/components/PoolChart.tsx, what the panel of the deepest pool shows, and the list of
-- apps/web/src/components/ActivityMenu.tsx. Drawing is left out.
pub mod Shown
use ark_swap.Prelude.{
  ℕ, ◌<◌, Bool, true, false, not, ◌&&◌, ◌||◌, Option, none, some, List, [], ◌∷◌, Text, is_set, leb,
  if◌then◌else◌, filter, any, take, length, get_or,
}
use ark_swap.Analytics.{AnalyticsResult, success, failure}
use ark_swap.Analytics.Types.{PairSummary, ChartPoint, ChartInterval, hourly}
use ark_swap.Activity.{
  ActivityItem, ActivityStatus, pending, confirmed, failed, is_pending, is_stale,
}

-- What the two queries hold, `none` while there is no data.
pub record ChartInput : Type 0 where
  pub pair_result : Option (AnalyticsResult (Option PairSummary))
  pub chart : Option (AnalyticsResult (List ChartPoint))
  pub is_loading : Bool

-- The interval that the panel starts with.
abbrev pub initial_interval : ChartInterval
initial_interval = hourly

abbrev pub data_of {ℓ} : {A : Type ℓ} → Option (AnalyticsResult A) → Option A
data_of none = none
data_of (some (success a)) = some a
data_of (some (failure reason message)) = none

abbrev pub is_failure {ℓ} : {A : Type ℓ} → Option (AnalyticsResult A) → Bool
is_failure none = false
is_failure (some (success a)) = false
is_failure (some (failure reason message)) = true

abbrev pub has_tvl : ChartPoint → Bool
has_tvl p = elim p.tvl_usd [ none ↦ false | some t ↦ true ]

module _ (i : ChartInput) where
  abbrev pub pair : Option PairSummary
  pair = get_or (data_of i.pair_result) none

  abbrev pub unavailable : Bool
  unavailable = is_failure i.pair_result || is_failure i.chart

  -- `priced`.
  unfoldable pub priced : List ChartPoint
  priced = filter has_tvl (get_or (data_of i.chart) [])

  abbrev pub enough_history : Bool
  enough_history = leb 2 (length priced)

  abbrev pub is_some_pair : Option PairSummary → Bool
  is_some_pair none = false
  is_some_pair (some p) = true

-- What the panel shows; `line` has the points that it draws.
pub record ChartView : Type 0 where
  pub warning : Bool
  pub loading : Bool
  pub not_enough : Bool
  pub line : Option (List ChartPoint)

-- `none` where there is no panel.
unfoldable pub chart_view : ChartInput → Option ChartView
unfolding priced
chart_view i =
    if not i.is_loading && not (unavailable i) && not (is_some_pair i (pair i))
    then none
    else some (record {
      warning = unavailable i;
      loading = not (unavailable i) && i.is_loading;
      not_enough = not (unavailable i) && not i.is_loading && not (enough_history i);
      line = if enough_history i then some (priced i) else none;
    })

-- The list of transactions in the menu.
pub record ActivityList : Type 0 where
  pub shown : List ActivityItem
  pub empty_note : Bool
  pub pending_note : Bool
  pub clear_button : Bool

abbrev pub is_clearable : ℕ → ActivityItem → Bool
is_clearable now i = not (is_pending i) || is_stale now i

unfoldable pub activity_list : ℕ → List ActivityItem → ActivityList
activity_list now items = record {
  shown = take 20 items;
  empty_note = leb (length items) 0;
  pending_note = any (λ i. is_pending i && not (is_stale now i)) items;
  clear_button = any (is_clearable now) items;
}

pub data RowStatus : Type 0 where
  not_found_on_chain : RowStatus
  pending_row : RowStatus
  confirmed_row : RowStatus
  failed_row : RowStatus

unfoldable pub row_status : ℕ → ActivityItem → RowStatus
row_status now i =
    if is_stale now i
    then not_found_on_chain
    else elim i.status [ pending ↦ pending_row | confirmed ↦ confirmed_row | failed ↦ failed_row ]
