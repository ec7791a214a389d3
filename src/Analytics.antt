-- ===== src/Analytics.antt =====
-- packages/sdk/analytics.ts: the client of the analytics API. `fetch` and the check of `new URL` are
-- parameters; `none` is the exception of `new URL`.
pub mod Types
pub mod Results
use ark_swap.Prelude.{
  ℕ, suc, ◌*◌, ◌/◌, Bool, true, false, not, ◌&&◌, Option, none, some, List, [], ◌∷◌, ◌++◌, Text,
  codes, is_empty, is_set, get_or, ltb, leb, ◌==◌, if◌then◌else◌, filter, option_map,
}
use ark_swap.Prelude.Int.{ℤ, pos, negsuc}
use ark_swap.Analytics.Types.{
  Pagination, Health, ProtocolStats, TokenSummary, PairSummary, PairDetail, SwapRecord,
  LiquidityEventRecord, ChartInterval, hourly, daily, ChartPoint, AccountPosition,
}

-- The texts of a failure; `returned` holds the status.
pub data Message : Type 0 where
  url_not_configured : Message
  returned : ℕ → Message
  from_api : Text → Message
  malformed_response : Message
  timed_out : Message
  api_unreachable : Message

pub data Reason : Type 0 where
  unconfigured : Reason
  unreachable : Reason
  error : Reason

pub data AnalyticsResult {ℓ} (T : Type ℓ) : Type ℓ where
  success : T → AnalyticsResult T
  failure : Reason → Message → AnalyticsResult T

abbrev pub page_limit_default : ℕ
page_limit_default = 50

abbrev pub page_limit_max : ℕ
page_limit_max = 100

-- A number: a finite one is `num / (den + 1)`.
pub data Number : Type 0 where
  not_finite : Number
  ratio : (num : ℤ) (den : ℕ) → Number

-- `limit < 1` holds of zero too.
unfoldable pub clamp_limit : Option Number → ℕ
clamp_limit none = page_limit_default
clamp_limit (some not_finite) = page_limit_default
clamp_limit (some (ratio (negsuc n) den)) = page_limit_default
clamp_limit (some (ratio (pos n) den)) =
    if ltb n (suc den)
    then page_limit_default
    else if leb (n / suc den) page_limit_max
    then n / suc den
    else page_limit_max

-- A query parameter: `none` is `undefined`.
pub data Param : Type 0 where
  number : ℕ → Param
  text : Text → Param

pub record Request : Type 0 where
  pub url : Text
  pub params : List (Text × Param)

-- The body of a response, as far as it is inspected: `res.json()` throws, is aborted, gives an object
-- with `data`, or anything else; the last two may hold `error.message`.
pub data Body {ℓ} (T : Type ℓ) : Type ℓ where
  not_json : Body T
  aborted_body : Body T
  envelope : (data_of : T) (error_message : Option Text) → Body T
  other : (error_message : Option Text) → Body T

pub data Fetched {ℓ} (T : Type ℓ) : Type ℓ where
  aborted : Fetched T
  failed : Fetched T
  responded : (is_ok : Bool) (status : ℕ) (body : Body T) → Fetched T

-- A set, non-empty message of the API replaces the status.
abbrev pub status_message : ℕ → Option Text → Message
status_message status m = if is_set m then from_api (get_or m []) else returned status

abbrev pub error_message_of {ℓ} : {T : Type ℓ} → ℕ → Body T → Message
error_message_of status not_json = returned status
error_message_of status aborted_body = returned status
error_message_of status (envelope d m) = status_message status m
error_message_of status (other m) = status_message status m

abbrev pub read_body {ℓ} : {T : Type ℓ} → Body T → AnalyticsResult T
read_body not_json = failure unreachable api_unreachable
read_body aborted_body = failure unreachable timed_out
read_body (envelope d m) = success d
read_body (other m) = failure error malformed_response

-- The `try` of `get`; the data of an envelope stands for the envelope, which `unwrapData` opens.
unfoldable pub read_response {ℓ} : {T : Type ℓ} → Fetched T → AnalyticsResult T
read_response aborted = failure unreachable timed_out
read_response failed = failure unreachable api_unreachable
read_response (responded true status body) = read_body body
read_response (responded false status body) = failure error (error_message_of status body)

-- `baseUrl?.replace(/\/$/, '')`.
unfoldable pub strip_slash : Text → Text
strip_slash [] = []
strip_slash (c ∷ []) = if c == b'/' then [] else c ∷ []
strip_slash (c ∷ d ∷ s) = c ∷ strip_slash (d ∷ s)

abbrev pub is_given : Text × Param → Bool
is_given (k, number n) = true
is_given (k, text t) = not (is_empty t)

module _ (base_url : Option Text) (is_url : Text → Bool) where
  abbrev pub base : Text
  base = strip_slash (get_or base_url [])

  unfoldable pub get :
      {T : Type 0} → (Request → Fetched T) → Text → List (Text × Param) → Option (AnalyticsResult T)
  get fetch path params =
      if is_empty base
      then some (failure unconfigured url_not_configured)
      else if not (is_url (base ++ path))
      then none
      else some
          (read_response (fetch (record { url = base ++ path; params = filter is_given params })))

  abbrev pub Pages : Type 0 → Type 0
  Pages T = Option (AnalyticsResult (List T × Pagination))

  -- A page of a list; the other parameters are those that are not `undefined`.
  abbrev pub page :
      {T : Type 0}
      → (Request → Fetched (List T × Pagination))
      → Text
      → Option Number
      → List (Text × Param)
      → Pages T
  page fetch path limit params =
      get fetch path ((codes "limit", number (clamp_limit limit)) ∷ params)

  abbrev pub health : (Request → Fetched Health) → Option (AnalyticsResult Health)
  health fetch = get fetch (codes "/health") []

  abbrev pub stats : (Request → Fetched ProtocolStats) → Option (AnalyticsResult ProtocolStats)
  stats fetch = get fetch (codes "/stats") []

  abbrev pub pairs :
      (Request → Fetched (List PairSummary × Pagination))
      → Option Number
      → List (Text × Param)
      → Pages PairSummary
  pairs fetch = page fetch (codes "/pairs")

  abbrev pub pair : (Request → Fetched PairDetail) → Text → Option (AnalyticsResult PairDetail)
  pair fetch address = get fetch (codes "/pairs/" ++ address) []

  abbrev pub pair_swaps :
      (Request → Fetched (List SwapRecord × Pagination))
      → Text
      → Option Number
      → List (Text × Param)
      → Pages SwapRecord
  pair_swaps fetch address = page fetch (codes "/pairs/" ++ address ++ codes "/swaps")

  abbrev pub pair_liquidity :
      (Request → Fetched (List LiquidityEventRecord × Pagination))
      → Text
      → Option Number
      → List (Text × Param)
      → Pages LiquidityEventRecord
  pair_liquidity fetch address = page fetch (codes "/pairs/" ++ address ++ codes "/liquidity")

  abbrev pub interval_text : ChartInterval → Text
  interval_text hourly = codes "1h"
  interval_text daily = codes "1d"

  abbrev pub pair_chart :
      (Request → Fetched (List ChartPoint))
      → Text
      → ChartInterval
      → Option (AnalyticsResult (List ChartPoint))
  pair_chart fetch address interval =
      get fetch (codes "/pairs/" ++ address ++ codes "/chart")
        ((codes "interval", text (interval_text interval)) ∷ [])

  abbrev pub token_page :
      (Request → Fetched (List TokenSummary × Pagination))
      → Option Number
      → List (Text × Param)
      → Pages TokenSummary
  token_page fetch = page fetch (codes "/tokens")

  abbrev pub token : (Request → Fetched TokenSummary) → Text → Option (AnalyticsResult TokenSummary)
  token fetch address = get fetch (codes "/tokens/" ++ address) []

  abbrev pub token_price :
      (Request → Fetched (Text × Option Text))
      → Text
      → Option (AnalyticsResult (Text × Option Text))
  token_price fetch address = get fetch (codes "/tokens/" ++ address ++ codes "/price") []

  abbrev pub account_positions :
      (Request → Fetched (List AccountPosition))
      → Text
      → Option (AnalyticsResult (List AccountPosition))
  account_positions fetch address =
      get fetch (codes "/accounts/" ++ address ++ codes "/positions") []

  abbrev pub account_swaps :
      (Request → Fetched (List SwapRecord × Pagination))
      → Text
      → Option Number
      → List (Text × Param)
      → Pages SwapRecord
  account_swaps fetch address = page fetch (codes "/accounts/" ++ address ++ codes "/swaps")
