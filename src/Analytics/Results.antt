-- ===== src/Analytics/Results.antt =====
-- When the analytics client of packages/sdk/analytics.ts returns data, and how much it asks for.
use ark_swap.Prelude.{
  ℕ, suc, ◌/◌, ◌≤◌, ◌≡◌, Bool, true, false, not, Option, none, some, List, ◌++◌, Text, arith,
  is_empty, ltb, leb, filter, Bool-cases, inl, inr,
}
use mathlib.Core.Option.{some-injective}
use ark_swap.Prelude.Int.{pos, negsuc}
use ark_swap.Amm.Bounds.{le_div}
use ark_swap.Analytics.{
  Number, not_finite, ratio, clamp_limit, Param, Request, not_json, aborted_body, envelope, other,
  Fetched, aborted, failed, responded, AnalyticsResult, success, failure, Reason, Message,
  read_response, base, is_given, get,
}

-- Whatever limit is asked for, a page of 1 to 100 entries is requested.
pub clamp_limit_bounds :
    (limit : Option Number) → (1 ≤ clamp_limit limit) × (clamp_limit limit ≤ 100)
unfolding clamp_limit
clamp_limit_bounds none = (omega arith, omega arith)
clamp_limit_bounds (some not_finite) = (omega arith, omega arith)
clamp_limit_bounds (some (ratio (negsuc n) den)) = (omega arith, omega arith)
clamp_limit_bounds (some (ratio (pos n) den)) = elim (Bool-cases (ltb n (suc den))) [
  | inl small ↦ rw small (omega arith, omega arith)
  | inr large ↦ elim (Bool-cases (leb (n / suc den) 100)) [
    | inl fits ↦ rw (large, fits) (le_div 1 n (suc den) (omega arith) (ground arith), ground arith)
    | inr exceeds ↦ rw (large, exceeds) (omega arith, omega arith)
  ]
]

read_response_inv :
    {T : Type 0} (f : Fetched T) {d : T}
    → read_response f ≡ success d
    → (status : ℕ) × (m : Option Text) × (f ≡ responded true status (envelope d m))
unfolding read_response
read_response_inv aborted e = cc
read_response_inv failed e = cc
read_response_inv (responded false status body) e = cc
read_response_inv (responded true status not_json) e = cc
read_response_inv (responded true status aborted_body) e = cc
read_response_inv (responded true status (other m)) e = cc
read_response_inv (responded true status (envelope d m)) e = (status, m, cc)

-- The client returns data only from a configured address, and only the data of the envelope of a response
-- with an ok status to the one request that it sends.
pub get_lem :
    (base_url : Option Text) (is_url : Text → Bool) {T : Type 0} (fetch : Request → Fetched T)
    (path : Text) (params : List (Text × Param)) {d : T}
    → get base_url is_url fetch path params ≡ some (success d)
    → (is_empty (base base_url is_url) ≡ false)
      × ((status : ℕ) × (m : Option Text) × (fetch
              (record { url = base base_url is_url ++ path; params = filter is_given params })
            ≡ responded true status (envelope d m)))
unfolding get
get_lem base_url is_url {T} fetch path params {d} e =
    elim (Bool-cases (is_empty (base base_url is_url))) [
      | inl missing ↦ absurd (failure≢success (some-injective _ _ (rw missing at e)))
      | inr here ↦ elim (Bool-cases (not (is_url (base base_url is_url ++ path)))) [
        | inl thrown ↦ absurd (none≢some (rw (here, thrown) at e))
        | inr parsed ↦ (here, read_response_inv _ (some-injective _ _ (rw (here, parsed) at e)))
      ]
    ]
  where
    none≢some : ¬ (none ≡ some (success d))
    none≢some k = cc

    failure≢success :
        {r : Reason} {m : Message} → ¬ (◌≡◌ {A = AnalyticsResult T} (failure r m) (success d))
    failure≢success k = cc
