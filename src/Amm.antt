-- ===== src/Amm.antt =====
-- packages/sdk/amm.ts: the client-side mirror of ArkSwapLibrary. Amounts and reserves are `bigint`
-- values read from `uint` or parsed as amounts, so they are natural numbers, and a guard `x <= 0n`
-- is a test for zero; the two differences that the code does not guard are integers.
pub mod Bounds
pub mod Contract
pub mod Impact
pub mod Optimal
pub mod Slippage
use ark_swap.Prelude.{
  ℕ, ◌+◌, ◌-◌, ◌*◌, ◌/◌, Bool, ◌||◌, leb, ltb, ◌==◌, if◌then◌else◌, Result, ok, err, ◌>>=◌,
}
use ark_swap.Prelude.Int.{ℤ, pos, sub_ℕ, scale, quot, ltb_ℤ}

abbrev pub fee_numerator : ℕ
fee_numerator = 997

abbrev pub fee_denominator : ℕ
fee_denominator = 1000

abbrev pub bps : ℕ
bps = 10_000

-- The errors that the library throws.
pub data AmmError : Type 0 where
  insufficient_input_amount : AmmError
  insufficient_output_amount : AmmError
  insufficient_amount : AmmError
  insufficient_liquidity : AmmError

unfoldable pub get_amount_out : ℕ → ℕ → ℕ → Result AmmError ℕ
get_amount_out amount_in reserve_in reserve_out =
    if leb amount_in 0
    then err insufficient_input_amount
    else if leb reserve_in 0 || leb reserve_out 0
    then err insufficient_liquidity
    else let amount_in_with_fee = amount_in * fee_numerator in
      ok ((amount_in_with_fee * reserve_out) / (reserve_in * fee_denominator + amount_in_with_fee))

unfoldable pub get_amount_in : ℕ → ℕ → ℕ → Result AmmError ℕ
get_amount_in amount_out reserve_in reserve_out =
    if leb amount_out 0
    then err insufficient_output_amount
    else if leb reserve_in 0 || leb reserve_out 0
    then err insufficient_liquidity
    else if leb reserve_out amount_out
    then err insufficient_liquidity
    else let numerator = reserve_in * amount_out * fee_denominator in
      let denominator = (reserve_out - amount_out) * fee_numerator in
      ok (numerator / denominator + 1)

unfoldable pub quote : ℕ → ℕ → ℕ → Result AmmError ℕ
quote amount_a reserve_a reserve_b =
    if leb amount_a 0
    then err insufficient_amount
    else if leb reserve_a 0 || leb reserve_b 0
    then err insufficient_liquidity
    else ok ((amount_a * reserve_b) / reserve_a)

-- Below zero when the tolerance is above 100%.
unfoldable pub minimum_received : ℕ → ℕ → ℤ
minimum_received amount_out slippage_bps = quot (scale (sub_ℕ bps slippage_bps) amount_out) bps

unfoldable pub maximum_sold : ℕ → ℕ → ℕ
maximum_sold amount_in slippage_bps = (amount_in * (bps + slippage_bps)) / bps

-- `impact > 0n ? impact : 0n`.
abbrev pub positive_or_zero : ℤ → ℕ
positive_or_zero (pos n) = n
positive_or_zero _ = 0

-- The part of `priceImpactBps` after the call of `getAmountOut`.
unfoldable pub impact_of : ℕ → ℕ → ℕ
impact_of ideal_out amount_out =
    if ideal_out == 0
    then 0
    else positive_or_zero (quot (scale (sub_ℕ ideal_out amount_out) bps) ideal_out)

unfoldable pub price_impact_bps : ℕ → ℕ → ℕ → Result AmmError ℕ
price_impact_bps amount_in reserve_in reserve_out =
    if leb amount_in 0 || leb reserve_in 0 || leb reserve_out 0 then ok 0 else do
      amount_out ← get_amount_out amount_in reserve_in reserve_out
      ok (impact_of ((amount_in * reserve_out) / reserve_in) amount_out)

abbrev pub price_impact_warn_bps : ℕ
price_impact_warn_bps = 100

abbrev pub price_impact_high_bps : ℕ
price_impact_high_bps = 300

abbrev pub price_impact_block_bps : ℕ
price_impact_block_bps = 1500

pub data ImpactSeverity : Type 0 where
  calm : ImpactSeverity
  warn : ImpactSeverity
  high : ImpactSeverity
  severe : ImpactSeverity

unfoldable pub impact_severity : ℕ → ImpactSeverity
impact_severity impact_bps =
    if leb price_impact_block_bps impact_bps
    then severe
    else if leb price_impact_high_bps impact_bps
    then high
    else if leb price_impact_warn_bps impact_bps
    then warn
    else calm
