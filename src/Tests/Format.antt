-- ===== src/Tests/Format.antt =====
-- A click on Max with 1500 mUSDC.
use ark_swap.Prelude.{
  ℕ, ◌/◌, ◌^◌, ◌<◌, ◌≤◌, ◌≡◌, ◌⊎◌, refl, arith, some, none, Option, [], Text, codes,
}
use ark_swap.Prelude.Int.{ℤ, pos}
use ark_swap.Prelude.Decimal.{decimal, grouped}
use ark_swap.Format.{parse_amount, max_text, until_dot, past_dot, format_bps}
use ark_swap.Format.Max.{PrintsUnits, max_text-parse_amount}
use ark_swap.Tests.Tokens.{usdc_token}

abbrev printed : ℕ → ℕ → Text
printed v d = codes "1500"

abbrev parsed : Text → ℕ → Option ℤ
parsed s d = some (pos 1_500_000_000)

prints : PrintsUnits printed parsed 1_500_000_000 6
unfolding decimal
prints = record {
  fraction = [];
  printed = refl;
  digits = tt;
  stripped = refl;
  short = omega arith;
  read = refl;
}

format_runs :
    (max_text printed usdc_token 1_500_000_000 ≡ codes "1,500")
    × (grouped 1_234_567 ≡ codes "1,234,567")
    × (format_bps 1_205 ≡ codes "12.05%")
unfolding max_text until_dot past_dot grouped decimal format_bps
format_runs = (refl, refl, refl)

max_text-parse_amount_example :
    ((1_500_000_000 / 10 ^ 6 < 1_000)
      × (parse_amount parsed (max_text printed usdc_token 1_500_000_000) 6 ≡ some 1_500_000_000))
    ⊎ ((1_000 ≤ 1_500_000_000 / 10 ^ 6)
        × (parse_amount parsed (max_text printed usdc_token 1_500_000_000) 6 ≡ none))
max_text-parse_amount_example = max_text-parse_amount printed parsed usdc_token 1_500_000_000 prints
