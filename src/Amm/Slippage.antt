-- ===== src/Amm/Slippage.antt =====
-- The bounds that packages/sdk/amm.ts sends with a swap.
use native.Mathlib.Decide.{dec_le}
use ark_swap.Prelude.{ℕ, ◌+◌, ◌-◌, ◌*◌, ◌/◌, ◌≤◌, ◌<◌, ◌≡◌, ◌⊎◌, inl, inr, arith}
use ark_swap.Prelude.Int.{pos, ◌≤ℤ◌}
use ark_swap.Amm.{minimum_received, maximum_sold}

minimum_received_bounds :
    (out slippage : ℕ)
    → slippage ≤ 10_000
    → (m : ℕ) × (minimum_received out slippage ≡ pos m)
      × (m * 10_000 ≤ out * (10_000 - slippage))
      × (out * (10_000 - slippage) < (m + 1) * 10_000)
      × (m ≤ out)
unfolding minimum_received
minimum_received_bounds out slippage h =
    ((10_000 - slippage) * out / 10_000, ground arith, omega arith, omega arith, grind arith)

minimum_received_beyond :
    (out slippage : ℕ) → 10_000 < slippage → minimum_received out slippage ≤ℤ pos 0
unfolding minimum_received
minimum_received_beyond out slippage h = ground arith

-- Up to a tolerance of 100% the lower bound is a natural number: the amount less the tolerance,
-- rounded down, so never above the amount. Above 100% it is not positive.
pub minimum_received_lem :
    (out slippage : ℕ)
    → ((slippage ≤ 10_000)
        × ((m : ℕ) × (minimum_received out slippage ≡ pos m)
            × (m * 10_000 ≤ out * (10_000 - slippage))
            × (out * (10_000 - slippage) < (m + 1) * 10_000)
            × (m ≤ out)))
      ⊎ ((10_000 < slippage) × (minimum_received out slippage ≤ℤ pos 0))
minimum_received_lem out slippage = elim (dec_le slippage 10_000) [
  | yes h ↦ inl (h, minimum_received_bounds out slippage h)
  | no h ↦ inr (omega arith, minimum_received_beyond out slippage (omega arith))
]

-- The upper bound is the amount with the tolerance on top, rounded down, and never below the amount.
pub maximum_sold_bounds :
    (paid slippage : ℕ)
    → (maximum_sold paid slippage * 10_000 ≤ paid * (10_000 + slippage))
      × (paid * (10_000 + slippage) < (maximum_sold paid slippage + 1) * 10_000)
      × (paid ≤ maximum_sold paid slippage)
unfolding maximum_sold
maximum_sold_bounds paid slippage = (omega arith, omega arith, grind arith)
