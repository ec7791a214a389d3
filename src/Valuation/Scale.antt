-- ===== src/Valuation/Scale.antt =====
-- Changing the number of decimals.
use native.Mathlib.Nat.{pow-suc, mul-div_cancel}
use ark_swap.Prelude.{
  ℕ, zero, suc, ◌+◌, ◌-◌, ◌*◌, ◌^◌, ◌≤◌, ◌<◌, ◌≡◌, arith, ltb, ◌==◌, true, Bool-cases, inl, inr,
}
use ark_swap.Amm.Bounds.{div_bounds}
use ark_swap.Valuation.{rescale}

pow10_pos : (n : ℕ) → 0 < 10 ^ n
pow10_pos zero = omega arith
pow10_pos (suc n) = rw pow-suc (omega (arith, pow10_pos n))

-- Scaling up is exact and is undone by scaling down.
pub rescale-rescale : (x a b : ℕ) → a ≤ b → rescale (rescale x a b) b a ≡ x
unfolding rescale
rescale-rescale x a b h = ground (arith, mul-div_cancel x (pow10_pos (b - a)))

-- Scaling down rounds down, by less than a unit of the coarser scale.
pub rescale_down :
    (x a b : ℕ)
    → b ≤ a
    → (rescale x a b * 10 ^ (a - b) ≤ x) × (x < (rescale x a b + 1) * 10 ^ (a - b))
unfolding rescale
rescale_down x a b h = elim (Bool-cases (a == b)) [
  | inl same ↦
      let zero_gap : a - b ≡ 0 = ground arith in rw (same, zero_gap) (omega arith, omega arith)
  | inr far ↦
      let lower : ltb b a ≡ true = ground arith in
      rw (far, lower) (div_bounds x (10 ^ (a - b)) (pow10_pos (a - b)))
]
