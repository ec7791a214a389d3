-- ===== src/Settings/Doubles.antt =====
-- Rounding to a double, as the arithmetic of deadlineFromNow in packages/sdk/amm.ts does.
use native.Mathlib.Nat.{
  mul-div_cancel, mul-mod_left, mul_right_comm, mul-lt-mul_of_pos_right, one-le-pow,
}
use ark_swap.Prelude.{
  ℕ, zero, suc, ◌+◌, ◌*◌, ◌/◌, ◌%◌, ◌^◌, ◌<◌, ◌≡◌, refl, Option, none, some, ltb, ◌==◌,
  if◌then◌else◌, arith, true, lt→ltb,
}

-- The nearest whole number to `a / b`, the even one of two.
unfoldable pub half_even : ℕ → ℕ → ℕ
half_even a b =
    let q = a / b in
    let r = a % b in
    if ltb (2 * r) b then q else if ltb b (2 * r) then q + 1 else if q % 2 == 0 then q else q + 1

-- How many binary places a number below 2^53 keeps, at most `k`.
unfoldable pub places : ℕ → ℕ → ℕ → ℕ
places zero n d = 0
places (suc k) n d =
    let rest = places k n d in if ltb (n * 2 ^ suc k) (2 ^ 53 * d) then suc k else rest

-- How many binary places a number above loses, at least `j`.
unfoldable pub lost : ℕ → ℕ → ℕ → ℕ → ℕ
lost zero j n d = j
lost (suc fuel) j n d =
    let more = lost fuel (suc j) n d in if ltb n (2 ^ 53 * d * 2 ^ j) then j else more

-- The double next to `n / d`, as a numerator over a power of two.
unfoldable pub round_double : ℕ → ℕ → ℕ × ℕ
unfolding half_even places lost
round_double n d =
    if ltb n (2 ^ 53 * d)
    then (half_even (n * 2 ^ places 1_074 n d) d, 2 ^ places 1_074 n d)
    else (half_even n (d * 2 ^ lost 971 0 n d) * 2 ^ lost 971 0 n d, 1)

-- `BigInt` of a number: `none` where it throws, since the number is not whole.
abbrev pub whole : ℕ × ℕ → Option ℕ
whole (a, b) = if a % b == 0 then some (a / b) else none

half_even-mul : (c d : ℕ) → 0 < d → half_even (c * d) d ≡ c
unfolding half_even
half_even-mul c d h = rw (mul-div_cancel c h, mul-mod_left c d, lt→ltb 0 d h) refl

-- A whole number below 2^53 is a double.
pub round_double-whole :
    (n d : ℕ)
    → 0 < d
    → n < 2 ^ 53
    → (0 < (round_double (n * d) d).1)
      × ((round_double (n * d) d).0 ≡ n * (round_double (n * d) d).1)
unfolding round_double
round_double-whole n d h small =
    let below : ltb (n * d) (2 ^ 53 * d) ≡ true = lt→ltb _ _ (mul-lt-mul_of_pos_right small h) in
    let k = places 1_074 (n * d) d in
    rw below (
      one-le-pow k 2 (omega arith),
      rw (mul_right_comm n d (2 ^ k)) (half_even-mul (n * 2 ^ k) d h),
    )

pub whole-exact : (n a b : ℕ) → 0 < b → a ≡ n * b → whole (a, b) ≡ some n
whole-exact n a b h e = rw (e, mul-mod_left n b, mul-div_cancel n h) refl
