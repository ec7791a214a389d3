-- ===== src/Settings/Deadline.antt =====
-- The deadline that the settings give a transaction (deadlineFromNow of packages/sdk/amm.ts).
use native.Mathlib.Nat.{le_of_mul-le-mul_right, add-mul}
use ark_swap.Prelude.{
  ℕ, suc, ◌+◌, ◌*◌, ◌/◌, ◌^◌, ◌<◌, ◌≤◌, ◌≡◌, sym, ap, ◌∙◌, true, Option, some, arith, option_map,
}
use ark_swap.Prelude.Int.{ℤ, pos}
use ark_swap.Analytics.{ratio}
use ark_swap.Settings.{Settings, Json, deadline_ok, deadline_from_now}
use ark_swap.Settings.Doubles.{round_double, round_double-whole, whole-exact}
use ark_swap.Settings.Range.{Reach, Reach-InRange}

-- Minutes that are `t` seconds, whatever the fraction they are written as, give a deadline `t` seconds on.
whole_seconds :
    (now n den t : ℕ)
    → t * suc den ≡ 60 * n
    → now / 1_000 + t < 2 ^ 53
    → deadline_from_now now (ratio (pos n) den) ≡ some (pos (now / 1_000 + t))
unfolding deadline_from_now
whole_seconds now n den t e small =
    let d = suc den in
    let (some_b, exact) = round_double-whole t d (omega arith) (omega (arith, small)) in
    let b = (round_double (t * d) d).1 in
    let joined : now / 1_000 * b + (round_double (t * d) d).0 ≡ (now / 1_000 + t) * b =
      ap (λ a. now / 1_000 * b + a) exact ∙ sym (add-mul (now / 1_000) t b) in
    let (some_s, sum) = round_double-whole (now / 1_000 + t) b some_b small in
    rw (← e, joined)
      (ap (option_map (λ x. pos x))
        (whole-exact (now / 1_000 + t) (round_double ((now / 1_000 + t) * b) b).0 _ some_s sum))

seconds_bound :
    (n den t : ℕ) → t * suc den ≡ 60 * n → deadline_ok (ratio (pos n) den) ≡ true → t ≤ 10_800
seconds_bound n den t e h =
    let below : n ≤ 180 * suc den = ground arith in
    le_of_mul-le-mul_right {k = suc den} (omega (arith, e, below)) (omega arith)

-- With settings that the app can reach, minutes that are a whole number of seconds give a transaction a
-- deadline exactly that long after the second that began last, and at most three hours; rounding does not
-- move it and nothing throws.
pub deadline_from_now-exact :
    {big_int : Json → Option ℤ} {s : Settings} (now n den t : ℕ)
    → Reach big_int s
    → now < 2 ^ 53
    → s.deadline_minutes ≡ ratio (pos n) den
    → t * suc den ≡ 60 * n
    → (t ≤ 10_800) × (deadline_from_now now s.deadline_minutes ≡ some (pos (now / 1_000 + t)))
deadline_from_now-exact {s = s} now n den t r date e seconds =
    let bound = seconds_bound n den t seconds (rw e at (Reach-InRange r).deadline) in
    (
      bound,
      ap (deadline_from_now now) e ∙ whole_seconds now n den t seconds (omega (arith, bound, date)),
    )
