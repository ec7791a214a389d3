-- ===== src/Amm/Optimal.antt =====
-- The pair's K check, as packages/contracts/contracts/core/ArkSwapPair.sol makes it of a swap of one
-- token for the other, and the quotes of packages/sdk/amm.ts as the best that it accepts.
use native.Mathlib.Nat.{le_refl, le_trans, mul-le-mul_right}
use ark_swap.Prelude.{ℕ, ◌+◌, ◌-◌, ◌*◌, ◌/◌, ◌^◌, ◌≤◌, ◌<◌, ◌≡◌, ◌↔◌, ok, arith}
use ark_swap.Amm.{get_amount_out, get_amount_in}
use ark_swap.Amm.Bounds.{
  get_amount_out-inv, get_amount_in-inv, div_bounds, le_div, get_amount_out-lt-reserve,
  get_amount_out-ok,
}

-- The check on a swap that brings `paid` into a pool with the reserves `r` and `s` and takes `out`.
abbrev pub KHolds : ℕ → ℕ → ℕ → ℕ → Type 0
KHolds r s paid out =
    (out < s) × (r * s * 1000 ^ 2 ≤ ((r + paid) * 1000 - paid * 3) * ((s - out) * 1000))

-- With `s` written as `out + left` both sides are polynomials.
K_product :
    (r paid out left : ℕ)
    → (r * (out + left) * 1000 ^ 2 ≤ (r * 1000 + paid * 997) * (left * 1000))
      ↔ (out * (r * 1000 + paid * 997) ≤ paid * 997 * (out + left))
K_product r paid out left = (λ h. omega arith, λ h. omega arith)

-- What the check comes to, for a swap that takes less than the reserve.
pub KHolds-iff :
    (r s paid out : ℕ)
    → out < s
    → KHolds r s paid out ↔ (out * (r * 1000 + paid * 997) ≤ paid * 997 * s)
KHolds-iff r s paid out h =
    let split : s ≡ out + (s - out) = omega arith in
    let fee : (r + paid) * 1000 - paid * 3 ≡ r * 1000 + paid * 997 = omega arith in
    let (to, from) = K_product r paid out (s - out) in
    let to' : r * s * 1000 ^ 2 ≤ (r * 1000 + paid * 997) * ((s - out) * 1000)
        → out * (r * 1000 + paid * 997) ≤ paid * 997 * s =
      rw (← split) at to in
    let from' : out * (r * 1000 + paid * 997) ≤ paid * 997 * s
        → r * s * 1000 ^ 2 ≤ (r * 1000 + paid * 997) * ((s - out) * 1000) =
      rw (← split) at from in
    rw fee (λ k. to' k.1, λ k. (h, from' k))

-- The quoted output is the largest that the pair's K check accepts for the input.
pub get_amount_out_optimal :
    (a r s x : ℕ) {out : ℕ} → get_amount_out a r s ≡ ok out → KHolds r s a x ↔ (x ≤ out)
get_amount_out_optimal a r s x {out} h =
    let (ha, hr, hs, e) = get_amount_out-inv a r s h in
    let below = get_amount_out-lt-reserve a r s h in
    let (lower, upper) = div_bounds (a * 997 * s) (r * 1000 + a * 997) (omega arith) in
    let q : out * (r * 1000 + a * 997) ≤ a * 997 * s = rw e lower in
    (
      λ k. rw e (
          le_div x (a * 997 * s) (r * 1000 + a * 997) (omega arith) ((KHolds-iff r s a x k.0).0 k)),
      λ le. (KHolds-iff r s a x (omega arith)).1 (le_trans (mul-le-mul_right _ le) q),
    )

pay_product :
    (r paid out left : ℕ)
    → (out * (r * 1000 + paid * 997) ≤ paid * 997 * (out + left))
      ↔ (r * out * 1000 ≤ paid * (left * 997))
pay_product r paid out left = (λ h. omega arith, λ h. omega arith)

-- The check read as a bound on what is paid.
pub KHolds-paid_iff :
    (r s paid out : ℕ) → out < s → KHolds r s paid out ↔ (r * out * 1000 ≤ paid * ((s - out) * 997))
KHolds-paid_iff r s paid out h =
    let split : out + (s - out) ≡ s = omega arith in
    let (to, from) = KHolds-iff r s paid out h in
    let (there, back) = rw split at (pay_product r paid out (s - out)) in
    (λ k. there (to k), λ k. from (back k))

pub get_amount_in-KHolds : (a r s : ℕ) {i : ℕ} → get_amount_in a r s ≡ ok i → KHolds r s i a
get_amount_in-KHolds a r s {i} h =
    let (ha, hr, hs, e) = get_amount_in-inv a r s h in
    let (lower, upper) = div_bounds (r * a * 1000) ((s - a) * 997) (omega arith) in
    let enough : r * a * 1000 < i * ((s - a) * 997) = rw e upper in
    (KHolds-paid_iff r s i a hs).1 (omega arith)

-- The quoted input passes the pair's K check, and no input that is lower by two or more does.
pub get_amount_in_optimal :
    (a r s j : ℕ) {i : ℕ}
    → get_amount_in a r s ≡ ok i
    → j + 1 < i
    → KHolds r s i a × (¬ KHolds r s j a)
get_amount_in_optimal a r s j {i} h lt =
    let (ha, hr, hs, e) = get_amount_in-inv a r s h in
    let (lower, upper) = div_bounds (r * a * 1000) ((s - a) * 997) (omega arith) in
    (
      get_amount_in-KHolds a r s h,
      λ k.
          let more =
            mul-le-mul_right {m = j + 1} {n = (r * a * 1000) / ((s - a) * 997)} ((s - a) * 997)
              (omega arith) in
          let some = (KHolds-paid_iff r s j a hs).0 k in omega arith,
    )

-- Paying the quoted input gets a quote of at least the output that was asked for.
pub get_amount_out-get_amount_in :
    (a r s : ℕ) {i : ℕ}
    → get_amount_in a r s ≡ ok i
    → (out : ℕ) × (get_amount_out i r s ≡ ok out) × (a ≤ out)
get_amount_out-get_amount_in a r s {i} h =
    let (ha, hr, hs, e) = get_amount_in-inv a r s h in
    let quoted = get_amount_out-ok i r s (omega arith) hr (omega arith) in
    (_, quoted, (get_amount_out_optimal i r s a quoted).0 (get_amount_in-KHolds a r s h))

-- A larger input never gets less output.
pub get_amount_out_mono :
    (a b r s : ℕ) {x y : ℕ}
    → a ≤ b
    → get_amount_out a r s ≡ ok x
    → get_amount_out b r s ≡ ok y
    → x ≤ y
get_amount_out_mono a b r s {x} {y} le ea eb =
    let below = get_amount_out-lt-reserve a r s ea in
    let cheap = (KHolds-iff r s a x below).0 ((get_amount_out_optimal a r s x ea).1 (le_refl x)) in
    let extra : x * (b - a) ≤ s * (b - a) = mul-le-mul_right (b - a) (omega arith) in
    let more : b ≡ a + (b - a) = omega arith in
    (get_amount_out_optimal b r s x eb).0
      ((KHolds-iff r s b x below).1 (grown x s r a (b - a) b more cheap extra))
  where
    grown :
        (x s r a d b : ℕ)
        → b ≡ a + d
        → x * (r * 1000 + a * 997) ≤ a * 997 * s
        → x * d ≤ s * d
        → x * (r * 1000 + b * 997) ≤ b * 997 * s
    grown x s r a d b e h k = rw e (omega arith)
