-- ===== src/Amm/Bounds.antt =====
-- When the pricing functions of packages/sdk/amm.ts return, and how far their results reach.
use ark_swap.Prelude.{ℕ, ◌+◌, ◌-◌, ◌*◌, ◌/◌, ◌≤◌, ◌<◌, ◌≡◌, ok, arith}
use ark_swap.Amm.{get_amount_out, get_amount_in}

pub get_amount_out-ok :
    (a r s : ℕ)
    → 0 < a
    → 0 < r
    → 0 < s
    → get_amount_out a r s ≡ ok ((a * 997 * s) / (r * 1000 + a * 997))
unfolding get_amount_out
get_amount_out-ok a r s ha hr hs = ground arith

pub get_amount_in-ok :
    (a r s : ℕ)
    → 0 < a
    → 0 < r
    → a < s
    → get_amount_in a r s ≡ ok ((r * a * 1000) / ((s - a) * 997) + 1)
unfolding get_amount_in
get_amount_in-ok a r s ha hr hs = ground arith

-- A quote that returns has positive arguments.
pub get_amount_out-inv :
    (a r s : ℕ) {out : ℕ}
    → get_amount_out a r s ≡ ok out
    → (0 < a) × (0 < r) × (0 < s) × (out ≡ (a * 997 * s) / (r * 1000 + a * 997))
unfolding get_amount_out
get_amount_out-inv a r s h = ground arith

pub get_amount_in-inv :
    (a r s : ℕ) {i : ℕ}
    → get_amount_in a r s ≡ ok i
    → (0 < a) × (0 < r) × (a < s) × (i ≡ (r * a * 1000) / ((s - a) * 997) + 1)
unfolding get_amount_in
get_amount_in-inv a r s h = ground arith

-- The product law of the quotient, for the denominators below.
pub div_bounds : (n d : ℕ) → 0 < d → (n / d * d ≤ n) × (n < (n / d + 1) * d)
div_bounds n d h = omega arith

pub le_div : (q n d : ℕ) → 0 < d → q * d ≤ n → q ≤ n / d
le_div q n d h k = grind arith

-- The output stays below the reserve that pays it.
pub get_amount_out-lt-reserve : (a r s : ℕ) {out : ℕ} → get_amount_out a r s ≡ ok out → out < s
get_amount_out-lt-reserve a r s {out} h =
    let (ha, hr, hs, e) = get_amount_out-inv a r s h in
    let k : 0 < r * s = grind arith in
    let (below, above) = div_bounds (a * 997 * s) (r * 1000 + a * 997) (omega arith) in
    let q : out * (r * 1000 + a * 997) ≤ a * 997 * s = rw e below in grind arith
