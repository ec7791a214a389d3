-- ===== src/Settings/Protection.antt =====
-- What the range of the settings means for the swaps that the form sends.
use ark_swap.Prelude.{ℕ, ◌+◌, ◌-◌, ◌*◌, ◌≤◌, ◌<◌, ◌≡◌, true, Option, some, arith}
use ark_swap.Prelude.Int.{ℤ, pos}
use ark_swap.Route.{SwapRoute}
use ark_swap.SwapForm.{CardInput}
use ark_swap.SwapForm.Calls.{SwapCall, submit}
use ark_swap.SwapForm.Bounds.{spends, demands, submit-IsBounded}
use ark_swap.Settings.{Settings, Json, slippage_ok}
use ark_swap.Settings.Range.{Reach, Reach-InRange}

-- The bounds of the tolerance as numbers.
tolerance_bounds : (n : ℕ) (z : ℤ) → z ≡ pos n → slippage_ok z ≡ true → (0 < n) × (n ≤ 5_000)
tolerance_bounds n z e h =
    let k : slippage_ok (pos n) ≡ true = rw e at h in (ground arith, ground arith)

up_to_half :
    (a b : ℕ) → b ≤ 5_000 → (a * (10_000 + b) ≤ a * 15_000) × (a * 5_000 ≤ a * (10_000 - b))
up_to_half a b h = (grind arith, grind arith)

-- A swap that is sent with settings that the app can reach takes at most one and a half times the quoted
-- input, and yields at least half of the quoted output, rounded down, or reverts.
pub submit-IsProtected :
    {big_int : Json → Option ℤ} {s : Settings} (i : CardInput) (r : SwapRoute) {c : SwapCall}
    → Reach big_int s
    → s.slippage_bps ≡ pos i.slippage_bps
    → i.route ≡ some r
    → submit i ≡ some c
    → (spends c * 2 ≤ r.amount_in * 3)
      × ((n : ℕ) × (demands c ≡ pos n) × (r.amount_out < (n + 1) * 2))
submit-IsProtected {s = s} i r {c} reached tolerance route sent =
    let (above, below) =
      tolerance_bounds i.slippage_bps s.slippage_bps tolerance (Reach-InRange reached).slippage in
    let (_, _, cost, (n, e, yield)) = submit-IsBounded i r route sent (omega (arith, below)) in
    let (dear, cheap) = up_to_half r.amount_in i.slippage_bps below in
    let (_, floor) = up_to_half r.amount_out i.slippage_bps below in
    (omega arith, (n, e, omega arith))
