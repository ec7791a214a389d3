-- ===== src/Amm/Impact.antt =====
-- Price impact and its severity, in packages/sdk/amm.ts.
use ark_swap.Prelude.{
  ℕ, zero, suc, ◌||◌, true, Bool-cases, ◌+◌, ◌-◌, ◌*◌, ◌/◌, ◌≤◌, ◌<◌, ◌≡◌, ◌↔◌, ok, arith, leb, ◌⊎◌,
  inl, inr,
}
use ark_swap.Amm.{
  get_amount_out, price_impact_bps, impact_of, impact_severity, ImpactSeverity, calm, warn, high,
  severe,
}
use ark_swap.Amm.Bounds.{get_amount_out-ok, get_amount_out-inv, div_bounds, le_div}

-- The fee and the curve only ever take away from the mid price.
pub get_amount_out-le-ideal :
    (a r s : ℕ) {out : ℕ} → get_amount_out a r s ≡ ok out → out ≤ a * s / r
get_amount_out-le-ideal a r s {out} h =
    let (ha, hr, hs, e) = get_amount_out-inv a r s h in
    let (lower, upper) = div_bounds (a * 997 * s) (r * 1000 + a * 997) (omega arith) in
    let q : out * (r * 1000 + a * 997) ≤ a * 997 * s = rw e lower in
    le_div out (a * s) r hr (grind arith)

impact_of_lem : (ideal out : ℕ) → out ≤ ideal → impact_of ideal out ≡ (ideal - out) * 10_000 / ideal
unfolding impact_of
impact_of_lem ideal out h = ground arith

pub share-le-bps : (ideal out : ℕ) → (ideal - out) * 10_000 / ideal ≤ 10_000
share-le-bps zero out = omega arith
share-le-bps (suc i) out = grind arith

ideal-zero : (a r s : ℕ) → leb a 0 || leb r 0 || leb s 0 ≡ true → a * s / r ≡ 0
ideal-zero zero r s h = omega arith
ideal-zero (suc a) zero s h = omega arith
ideal-zero (suc a) (suc r) zero h = omega arith
ideal-zero (suc a) (suc r) (suc s) h = ground arith

-- The impact never throws. It is zero where the mid-price output rounds to zero, as with a zero
-- argument; otherwise a quote exists that does not exceed the mid-price output, and the impact is its
-- shortfall in basis points, rounded down, and at most 10000.
pub price_impact_bps_lem :
    (a r s : ℕ)
    → ((a * s / r ≡ 0) × (price_impact_bps a r s ≡ ok 0))
      ⊎ ((out : ℕ) × (get_amount_out a r s ≡ ok out)
          × (out ≤ a * s / r)
          × (price_impact_bps a r s ≡ ok ((a * s / r - out) * 10_000 / (a * s / r)))
          × ((a * s / r - out) * 10_000 / (a * s / r) ≤ 10_000))
unfolding price_impact_bps
price_impact_bps_lem a r s = elim (Bool-cases (leb a 0 || leb r 0 || leb s 0)) [
  | inl none ↦ inl (ideal-zero a r s none, ground arith)
  | inr all ↦
      let quoted = get_amount_out-ok a r s (ground arith) (ground arith) (ground arith) in
      let le = get_amount_out-le-ideal a r s quoted in
      inr (_, quoted, le, ground (arith, quoted, impact_of_lem (a * s / r) _ le), share-le-bps _ _)
]

abbrev pub rank : ImpactSeverity → ℕ
rank calm = 0
rank warn = 1
rank high = 2
rank severe = 3

-- The severity never falls as the impact grows; it is severe, which blocks a swap, exactly from 15% on,
-- and calm exactly below 1%.
pub impact_severity_lem :
    (a b : ℕ)
    → a ≤ b
    → (rank (impact_severity a) ≤ rank (impact_severity b))
      × ((impact_severity a ≡ severe) ↔ (1500 ≤ a))
      × ((impact_severity a ≡ calm) ↔ (a < 100))
unfolding impact_severity
impact_severity_lem a b h = ground arith
