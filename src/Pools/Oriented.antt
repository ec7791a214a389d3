-- ===== src/Pools/Oriented.antt =====
-- Reserves and shares of a pool.
use native.Mathlib.Nat.{div-le_of_le-mul}
use ark_swap.Prelude.{
  ℕ, ◌+◌, ◌*◌, ◌/◌, ◌≤◌, ◌<◌, ◌≡◌, refl, true, false, Text, text_eq, lower, arith, ◌==◌,
}
use ark_swap.Amm.Bounds.{div_bounds}
use ark_swap.Pools.{PoolState, Reserves, orient_reserves, pool_share_bps}

abbrev pub turned : Reserves → Reserves
turned r = record { reserve_in = r.reserve_out; reserve_out = r.reserve_in }

-- The reserves seen from any other token are those seen from the pool's first token, turned around.
pub orient_reserves-turned :
    (pool : PoolState) (a b : Text)
    → text_eq (lower a) (lower pool.token0) ≡ true
    → text_eq (lower b) (lower pool.token0) ≡ false
    → orient_reserves pool b ≡ turned (orient_reserves pool a)
unfolding orient_reserves
orient_reserves-turned pool a b first second = rw (first, second) refl

share_le : (lp supply : ℕ) → lp ≤ supply → lp * 10_000 / supply ≤ 10_000
share_le lp supply h = div-le_of_le-mul supply (omega (arith, h))

-- A share is at most 10000 basis points, of all and rounded down, for a balance within the supply.
pub pool_share_bps_bounds :
    (lp supply : ℕ)
    → lp ≤ supply
    → 0 < supply
    → (pool_share_bps lp supply ≤ 10_000)
      × (pool_share_bps lp supply * supply ≤ lp * 10_000)
      × (lp * 10_000 < (pool_share_bps lp supply + 1) * supply)
unfolding pool_share_bps
pool_share_bps_bounds lp supply h p =
    let (below, above) = div_bounds (lp * 10_000) supply p in
    let held : (supply == 0) ≡ false = ground arith in rw held (share_le lp supply h, below, above)
