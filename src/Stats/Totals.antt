-- ===== src/Stats/Totals.antt =====
-- The totals of apps/web/src/hooks/useProtocolStats.ts.
use ark_swap.Prelude.{ℕ, ◌+◌, ◌≡◌, Option, none, some, List, [], ◌∷◌, Text, arith, if◌then◌else◌}
use ark_swap.Tokens.{Token}
use ark_swap.Valuation.{rescale}
use ark_swap.Stats.{PoolSummary, Locked, is_wkash_address, add_side, add_pool, add_pools, totals}

module _ (wkash : Option Text) where
  -- What one side of a pool adds to each total.
  abbrev pub kash_in : Option Token → ℕ → ℕ
  kash_in none reserve = 0
  kash_in (some t) reserve = if is_wkash_address wkash t then reserve else 0

  abbrev pub stables_in : Option Token → ℕ → ℕ
  stables_in none reserve = 0
  stables_in (some t) reserve =
      if is_wkash_address wkash t
      then 0
      else if t.is_stable
      then rescale reserve t.decimals 6
      else 0

  unfoldable pub sum_kash : List PoolSummary → ℕ
  sum_kash [] = 0
  sum_kash (p ∷ ps) = kash_in p.token0 p.reserve0 + kash_in p.token1 p.reserve1 + sum_kash ps

  unfoldable pub sum_stables : List PoolSummary → ℕ
  sum_stables [] = 0
  sum_stables (p ∷ ps) =
      stables_in p.token0 p.reserve0 + stables_in p.token1 p.reserve1 + sum_stables ps

  add_side_lem :
      (l : Locked) (t : Option Token) (reserve : ℕ)
      → ((add_side wkash l t reserve).kash_locked ≡ l.kash_locked + kash_in t reserve)
        × ((add_side wkash l t reserve).stables_locked ≡ l.stables_locked + stables_in t reserve)
  unfolding add_side
  add_side_lem l none reserve = (omega arith, omega arith)
  add_side_lem l (some t) reserve = ground arith

  add_pools_lem :
      (l : Locked) (ps : List PoolSummary)
      → ((add_pools wkash l ps).kash_locked ≡ l.kash_locked + sum_kash ps)
        × ((add_pools wkash l ps).stables_locked ≡ l.stables_locked + sum_stables ps)
  unfolding add_pools add_pool sum_kash sum_stables
  add_pools_lem l [] = (omega arith, omega arith)
  add_pools_lem l (p ∷ ps) =
      let (k0, s0) = add_side_lem l p.token0 p.reserve0 in
      let (k1, s1) = add_side_lem (add_side wkash l p.token0 p.reserve0) p.token1 p.reserve1 in
      let (k, s) = add_pools_lem (add_pool wkash l p) ps in
      (omega (arith, k0, k1, k), omega (arith, s0, s1, s))

  -- The KASH total is the sum of the WKASH reserves, and the stable total the sum of the reserves of listed
  -- stablecoins in six decimals; no other token adds to either, and none to both.
  pub totals_lem :
      (ps : List PoolSummary)
      → ((totals wkash ps).kash_locked ≡ sum_kash ps)
        × ((totals wkash ps).stables_locked ≡ sum_stables ps)
  totals_lem ps =
      let (k, s) = add_pools_lem (record { kash_locked = 0; stables_locked = 0 }) ps in
      (omega (arith, k), omega (arith, s))
