-- ===== src/Pools/State.antt =====
-- Which pool apps/web/src/hooks/usePoolState.ts reports.
use ark_swap.Prelude.{◌≡◌, true, false, some, [], Text, text_eq_iff, lower, get_or, arith}
use ark_swap.Pools.{PoolState, PoolRead, is_registered, check_pool}

-- A pool is only reported at the derived address, when the factory has registered a pair for the two
-- tokens and it is at that address, up to case; and never together with a mismatch.
pub check_pool_lem :
    (pair : Text) (r : PoolRead) {p : PoolState}
    → (check_pool pair r).pool ≡ some p
    → (p.pair ≡ pair)
      × (is_registered r ≡ true)
      × (lower (get_or r.registered []) ≡ lower pair)
      × ((check_pool pair r).derivation_mismatch ≡ false)
unfolding check_pool
check_pool_lem pair r e = ground (arith, text_eq_iff (lower (get_or r.registered [])) (lower pair))
