-- ===== src/PoolList/Shares.antt =====
-- The positions of apps/web/src/hooks/usePositions.ts.
use native.Mathlib.Nat.{div-le_of_le-mul}
use ark_swap.Prelude.{
  ℕ, ◌*◌, ◌/◌, ◌≤◌, ◌<◌, ◌||◌, Option, none, some, List, [], ◌∷◌, arith, All, ◌==◌, Bool-cases, inl,
  inr,
}
use ark_swap.Valuation.{PricedPool}
use ark_swap.PoolList.{PoolRow, Position, positions}

-- Within the supply of its pool, a balance stands for at most the reserves and at most all of the pool.
abbrev pub IsShare : Position → Type 0
IsShare p =
    (0 < p.lp_balance)
    × (0 < (p.row).total_supply)
    × (p.lp_balance ≤ (p.row).total_supply
        → (p.amount0 ≤ ((p.row).priced).reserve0)
          × (p.amount1 ≤ ((p.row).priced).reserve1)
          × (p.share_bps ≤ 10_000))

part_le : (x s r : ℕ) → x ≤ s → x * r / s ≤ r
part_le x s r h = div-le_of_le-mul s (grind arith)

-- Every position is of a positive balance in a pool with supply, and its amounts stay within the reserves and
-- its share within the whole if the balance is within the supply.
pub positions-IsShare :
    (pools : List PricedPool) (rows : List PoolRow) (balances : List (Option ℕ))
    → All IsShare (positions pools rows balances)
unfolding positions
positions-IsShare pools [] balances = tt
positions-IsShare pools (p ∷ ps) [] = tt
positions-IsShare pools (p ∷ ps) (none ∷ balances) = positions-IsShare pools ps balances
positions-IsShare pools (p ∷ ps) (some lp ∷ balances) =
    elim (Bool-cases (lp == 0 || p.total_supply == 0)) [
      | inl nothing ↦ rw nothing (positions-IsShare pools ps balances)
      | inr held ↦ rw held (
        (ground arith, ground arith, λ h. (part_le lp _ _ h, part_le lp _ _ h, part_le lp _ _ h)),
        positions-IsShare pools ps balances,
      )
    ]
