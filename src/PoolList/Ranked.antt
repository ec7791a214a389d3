-- ===== src/PoolList/Ranked.antt =====
-- The order in which apps/web/src/hooks/usePositions.ts lists the positions.
use mathlib.Core.List.{Perm}
use ark_swap.Prelude.{ℕ, ◌≤◌, not, Option, List, arith, All, ltb}
use ark_swap.Prelude.Sorting.{sort-Perm, sort-InOrder, sort-All, InOrder, Ranks, All-Unit}
use ark_swap.Valuation.{PricedPool}
use ark_swap.PoolList.{PoolRow, Position, positions, sorted_positions, value_or_zero}
use ark_swap.PoolList.Shares.{IsShare, positions-IsShare}

-- The second position is not worth more than the first, an unpriced one being worth nothing.
abbrev pub IsNotRicher : Position → Position → Type 0
IsNotRicher a b = value_or_zero b ≤ value_or_zero a

ranks :
    Ranks
      (λ a b. not (ltb (value_or_zero a) (value_or_zero b)))
      (λ (p : Position). Unit)
      IsNotRicher
ranks = record {
  before_R = λ x y p q e. ground arith;
  after_R = λ x y p q e. ground arith;
  trans = λ x y z e f. omega arith;
}

-- The positions are listed from the highest value down, each pool's once, and each is a share of its pool.
pub sorted_positions_lem :
    (pools : List PricedPool) (rows : List PoolRow) (balances : List (Option ℕ))
    → Perm (sorted_positions pools rows balances) (positions pools rows balances)
      × InOrder IsNotRicher (sorted_positions pools rows balances)
      × All IsShare (sorted_positions pools rows balances)
unfolding sorted_positions
sorted_positions_lem pools rows balances =
    let found = positions pools rows balances in
    (
      sort-Perm _ found,
      sort-InOrder _ (λ p. Unit) IsNotRicher ranks found (All-Unit found),
      sort-All _ IsShare found (positions-IsShare pools rows balances),
    )
