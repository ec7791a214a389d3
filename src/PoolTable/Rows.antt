-- ===== src/PoolTable/Rows.antt =====
-- Which rows the table of pools shows, and their order.
use mathlib.Core.List.{Perm}
use ark_swap.Prelude.{ℕ, ◌≡◌, true, false, not, Option, List, Text, arith}
use ark_swap.Prelude.Sorting.{sort-Perm, sort-InOrder, InOrder, Ranks, All-Unit}
use ark_swap.PoolList.{PoolRow}
use ark_swap.PoolTable.{filtered, is_worth_more, rows}

-- The second row is not worth more than the first; an unpriced one is worth less than any other.
abbrev pub IsNotLess : PoolRow → PoolRow → Type 0
IsNotLess a b = is_worth_more b.tvl a.tvl ≡ false

worth_trans :
    (a b c : Option ℕ)
    → is_worth_more b a ≡ false
    → is_worth_more c b ≡ false
    → is_worth_more c a ≡ false
worth_trans a b c e f = ground arith

worth_asym : (a b : Option ℕ) → is_worth_more b a ≡ true → is_worth_more a b ≡ false
worth_asym a b e = ground arith

rows-Ranks : Ranks (λ a b. not (is_worth_more b.tvl a.tvl)) (λ p. Unit) IsNotLess
rows-Ranks = record {
  before_R = λ x y p q e. ground arith;
  after_R = λ x y p q e. worth_asym x.tvl y.tvl (ground arith);
  trans = λ x y z e f. worth_trans x.tvl y.tvl z.tvl e f;
}

-- The rows are the pools that the filter keeps, each once, from the highest value down, with the unpriced
-- ones last.
pub rows_lem :
    (query : Text) (pools : List PoolRow)
    → Perm (rows query pools) (filtered query pools) × InOrder IsNotLess (rows query pools)
unfolding rows
rows_lem query pools = (
  sort-Perm _ (filtered query pools),
  sort-InOrder _ (λ p. Unit) IsNotLess rows-Ranks (filtered query pools)
      (All-Unit (filtered query pools)),
)
