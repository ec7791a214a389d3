-- ===== src/Liquidity/Expected.antt =====
-- The amounts that the liquidity form computes.
use native.Mathlib.Nat.{div-le_of_le-mul}
use ark_swap.Prelude.{
  ℕ, ◌+◌, ◌*◌, ◌/◌, ◌≤◌, ◌<◌, ◌≡◌, ◌||◌, none, some, arith, leb, ◌==◌, if◌then◌else◌, Bool-cases,
  inl, inr,
}
use mathlib.Core.Option.{some-injective}
use ark_swap.Amm.{quote}
use ark_swap.Amm.Bounds.{div_bounds}
use ark_swap.Pools.{PoolState, Reserves}
use ark_swap.Liquidity.{
  LiquidityInput, form_reserves, amount_b, lp, remove_amount, expected_out, to_option,
}

ratio :
    (a r s : ℕ) {b : ℕ}
    → (if leb a 0 then none else if leb r 0 || leb s 0 then none else to_option (quote a r s))
      ≡ some b
    → (b * r ≤ a * s) × (a * s < (b + 1) * r)
unfolding quote
ratio a r s {b} e = elim (Bool-cases (leb a 0)) [
  | inl zero ↦ absurd (none≢some (rw zero at e))
  | inr given ↦ elim (Bool-cases (leb r 0 || leb s 0)) [
    | inl dry ↦ absurd (none≢some (rw (given, dry) at e))
    | inr full ↦
        let same : a * s / r ≡ b = some-injective _ _ (rw (given, full) at e) in
        let positive : 0 < r = ground arith in rw (← same) (div_bounds (a * s) r positive)
  ]
]
  where
    none≢some : ¬ (none ≡ some b)
    none≢some k = cc

part_le : (x s r : ℕ) → x ≤ s → x * r / s ≤ r
part_le x s r h = div-le_of_le-mul s (grind arith)

remove_le : (x p : ℕ) → p ≤ 100 → x * p / 100 ≤ x
remove_le x p h = div-le_of_le-mul 100 (grind arith)

-- The matched amount is the typed one at the ratio of the reserves, rounded down.
pub amount_b_bounds :
    (i : LiquidityInput) (pool : PoolState) (r : Reserves) (a : ℕ) {b : ℕ}
    → i.pool ≡ some pool
    → form_reserves i pool ≡ some r
    → i.amount_a ≡ some a
    → amount_b i ≡ some b
    → (b * r.reserve_in ≤ a * r.reserve_out) × (a * r.reserve_out < (b + 1) * r.reserve_in)
unfolding amount_b
amount_b_bounds i pool r a {b} ep er ea e =
    ratio a r.reserve_in r.reserve_out (rw (ep, ea, er) at e)

-- A share of what is held is removed, and for a balance within the supply and at most all of it the
-- expected amounts stay within the reserves.
pub expected_out_bounds :
    (i : LiquidityInput) (pool : PoolState) (r : Reserves)
    → i.pool ≡ some pool
    → form_reserves i pool ≡ some r
    → lp i ≤ pool.total_supply
    → i.remove_percent ≤ 100
    → (remove_amount i ≤ lp i)
      × ((expected_out i).a ≤ r.reserve_in)
      × ((expected_out i).b ≤ r.reserve_out)
unfolding expected_out remove_amount
expected_out_bounds i pool r ep er held part =
    let removed : remove_amount i ≤ lp i = remove_le (lp i) i.remove_percent part in
    elim (Bool-cases (pool.total_supply == 0)) [
      | inl none_held ↦
          (removed, rw (ep, none_held) (omega arith), rw (ep, none_held) (omega arith))
      | inr some_held ↦ (
        removed,
        rw (ep, some_held, er)
            (part_le (remove_amount i) pool.total_supply r.reserve_in
              (omega (arith, removed, held))),
        rw (ep, some_held, er)
            (part_le (remove_amount i) pool.total_supply r.reserve_out
              (omega (arith, removed, held))),
      )
    ]
