-- ===== src/Amm/Contract.antt =====
-- packages/contracts/contracts/periphery/libraries/ArkSwapLibrary.sol with SafeMath: the on-chain
-- formulas over 256-bit words, which packages/sdk/amm.ts mirrors.
use native.Mathlib.Nat.{mul-div_cancel, div-le_self}
use ark_swap.Prelude.{
  ℕ, ◌+◌, ◌-◌, ◌*◌, ◌/◌, ◌%◌, ◌^◌, ◌≤◌, ◌<◌, ◌≡◌, ◌↔◌, ◌&&◌, Result, ok, err, ◌>>=◌, ◌>>◌, require,
  arith, leb, ltb, ◌==◌, if◌then◌else◌,
}
use ark_swap.Amm.{get_amount_out, get_amount_in}
use ark_swap.Amm.Bounds.{get_amount_in-inv, div_bounds}

pub data Revert : Type 0 where
  add_overflow : Revert
  sub_underflow : Revert
  mul_overflow : Revert
  division_by_zero : Revert
  insufficient_input_amount : Revert
  insufficient_output_amount : Revert
  insufficient_liquidity : Revert

pub word : ℕ
word = 2 ^ 256

-- SafeMath: each operation wraps around, and a check of the wrapped value finds the overflow.
pub safe_add : ℕ → ℕ → Result Revert ℕ
safe_add x y = let z = (x + y) % word in if leb x z then ok z else err add_overflow

pub safe_sub : ℕ → ℕ → Result Revert ℕ
safe_sub x y = let z = (x + word - y) % word in if leb z x then ok z else err sub_underflow

pub safe_mul : ℕ → ℕ → Result Revert ℕ
safe_mul x y =
    if y == 0 then ok 0 else let z = (x * y) % word in if z / y == x then ok z else err mul_overflow

-- `/` of the language, which halts on a zero divisor.
pub divide : ℕ → ℕ → Result Revert ℕ
divide x y = if y == 0 then err division_by_zero else ok (x / y)

pub contract_get_amount_out : ℕ → ℕ → ℕ → Result Revert ℕ
contract_get_amount_out amount_in reserve_in reserve_out = do
  require (ltb 0 amount_in) insufficient_input_amount
  require (ltb 0 reserve_in && ltb 0 reserve_out) insufficient_liquidity
  amount_in_with_fee ← safe_mul amount_in 997
  numerator ← safe_mul amount_in_with_fee reserve_out
  scaled ← safe_mul reserve_in 1000
  denominator ← safe_add scaled amount_in_with_fee
  divide numerator denominator

pub contract_get_amount_in : ℕ → ℕ → ℕ → Result Revert ℕ
contract_get_amount_in amount_out reserve_in reserve_out = do
  require (ltb 0 amount_out) insufficient_output_amount
  require (ltb 0 reserve_in && ltb 0 reserve_out) insufficient_liquidity
  product ← safe_mul reserve_in amount_out
  numerator ← safe_mul product 1000
  left ← safe_sub reserve_out amount_out
  denominator ← safe_mul left 997
  quotient ← divide numerator denominator
  safe_add quotient 1

-- The overflow check of `mul`: a wrapped product does not divide back.
wrapped_product : (x y w : ℕ) → 0 < y → (x * y) % w / y ≡ x → (x * y) % w ≡ x * y
wrapped_product x y w p e =
    let least : x * y ≤ (x * y) % w = rw e at (div_bounds ((x * y) % w) y p).0 in omega arith

-- The checks of SafeMath find exactly the results that do not fit a word.
pub safe_mul_lem :
    (x y : ℕ) → safe_mul x y ≡ (if ltb (x * y) word then ok (x * y) else err mul_overflow)
unfolding safe_mul word
safe_mul_lem x y = ground (arith, wrapped_product x y word, λ (p : 0 < y). mul-div_cancel x p)

pub safe_add_lem :
    (x y : ℕ)
    → y < word
    → safe_add x y ≡ (if ltb (x + y) word then ok (x + y) else err add_overflow)
unfolding safe_add word
safe_add_lem x y h = ground arith

pub safe_sub_lem :
    (x y : ℕ)
    → x < word
    → y < word
    → safe_sub x y ≡ (if leb y x then ok (x - y) else err sub_underflow)
unfolding safe_sub word
safe_sub_lem x y h k = ground arith

word_gt_one : 1 < word
unfolding word
word_gt_one = omega arith

-- Whatever the contract quotes for an input, the client quotes too.
contract_get_amount_out_sound :
    (a r s : ℕ) {out : ℕ} → contract_get_amount_out a r s ≡ ok out → get_amount_out a r s ≡ ok out
unfolding contract_get_amount_out divide get_amount_out
contract_get_amount_out_sound a r s {out} h = ground (
  arith,
  safe_mul_lem a 997,
  safe_mul_lem (a * 997) s,
  safe_mul_lem r 1000,
  safe_add_lem (r * 1000) (a * 997),
)

-- With amounts and reserves of 112 bits no step overflows, and the contract quotes the same.
pub contract_get_amount_out_complete :
    (a r s : ℕ) {out : ℕ}
    → a < 2 ^ 112
    → r < 2 ^ 112
    → s < 2 ^ 112
    → get_amount_out a r s ≡ ok out
    → contract_get_amount_out a r s ≡ ok out
unfolding contract_get_amount_out divide word get_amount_out
contract_get_amount_out_complete a r s {out} ha hr hs h =
    let product : a * s < 2 ^ 224 = grind arith in
    ground (
      arith,
      safe_mul_lem a 997,
      safe_mul_lem (a * 997) s,
      safe_mul_lem r 1000,
      safe_add_lem (r * 1000) (a * 997),
    )

contract_get_amount_in_sound :
    (a r s : ℕ) {i : ℕ}
    → a < word
    → s < word
    → contract_get_amount_in a r s ≡ ok i
    → get_amount_in a r s ≡ ok i
unfolding contract_get_amount_in divide get_amount_in
contract_get_amount_in_sound a r s {i} ha hs h = ground (
  arith,
  safe_mul_lem r a,
  safe_mul_lem (r * a) 1000,
  safe_sub_lem s a,
  safe_mul_lem (s - a) 997,
  safe_add_lem (r * a * 1000 / ((s - a) * 997)) 1 word_gt_one,
)

pub contract_get_amount_in_complete :
    (a r s : ℕ) {i : ℕ}
    → r < 2 ^ 112
    → s < 2 ^ 112
    → get_amount_in a r s ≡ ok i
    → contract_get_amount_in a r s ≡ ok i
unfolding contract_get_amount_in divide word get_amount_in
contract_get_amount_in_complete a r s {i} hr hs h =
    let (pa, pr, below, e) = get_amount_in-inv a r s h in
    let product : r * a < 2 ^ 224 = grind arith in
    let small : r * a * 1000 / ((s - a) * 997) ≤ r * a * 1000 = div-le_self _ _ in
    ground (
      arith,
      safe_mul_lem r a,
      safe_mul_lem (r * a) 1000,
      safe_sub_lem s a,
      safe_mul_lem (s - a) 997,
      safe_add_lem (r * a * 1000 / ((s - a) * 997)) 1 word_gt_one,
    )

-- For an amount and reserves of 112 bits the contract quotes an output exactly when the client does, and
-- the same one: no step overflows a word.
pub contract_get_amount_out_iff :
    (a r s out : ℕ)
    → a < 2 ^ 112
    → r < 2 ^ 112
    → s < 2 ^ 112
    → (contract_get_amount_out a r s ≡ ok out) ↔ (get_amount_out a r s ≡ ok out)
contract_get_amount_out_iff a r s out ha hr hs =
    (contract_get_amount_out_sound a r s, contract_get_amount_out_complete a r s ha hr hs)

-- For an amount of a word and reserves of 112 bits the contract quotes an input exactly when the client
-- does, and the same one, although only the client tests the output against the reserve.
pub contract_get_amount_in_iff :
    (a r s i : ℕ)
    → a < 2 ^ 256
    → r < 2 ^ 112
    → s < 2 ^ 112
    → (contract_get_amount_in a r s ≡ ok i) ↔ (get_amount_in a r s ≡ ok i)
unfolding word
contract_get_amount_in_iff a r s i ha hr hs = (
  contract_get_amount_in_sound a r s ha (omega arith),
  contract_get_amount_in_complete a r s hr hs,
)
