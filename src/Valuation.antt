-- ===== src/Valuation.antt =====
-- apps/web/src/lib/valuation.ts: the value of tokens and pools in stablecoins, read from reserves.
-- `formatUsd` prints a float and is left out.
pub mod Deepest
pub mod Scale
pub mod Tvl
use ark_swap.Prelude.{
  ℕ, zero, suc, ◌+◌, ◌-◌, ◌*◌, ◌/◌, ◌^◌, Bool, true, false, ◌||◌, Option, none, some, List, [], ◌∷◌,
  Text, text_eq, lower, ltb, ◌==◌, if◌then◌else◌,
}

abbrev pub stable_decimals : ℕ
stable_decimals = 6

pub record PoolToken : Type 0 where
  pub address : Text
  pub symbol : Text
  pub name : Text
  pub decimals : ℕ
  pub is_stable : Bool
  pub known : Bool

pub record PricedPool : Type 0 where
  pub pair : Text
  pub token0 : PoolToken
  pub token1 : PoolToken
  pub reserve0 : ℕ
  pub reserve1 : ℕ

unfoldable pub rescale : ℕ → ℕ → ℕ → ℕ
rescale raw from to =
    if from == to
    then raw
    else if ltb to from
    then raw / 10 ^ (from - to)
    else raw * 10 ^ (to - from)

pub record Side : Type 0 where
  pub other : PoolToken
  pub reserve_token : ℕ
  pub reserve_other : ℕ

unfoldable pub side_of : PricedPool → Text → Option Side
side_of p token =
    let t = lower token in
    if text_eq (lower (p.token0).address) t
    then some (record { other = p.token1; reserve_token = p.reserve0; reserve_other = p.reserve1 })
    else if text_eq (lower (p.token1).address) t
    then some (record { other = p.token0; reserve_token = p.reserve1; reserve_other = p.reserve0 })
    else none

-- `best` and `bestDepth` of the loop.
pub record BestPrice : Type 0 where
  pub best : Option ℕ
  pub best_depth : ℕ

abbrev pub is_unset : Option ℕ → Bool
is_unset none = true
is_unset (some _) = false

-- The loop over the pools, where `value_of` values the other side one level further down.
module _ (value_of : PoolToken → ℕ → Option ℕ) (token : PoolToken) (amount : ℕ) where
  unfoldable pub price_side : BestPrice → Side → BestPrice
  price_side b s =
      if s.reserve_token == 0 || s.reserve_other == 0
      then b
      else elim (value_of s.other s.reserve_other) [
        | none ↦ b
        | some v ↦
            if is_unset b.best || ltb b.best_depth v
            then record { best = some ((amount * v) / s.reserve_token); best_depth = v }
            else b
      ]

  unfoldable pub price_pools : BestPrice → List PricedPool → BestPrice
  price_pools b [] = b
  price_pools b (p ∷ ps) =
      price_pools (elim (side_of p token.address) [ none ↦ b | some s ↦ price_side b s ]) ps

abbrev pub no_price : BestPrice
no_price = record { best = none; best_depth = 0 }

-- `levels` is `2 - depth`: at depth 2 a token that is no stablecoin is unpriced.
unfoldable pub value_at : ℕ → List PricedPool → PoolToken → ℕ → Option ℕ
value_at zero pools token amount =
    if amount == 0
    then some 0
    else if token.is_stable
    then some (rescale amount token.decimals stable_decimals)
    else none
value_at (suc levels) pools token amount =
    if amount == 0
    then some 0
    else if token.is_stable
    then some (rescale amount token.decimals stable_decimals)
    else (price_pools (value_at levels pools) token amount no_price pools).best

abbrev pub value_in_stable : List PricedPool → PoolToken → ℕ → Option ℕ
value_in_stable = value_at 2

-- Both sides priced, one side priced, or none.
abbrev pub add_values : Option ℕ → Option ℕ → Option ℕ
add_values (some v0) (some v1) = some (v0 + v1)
add_values (some v0) none = some (v0 * 2)
add_values none (some v1) = some (v1 * 2)
add_values none none = none

unfoldable pub pool_tvl : List PricedPool → PricedPool → Option ℕ
pool_tvl pools p =
    add_values (value_in_stable pools p.token0 p.reserve0)
      (value_in_stable pools p.token1 p.reserve1)
