-- ===== src/Valuation/Tvl.antt =====
-- The value of a pool (apps/web/src/lib/valuation.ts).
use native.Mathlib.Nat.{mul-div_cancel_left}
use ark_swap.Prelude.{ℕ, ◌*◌, ◌<◌, ◌≡◌, ◌≢◌, ap, ◌∙◌, true, false, Option, none, some, List, arith}
use ark_swap.Valuation.{
  PoolToken, PricedPool, rescale, value_at, value_in_stable, add_values, pool_tvl,
}
use ark_swap.Valuation.Deepest.{offers_at, deepest, value_at-deepest}

stable_value :
    (pools : List PricedPool) (token : PoolToken) (amount : ℕ)
    → token.is_stable ≡ true
    → 0 < amount
    → value_in_stable pools token amount ≡ some (rescale amount token.decimals 6)
unfolding value_at
stable_value pools token amount h p = ground arith

-- A pool of a stablecoin and a token whose deepest price is that very pool is worth twice its stable
-- side, exactly.
pub pool_tvl_stable :
    (pools : List PricedPool) (p : PricedPool)
    → (p.token0).is_stable ≡ true
    → (p.token1).is_stable ≡ false
    → 0 < p.reserve0
    → 0 < p.reserve1
    → deepest none (offers_at 1 pools p.token1)
      ≡ some (record { reserve = p.reserve1; depth = rescale p.reserve0 (p.token0).decimals 6 })
    → pool_tvl pools p ≡ some (2 * rescale p.reserve0 (p.token0).decimals 6)
unfolding pool_tvl
pool_tvl_stable pools p stable other r0 r1 own =
    let v0 = stable_value pools p.token0 p.reserve0 stable r0 in
    let rate = (value_at-deepest 1 pools p.token1 p.reserve1 r1 other).0 in
    let v1 : value_in_stable pools p.token1 p.reserve1
        ≡ some (rescale p.reserve0 (p.token0).decimals 6) =
      rate ∙ rw own (ap some (mul-div_cancel_left _ r1)) in
    rw (v0, v1) (ap some (omega arith))

-- Whatever its tokens, a pool with an empty side is never unpriced: the empty side counts as priced.
pub pool_tvl_empty :
    (pools : List PricedPool) (p : PricedPool) → p.reserve0 ≡ 0 → pool_tvl pools p ≢ none
unfolding pool_tvl value_at
pool_tvl_empty pools p h e =
    let v0 : value_in_stable pools p.token0 p.reserve0 ≡ some 0 = ground arith in
    sum_ne_none (value_in_stable pools p.token1 p.reserve1) (rw v0 at e)
  where
    sum_ne_none : (o : Option ℕ) → ¬ (add_values (some 0) o ≡ none)
    sum_ne_none none k = cc
    sum_ne_none (some v) k = cc
