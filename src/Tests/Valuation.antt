-- ===== src/Tests/Valuation.antt =====
-- Two pools: KASH against a stablecoin, and a token against KASH.
use ark_swap.Prelude.{◌≡◌, refl, true, false, some, [], ◌∷◌, arith, codes, text_eq, lower, All}
use ark_swap.Valuation.{PoolToken, PricedPool, rescale, side_of, value_at}
use ark_swap.Valuation.Deepest.{Offer, deepest, IsDeepest, offers, offers_at, value_at-deepest}

abbrev stable : PoolToken
stable = record {
  address = codes "0xb";
  symbol = codes "mUSDC";
  name = codes "USD";
  decimals = 6;
  is_stable = true;
  known = true;
}

abbrev coin : PoolToken
coin = record {
  address = codes "0xA";
  symbol = codes "KASH";
  name = codes "Kash";
  decimals = 18;
  is_stable = false;
  known = true;
}

abbrev pool : PricedPool
pool = record {
  pair = codes "0xc";
  token0 = stable;
  token1 = coin;
  reserve0 = 5000;
  reserve1 = 2000;
}

abbrev empty_pool : PricedPool
empty_pool = record { pair = codes "0xd"; token0 = coin; token1 = coin; reserve0 = 0; reserve1 = 7 }

abbrev rate : Offer
rate = record { reserve = 2000; depth = 5000 }

value_at-deepest_example :
    (value_at 2 (pool ∷ []) coin 400 ≡ some 1000)
    × All (IsDeepest (some rate)) (offers_at 1 (pool ∷ []) coin)
unfolding deepest offers side_of value_at rescale text_eq lower
value_at-deepest_example = value_at-deepest 1 (pool ∷ []) coin 400 (omega arith) refl
