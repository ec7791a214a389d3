-- ===== src/Tests/PoolList.antt =====
-- Pools, positions and totals: a pool of a listed stablecoin and a token that the list does not know.
use ark_swap.Prelude.{some}
use ark_swap.Tokens.{wkash_token}
use ark_swap.PoolList.{PoolRow, listed_as, read_as, no_read}
use ark_swap.Stats.{PoolSummary}
use ark_swap.Tests.Amm.{usdc, wkash, factory}
use ark_swap.Tests.Tokens.{usdc_token}

abbrev row : PoolRow
row = record {
  priced = record {
    pair = factory;
    token0 = read_as no_read wkash;
    token1 = listed_as usdc_token usdc;
    reserve0 = 1000;
    reserve1 = 3000;
  };
  total_supply = 500;
  tvl = some 6000;
}

abbrev summary : PoolSummary
summary = record {
  pair = factory;
  token0 = some (wkash_token wkash);
  token1 = some usdc_token;
  reserve0 = 1000;
  reserve1 = 3000;
}
