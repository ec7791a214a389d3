-- ===== src/PoolList.antt =====
-- apps/web/src/hooks/usePools.ts and apps/web/src/hooks/usePositions.ts: all pools of the factory with
-- their tokens, and the positions of the connected wallet. What the batched reads returned is an
-- argument, a failed read as `none`.
pub mod Resolved
pub mod Shares
pub mod Ranked
use ark_swap.Prelude.{
  ℕ, zero, suc, ◌-◌, ◌*◌, ◌/◌, Bool, true, false, not, ◌&&◌, ◌||◌, Option, none, some, List, [],
  ◌∷◌, ◌++◌, map, Text, codes, text_eq, lower, is_set, is_empty, get_or, length, take, ltb, ◌==◌,
  if◌then◌else◌, ◌>>=?◌, option_map,
}
use ark_swap.Prelude.Sorting.{sort}
use ark_swap.Tokens.{Token, token_by_address}
use ark_swap.PairAddress.{slice_last}
use ark_swap.Valuation.{PoolToken, PricedPool, value_in_stable, add_values, pool_tvl}

-- The results of `token0`, `token1`, `getReserves` and `totalSupply` of one pair.
pub record PairRead : Type 0 where
  pub pair : Text
  pub token0 : Option Text
  pub token1 : Option Text
  pub reserves : Option (ℕ × ℕ)
  pub total_supply : Option ℕ

-- The results of `symbol`, `decimals` and `name` of one token.
pub record TokenRead : Type 0 where
  pub symbol : Option Text
  pub decimals : Option ℕ
  pub name : Option Text

abbrev pub no_read : TokenRead
no_read = record { symbol = none; decimals = none; name = none }

pub record PoolRow : Type 0 where
  pub priced : PricedPool
  pub total_supply : ℕ
  pub tvl : Option ℕ

-- `set.set(a.toLowerCase(), a)`: a known key keeps its place and takes the new value.
abbrev pub set_unknown : Text → List Text → List Text
set_unknown a [] = a ∷ []
set_unknown a (u ∷ us) = if text_eq (lower u) (lower a) then a ∷ us else u ∷ set_unknown a us

abbrev pub note_token : List Token → Option Text → List Text → List Text
note_token tokens address us = elim address [
  | none ↦ us
  | some a ↦
      if is_empty a
      then us
      else elim (token_by_address tokens (some a)) [ none ↦ set_unknown a us | some t ↦ us ]
]

-- `unknown`.
unfoldable pub unknown_tokens : List Token → List PairRead → List Text → List Text
unknown_tokens tokens [] us = us
unknown_tokens tokens (d ∷ ds) us =
    unknown_tokens tokens ds (note_token tokens d.token1 (note_token tokens d.token0 us))

-- `meta` at the index of the address among the unknown ones.
unfoldable pub read_of : Text → List Text → List TokenRead → TokenRead
read_of a (u ∷ us) (r ∷ rs) = if text_eq (lower u) (lower a) then r else read_of a us rs
read_of a _ _ = no_read

abbrev pub shorten : Text → Text
shorten address = take 6 address ++ codes "…" ++ slice_last 4 address

abbrev pub listed_as : Token → Text → PoolToken
listed_as t address = record {
  address = address;
  symbol = t.symbol;
  name = t.name;
  decimals = t.decimals;
  is_stable = t.is_stable;
  known = true;
}

abbrev pub read_as : TokenRead → Text → PoolToken
read_as r address =
    let symbol = get_or r.symbol (shorten address) in
    record {
      address = address;
      symbol = symbol;
      name = get_or r.name symbol;
      decimals = get_or r.decimals 18;
      is_stable = false;
      known = false;
    }

module _ (tokens : List Token) (unknown : List Text) (metas : List TokenRead) where
  -- `resolve` of a text address.
  unfoldable pub resolve_address : Text → PoolToken
  resolve_address a = elim (token_by_address tokens (some a)) [
    | none ↦ read_as (read_of a unknown metas) a
    | some t ↦
        if is_set t.address
        then listed_as t (get_or t.address [])
        else read_as (read_of a unknown metas) a
  ]

  -- `none` for a failed read.
  unfoldable pub resolve : Option Text → Option PoolToken
  resolve none = none
  resolve (some a) = if is_empty a then none else some (resolve_address a)

  abbrev pub raw_row : PairRead → Option (PricedPool × ℕ)
  raw_row d = resolve d.token0 >>=? λ t0. resolve d.token1 >>=? λ t1. d.reserves >>=? λ r.
      d.total_supply >>=? λ supply.
      some
        (record { pair = d.pair; token0 = t0; token1 = t1; reserve0 = r.0; reserve1 = r.1 }, supply)

  -- `raw`.
  unfoldable pub raw_rows : List PairRead → List (PricedPool × ℕ)
  raw_rows [] = []
  raw_rows (d ∷ ds) = elim (raw_row d) [ none ↦ raw_rows ds | some row ↦ row ∷ raw_rows ds ]

  abbrev pub pool_row : List PricedPool → PricedPool × ℕ → PoolRow
  pool_row all (p, supply) = record { priced = p; total_supply = supply; tvl = pool_tvl all p }

  unfoldable pub pool_rows : List PairRead → List PoolRow
  pool_rows ds = let raw = raw_rows ds in map (pool_row (map (λ row. row.0) raw)) raw

pub record Position : Type 0 where
  pub row : PoolRow
  pub lp_balance : ℕ
  pub share_bps : ℕ
  pub amount0 : ℕ
  pub amount1 : ℕ
  pub value : Option ℕ

module _ (pools : List PricedPool) where
  abbrev pub position_of : PoolRow → ℕ → Position
  position_of p lp =
      let amount0 = (lp * (p.priced).reserve0) / p.total_supply in
      let amount1 = (lp * (p.priced).reserve1) / p.total_supply in
      record {
        row = p;
        lp_balance = lp;
        share_bps = (lp * 10_000) / p.total_supply;
        amount0 = amount0;
        amount1 = amount1;
        value =
            add_values (value_in_stable pools (p.priced).token0 amount0)
              (value_in_stable pools (p.priced).token1 amount1);
      }

  -- The balances are read in the order of the pools.
  unfoldable pub positions : List PoolRow → List (Option ℕ) → List Position
  positions (p ∷ ps) (some lp ∷ balances) =
      let rest = positions ps balances in
      if lp == 0 || p.total_supply == 0 then rest else position_of p lp ∷ rest
  positions (p ∷ ps) (none ∷ balances) = positions ps balances
  positions _ _ = []

abbrev pub value_or_zero : Position → ℕ
value_or_zero p = get_or p.value 0

-- The comparison is never zero, so the order of positions of equal value is the engine's; here the later
-- one comes first.
unfoldable pub sorted_positions : List PricedPool → List PoolRow → List (Option ℕ) → List Position
unfolding positions
sorted_positions pools rows balances =
    sort (λ a b. not (ltb (value_or_zero a) (value_or_zero b))) (positions pools rows balances)
