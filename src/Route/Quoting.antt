-- ===== src/Route/Quoting.antt =====
-- The pools that apps/web/src/hooks/useSwapRoute.ts read, and its quotes along a path of hops.
pub mod Bounds
pub mod RoundTrip
use ark_swap.Prelude.{
  ℕ, ◌-◌, ◌*◌, ◌/◌, Bool, ◌&&◌, ◌||◌, Option, none, some, List, [], ◌∷◌, Text, text_eq, lower, ltb,
  leb, ◌==◌, if◌then◌else◌, Result, ok, err, ◌>>=◌, reverse,
}
use ark_swap.Amm.{AmmError, get_amount_out, get_amount_in}

pub record Hop : Type 0 where
  pub pair : Text
  pub token_in : Text
  pub token_out : Text

pub record PoolReserves : Type 0 where
  pub token0 : Text
  pub reserve0 : ℕ
  pub reserve1 : ℕ

abbrev pub Pools : Type 0
Pools = List (Text × PoolReserves)

-- `pools.get(key)` and `pools.has(key)`.
unfoldable pub get_pool : Text → Pools → Option PoolReserves
get_pool key [] = none
get_pool key ((k, p) ∷ pools) = if text_eq k key then some p else get_pool key pools

-- `results` holds what the read returned for each address, a failed read as `none`.
unfoldable pub read_pools : List Text → List (Option (ℕ × ℕ) × Option Text) → Pools
read_pools (p ∷ ps) ((some (r0, r1), some t0) ∷ results) =
    if r0 == 0 || r1 == 0
    then read_pools ps results
    else (lower p, record { token0 = t0; reserve0 = r0; reserve1 = r1 }) ∷ read_pools ps results
read_pools (p ∷ ps) (_ ∷ results) = read_pools ps results
read_pools _ _ = []

pub record Oriented : Type 0 where
  pub reserve_in : ℕ
  pub reserve_out : ℕ

unfoldable pub oriented : PoolReserves → Text → Oriented
oriented pool token_in =
    let zero_is_in = text_eq (lower pool.token0) (lower token_in) in
    record {
      reserve_in = if zero_is_in then pool.reserve0 else pool.reserve1;
      reserve_out = if zero_is_in then pool.reserve1 else pool.reserve0;
    }

-- What the loops throw: an error of the library math, or the read of a pool that is not there.
pub data QuoteError : Type 0 where
  amm : AmmError → QuoteError
  missing_pool : QuoteError

abbrev pub lift_amm : Result AmmError ℕ → Result QuoteError ℕ
lift_amm (ok a) = ok a
lift_amm (err e) = err (amm e)

-- The reserves of a hop, in its direction.
unfoldable pub leg : Pools → Hop → Result QuoteError Oriented
leg pools hop = elim (get_pool (lower hop.pair) pools) [
  | none ↦ err missing_pool
  | some pool ↦ ok (oriented pool hop.token_in)
]

-- The variables of the two loops; the fraction is the mid price of the hops that were walked.
pub record Walk : Type 0 where
  pub amount : ℕ
  pub ideal_num : ℕ
  pub ideal_den : ℕ

unfoldable pub step_in : Pools → Walk → Hop → Result QuoteError Walk
step_in pools w hop = do
  r ← leg pools hop
  amount ← lift_amm (get_amount_out w.amount r.reserve_in r.reserve_out)
  ok (record {
    amount = amount;
    ideal_num = w.ideal_num * r.reserve_out;
    ideal_den = w.ideal_den * r.reserve_in;
  })

unfoldable pub step_out : Pools → Walk → Hop → Result QuoteError Walk
step_out pools w hop = do
  r ← leg pools hop
  amount ← lift_amm (get_amount_in w.amount r.reserve_in r.reserve_out)
  ok (record {
    amount = amount;
    ideal_num = w.ideal_num * r.reserve_in;
    ideal_den = w.ideal_den * r.reserve_out;
  })

unfoldable pub walk_in : Pools → Walk → List Hop → Result QuoteError Walk
walk_in pools w [] = ok w
walk_in pools w (hop ∷ hops) = do next ← step_in pools w hop; walk_in pools next hops

-- `hops` in the order of the loop, the last hop of the path first.
unfoldable pub walk_out : Pools → Walk → List Hop → Result QuoteError Walk
walk_out pools w [] = ok w
walk_out pools w (hop ∷ hops) = do next ← step_out pools w hop; walk_out pools next hops

abbrev pub start : ℕ → Walk
start amount = record { amount = amount; ideal_num = amount; ideal_den = 1 }

pub record Quote : Type 0 where
  pub amount_in : ℕ
  pub amount_out : ℕ
  pub impact_bps : ℕ

abbrev pub mid_price : Walk → ℕ
mid_price w = if ltb 0 w.ideal_den then w.ideal_num / w.ideal_den else 0

abbrev pub shortfall_bps : ℕ → ℕ → ℕ
shortfall_bps ideal amount =
    if ltb 0 ideal && ltb amount ideal then ((ideal - amount) * 10_000) / ideal else 0

unfoldable pub quote_exact_in : List Hop → Pools → ℕ → Result QuoteError (Option Quote)
quote_exact_in hops pools amount_in = do
  w ← walk_in pools (start amount_in) hops
  ok (
      if leb w.amount 0
      then none
      else some (record {
        amount_in = amount_in;
        amount_out = w.amount;
        impact_bps = shortfall_bps (mid_price w) w.amount;
      }))

abbrev pub premium_bps : ℕ → ℕ → ℕ
premium_bps ideal_in amount =
    if ltb ideal_in amount && ltb 0 amount then ((amount - ideal_in) * 10_000) / amount else 0

unfoldable pub quote_exact_out : List Hop → Pools → ℕ → Result QuoteError (Option Quote)
quote_exact_out hops pools amount_out = do
  w ← walk_out pools (start amount_out) (reverse hops)
  ok (
      if leb w.amount 0
      then none
      else some (record {
        amount_in = w.amount;
        amount_out = amount_out;
        impact_bps = premium_bps (mid_price w) w.amount;
      }))
