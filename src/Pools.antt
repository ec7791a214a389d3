-- ===== src/Pools.antt =====
-- apps/web/src/lib/pools.ts and apps/web/src/hooks/usePoolState.ts: the state of one pool, read at the
-- derived pair address. What the batched read returned is an argument, a failed read as `none`.
pub mod Oriented
pub mod State
use ark_swap.Prelude.{
  ℕ, ◌*◌, ◌/◌, Bool, true, false, not, ◌&&◌, Option, none, some, [], Text, codes, text_eq, lower,
  is_set, get_or, ◌==◌, if◌then◌else◌, Result, ok, err, ◌>>=◌, ◌>>=?◌, option_map,
}
use ark_swap.PairAddress.{Viem, AddressError, compute_pair_address}
use ark_swap.Tokens.{Token, routed_address}

pub record PoolState : Type 0 where
  pub pair : Text
  pub token0 : Text
  pub token1 : Text
  pub reserve0 : ℕ
  pub reserve1 : ℕ
  pub total_supply : ℕ
  pub exists : Bool

pub record Reserves : Type 0 where
  pub reserve_in : ℕ
  pub reserve_out : ℕ

unfoldable pub orient_reserves : PoolState → Text → Reserves
orient_reserves pool token_in =
    if text_eq (lower token_in) (lower pool.token0)
    then record { reserve_in = pool.reserve0; reserve_out = pool.reserve1 }
    else record { reserve_in = pool.reserve1; reserve_out = pool.reserve0 }

unfoldable pub pool_share_bps : ℕ → ℕ → ℕ
pool_share_bps lp_balance total_supply =
    if total_supply == 0 then 0 else (lp_balance * 10_000) / total_supply

-- The results of `getPair`, `getReserves`, `token0`, `token1` and `totalSupply`.
pub record PoolRead : Type 0 where
  pub registered : Option Text
  pub reserves : Option (ℕ × ℕ)
  pub token0 : Option Text
  pub token1 : Option Text
  pub total_supply : Option ℕ

abbrev pub zero_address : Text
zero_address = codes "0x0000000000000000000000000000000000000000"

-- `a && b && FACTORY && a.toLowerCase() !== b.toLowerCase()`.
unfoldable pub is_enabled : Option Text → Option Text → Option Text → Bool
is_enabled factory a b =
    is_set a
    && is_set b
    && is_set factory
    && not (text_eq (lower (get_or a [])) (lower (get_or b [])))

-- The routed address of a token that may not be chosen yet.
abbrev pub routed : Option Text → Option Token → Option Text
routed wkash token = token >>=? routed_address wkash

unfoldable pub derive :
    Viem → Option Text → Option Text → Option Text → Result AddressError (Option Text)
derive v factory a b = if not (is_enabled factory a b) then ok none else do
  pair ← compute_pair_address v (get_or factory []) (get_or a []) (get_or b [])
  ok (some pair)

pub record PoolResult : Type 0 where
  pub pool : Option PoolState
  pub derived : Option Text
  pub derivation_mismatch : Bool

-- `registered && registered !== '0x0…0'`.
abbrev pub is_registered : PoolRead → Bool
is_registered r = is_set r.registered && not (text_eq (get_or r.registered []) zero_address)

abbrev pub pool_at : Text → PoolRead → Option PoolState
pool_at pair r = r.reserves >>=? λ reserves.
    if not (is_set r.token0 && is_set r.token1)
    then none
    else option_map
        (λ total_supply. record {
          pair = pair;
          token0 = get_or r.token0 [];
          token1 = get_or r.token1 [];
          reserve0 = reserves.0;
          reserve1 = reserves.1;
          total_supply = total_supply;
          exists = true;
        })
        r.total_supply

abbrev pub mismatches : Text → PoolRead → Bool
mismatches pair r = is_registered r && not (text_eq (lower (get_or r.registered [])) (lower pair))

-- The branch on the results, where `derived` is an address and the read has returned.
unfoldable pub check_pool : Text → PoolRead → PoolResult
check_pool pair r =
    if mismatches pair r
    then record { pool = none; derived = some pair; derivation_mismatch = true }
    else if is_registered r
    then record { pool = pool_at pair r; derived = some pair; derivation_mismatch = false }
    else record { pool = none; derived = some pair; derivation_mismatch = false }

unfoldable pub use_pool_state :
    Viem
    → Option Text
    → Option Text
    → Option Token
    → Option Token
    → Option PoolRead
    → Result AddressError PoolResult
use_pool_state v factory wkash token_a token_b results = do
  derived ← derive v factory (routed wkash token_a) (routed wkash token_b)
  ok (elim derived [
    | none ↦ record { pool = none; derived = none; derivation_mismatch = false }
    | some pair ↦ elim results [
      | none ↦ record { pool = none; derived = some pair; derivation_mismatch = false }
      | some r ↦ check_pool pair r
    ]
  ])
