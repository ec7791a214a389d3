-- ===== src/Liquidity.antt =====
-- apps/web/src/components/LiquidityCard.tsx: the amounts of the liquidity form and the calls of the
-- router that it sends. What the hooks return to a rendering is an argument, as are the deadline, `none`
-- where `deadlineFromNow` throws, the permit that the wallet signed and `parseAmount(inputA, tokenB.decimals)`.
pub mod Added
pub mod Button
pub mod Clicks
pub mod Expected
pub mod Removal
pub mod Sent
pub mod View
pub mod Shown
use ark_swap.Prelude.{
  ℕ, ◌*◌, ◌/◌, Bool, true, false, not, ◌&&◌, ◌||◌, Option, none, some, [], Text, is_set, get_or,
  leb, ltb, ◌==◌, if◌then◌else◌, is_known, Result, ok, err, ◌>>=?◌, option_map,
}
use ark_swap.Prelude.Int.{ℤ, pos}
use ark_swap.Tokens.{Token, routed_address}
use ark_swap.Amm.{AmmError, quote, minimum_received}
use ark_swap.Pools.{PoolState, Reserves, orient_reserves}

pub record LiquidityInput : Type 0 where
  pub token_a : Token
  pub token_b : Token
  pub wkash : Option Text
  pub router : Option Text
  pub address : Option Text
  pub pool : Option PoolState
  pub amount_a : Option ℕ
  pub parsed_b : Option ℕ
  pub lp_balance : Option ℕ
  pub remove_percent : ℕ
  pub slippage_bps : ℕ
  pub deadline : Option ℕ
  pub fee_on_transfer : Bool
  pub lp_needs_approval : Bool
  pub permit_fallback : Bool

pub record Amounts : Type 0 where
  pub a : ℕ
  pub b : ℕ

abbrev pub to_option : Result AmmError ℕ → Option ℕ
to_option (ok a) = some a
to_option (err e) = none

module _ (i : LiquidityInput) where
  -- The reserves of the pool, in the order of the tokens of the form.
  abbrev pub form_reserves : PoolState → Option Reserves
  form_reserves pool =
      if not (is_set (routed_address i.wkash i.token_a))
      then none
      else some (orient_reserves pool (get_or (routed_address i.wkash i.token_a) []))

  -- `amountB`.
  unfoldable pub amount_b : Option ℕ
  amount_b = i.pool >>=? λ pool. i.amount_a >>=? λ amount_a.
      if leb amount_a 0
      then none
      else form_reserves pool >>=? λ r.
          if leb r.reserve_in 0 || leb r.reserve_out 0
          then none
          else to_option (quote amount_a r.reserve_in r.reserve_out)

  abbrev pub lp : ℕ
  lp = get_or i.lp_balance 0

  unfoldable pub remove_amount : ℕ
  remove_amount = (lp * i.remove_percent) / 100

  -- `value * (BPS - slippageBps) / BPS`, the formula of `minimumReceived`.
  abbrev pub with_slippage : ℕ → ℤ
  with_slippage value = minimum_received value i.slippage_bps

  unfoldable pub expected_out : Amounts
  expected_out = elim i.pool [
    | none ↦ record { a = 0; b = 0 }
    | some pool ↦
        if pool.total_supply == 0 then record { a = 0; b = 0 } else elim (form_reserves pool) [
          | none ↦ record { a = 0; b = 0 }
          | some r ↦ record {
            a = (remove_amount * r.reserve_in) / pool.total_supply;
            b = (remove_amount * r.reserve_out) / pool.total_supply;
          }
        ]
  ]

-- The calls that add and remove liquidity, named by the router's functions; `signed` is the permit.
pub record Signature : Type 0 where
  pub v : ℕ
  pub r : Text
  pub s : Text

pub data LiquidityCall : Type 0 where
  add_liquidity_eth :
      (token : Text) (token_amount : ℕ) (token_min : ℤ) (kash_min : ℤ) (to : Text) (deadline : ℕ)
      (value : ℕ)
      → LiquidityCall
  add_liquidity :
      (token_a : Text) (token_b : Text) (amount_a : ℕ) (amount_b : ℕ) (min_a : ℤ) (min_b : ℤ)
      (to : Text) (deadline : ℕ)
      → LiquidityCall
  remove_liquidity_eth :
      (fee_on_transfer : Bool) (token : Text) (liquidity : ℕ) (token_min : ℤ) (kash_min : ℤ)
      (to : Text) (deadline : ℕ) (signed : Option Signature)
      → LiquidityCall
  remove_liquidity :
      (token_a : Text) (token_b : Text) (liquidity : ℕ) (min_a : ℤ) (min_b : ℤ) (to : Text)
      (deadline : ℕ) (signed : Option Signature)
      → LiquidityCall

pub data NativeSide : Type 0 where
  side_a : NativeSide
  side_b : NativeSide
  neither : NativeSide

module _ (i : LiquidityInput) where
  unfoldable pub native_side : NativeSide
  native_side =
      if (i.token_a).is_native then side_a else if (i.token_b).is_native then side_b else neither

  -- `isFirstDeposit ? 0n : withSlippage(value)`.
  abbrev pub deposit_min : ℕ → ℤ
  deposit_min value = elim i.pool [ none ↦ pos 0 | some p ↦ with_slippage i value ]

  abbrev pub deposit_b : ℕ
  deposit_b = get_or (elim (amount_b i) [ some b ↦ some b | none ↦ i.parsed_b ]) 0

  abbrev pub add_native : Token → ℕ → ℕ → Text → Option LiquidityCall
  add_native token token_amount kash_amount to =
      if not (is_set token.address)
      then none
      else some (
          add_liquidity_eth (get_or token.address []) token_amount (deposit_min token_amount)
            (deposit_min kash_amount) to (get_or i.deadline 0) kash_amount)

  abbrev pub add_tokens : ℕ → ℕ → Text → Option LiquidityCall
  add_tokens amount_a amount_b to =
      if not (is_set (i.token_a).address) || not (is_set (i.token_b).address)
      then none
      else some (
          add_liquidity (get_or (i.token_a).address []) (get_or (i.token_b).address []) amount_a
            amount_b (deposit_min amount_a) (deposit_min amount_b) to (get_or i.deadline 0))

  unfoldable pub add_by : NativeSide → ℕ → ℕ → Text → Option LiquidityCall
  add_by side_a amount_a amount_b to = add_native i.token_b amount_b amount_a to
  add_by side_b amount_a amount_b to = add_native i.token_a amount_a amount_b to
  add_by neither amount_a amount_b to = add_tokens amount_a amount_b to

  -- The call that `addLiquidity` sends, `none` where it returns before or throws.
  unfoldable pub submit_add : Option LiquidityCall
  submit_add =
      if not (is_set i.router) || not (is_set i.address)
      then none
      else i.amount_a >>=? λ amount_a.
          if leb amount_a 0 || not (is_known i.deadline)
          then none
          else add_by native_side amount_a deposit_b (get_or i.address [])

  -- Whether `addLiquidity` throws: it is past its guards, and the deadline is no whole number.
  abbrev pub add_throws : Bool
  add_throws =
      is_set i.router
      && is_set i.address
      && (elim i.amount_a [ none ↦ false | some a ↦ not (leb a 0) ])
      && not (is_known i.deadline)
