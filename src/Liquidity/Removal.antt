-- ===== src/Liquidity/Removal.antt =====
-- `removeLiquidity` of apps/web/src/components/LiquidityCard.tsx. The signature that the wallet returned
-- is an argument, `none` where it declined.
use ark_swap.Prelude.{
  Bool, true, false, not, ◌&&◌, ◌||◌, Option, none, some, [], Text, is_set, get_or, leb,
  if◌then◌else◌, is_known,
}
use ark_swap.Prelude.Int.{ℤ}
use ark_swap.Tokens.{Token}
use ark_swap.Liquidity.{
  LiquidityInput, LiquidityCall, NativeSide, Signature, remove_liquidity, remove_liquidity_eth,
  native_side, side_a, side_b, neither, remove_amount, with_slippage, expected_out,
}

-- What the click does: nothing, the exception of `deadlineFromNow`, the switch to the approve button, or a call of the router.
pub data Removal : Type 0 where
  nothing : Removal
  throws : Removal
  falls_back : Removal
  sends : LiquidityCall → Removal

module _ (i : LiquidityInput) where
  abbrev pub use_permit : Bool
  use_permit = i.lp_needs_approval && not i.permit_fallback

  abbrev pub remove_native : Token → ℤ → ℤ → Text → Option Signature → Removal
  remove_native token token_min kash_min to signed =
      if not (is_set token.address)
      then nothing
      else sends (
          remove_liquidity_eth i.fee_on_transfer (get_or token.address []) (remove_amount i)
            token_min kash_min to (get_or i.deadline 0) signed)

  abbrev pub remove_tokens : ℤ → ℤ → Text → Option Signature → Removal
  remove_tokens min_a min_b to signed =
      if not (is_set (i.token_a).address) || not (is_set (i.token_b).address)
      then nothing
      else sends (
          remove_liquidity (get_or (i.token_a).address []) (get_or (i.token_b).address [])
            (remove_amount i) min_a min_b to (get_or i.deadline 0) signed)

  -- The part after the permit is dealt with.
  unfoldable pub remove_by : NativeSide → ℤ → ℤ → Text → Option Signature → Removal
  remove_by side_a min_a min_b to signed = remove_native i.token_b min_b min_a to signed
  remove_by side_b min_a min_b to signed = remove_native i.token_a min_a min_b to signed
  remove_by neither min_a min_b to signed = remove_tokens min_a min_b to signed

  abbrev pub remove_with : Text → Option Signature → Removal
  remove_with to signed =
      remove_by (native_side i) (with_slippage i (expected_out i).a)
        (with_slippage i (expected_out i).b) to signed

  abbrev pub has_pool : Bool
  has_pool = elim i.pool [ none ↦ false | some p ↦ true ]

  unfoldable pub submit_remove : Option Signature → Removal
  submit_remove signature =
      if not (is_set i.router) || not (is_set i.address) || not has_pool || leb (remove_amount i) 0
      then nothing
      else if not (is_known i.deadline)
      then throws
      else if use_permit
      then elim signature [
        | none ↦ falls_back
        | some sig ↦ remove_with (get_or i.address []) (some sig)
      ]
      else if i.lp_needs_approval
      then nothing
      else remove_with (get_or i.address []) none
