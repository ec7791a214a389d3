-- ===== src/Liquidity/View.antt =====
-- What apps/web/src/components/LiquidityCard.tsx renders: the field of the matched deposit, the details of a
-- removal and of the pool, and the alerts. `formatUnits` of viem is the parameter `format_units`, the base
-- of the explorer's addresses is `explorer`.
use ark_swap.Prelude.{
  ℕ, Bool, true, false, not, ◌&&◌, Option, none, some, [], ◌++◌, Text, codes, ltb, take,
  if◌then◌else◌, option_map,
}
use ark_swap.Prelude.Int.{ℤ}
use ark_swap.Tokens.{Token}
use ark_swap.Pools.{Reserves, pool_share_bps}
use ark_swap.Wallet.{explorer_address_url}
use ark_swap.Format.{format_amount, format_signed, format_bps, shorten_address}
use ark_swap.Liquidity.{
  LiquidityInput, amount_b, remove_amount, expected_out, with_slippage, form_reserves, lp,
}
use ark_swap.Liquidity.Removal.{has_pool}

pub data DepositLabel : Type 0 where
  deposit_at_ratio : DepositLabel
  deposit : DepositLabel
  deposit_sets_price : DepositLabel

pub record DepositField : Type 0 where
  pub label : DepositLabel
  pub read_only : Bool
  pub loading : Bool
  pub value : Text

abbrev pub is_positive : Option ℕ → Bool
is_positive none = false
is_positive (some n) = ltb 0 n

abbrev pub is_known : Option ℕ → Bool
is_known none = false
is_known (some n) = true

pub record RemovalDetails : Type 0 where
  pub receive : Text
  pub minimum : Text

pub record PoolDetails : Type 0 where
  pub pair : Text
  pub link : Option Text
  pub share : Text
  pub reserves : Text

module _ (format_units : ℕ → ℕ → Text) (i : LiquidityInput) where
  abbrev pub matched : Option ℕ → Text
  matched none = []
  matched (some b) = format_amount format_units b (i.token_b).decimals 6

  -- The second field of a deposit, of what is typed into the first.
  unfoldable pub deposit_field : Bool → Text → DepositField
  deposit_field pool_loading input = record {
    label =
        if has_pool i
        then deposit_at_ratio
        else if pool_loading
        then deposit
        else deposit_sets_price;
    read_only = has_pool i;
    loading = has_pool i && is_positive i.amount_a && not (is_known (amount_b i));
    value = if has_pool i then matched (amount_b i) else input;
  }

  abbrev pub with_symbol : ℕ → Token → Text
  with_symbol amount token =
      format_amount format_units amount token.decimals 6 ++ codes " " ++ token.symbol

  abbrev pub minimum_row : ℤ → ℤ → Text
  minimum_row a b =
      format_signed format_units a (i.token_a).decimals 6
      ++ codes " / "
      ++ format_signed format_units b (i.token_b).decimals 6

  abbrev pub removal_rows : RemovalDetails
  removal_rows = record {
    receive =
        with_symbol (expected_out i).a i.token_a
        ++ codes " + "
        ++ with_symbol (expected_out i).b i.token_b;
    minimum = minimum_row (with_slippage i (expected_out i).a) (with_slippage i (expected_out i).b);
  }

  -- The details of a removal, in the mode that removes.
  unfoldable pub removal_details : Option RemovalDetails
  removal_details = if has_pool i && ltb 0 (remove_amount i) then some removal_rows else none

  abbrev pub reserves_row : Option Reserves → Text
  reserves_row none = codes "—"
  reserves_row (some r) =
      with_symbol r.reserve_in i.token_a ++ codes " / " ++ with_symbol r.reserve_out i.token_b

  unfoldable pub pool_details : Option Text → Option PoolDetails
  pool_details explorer =
      option_map
        (λ p. record {
          pair = shorten_address p.pair;
          link = explorer_address_url explorer p.pair;
          share = format_bps (pool_share_bps (lp i) p.total_supply);
          reserves = reserves_row (form_reserves i p);
        })
        i.pool

pub record LiquidityErrors : Type 0 where
  pub write : Option Text
  pub permit : Option Text
  pub approval_a : Option Text
  pub approval_b : Option Text
  pub approval_lp : Option Text

pub record LiquidityAlerts : Type 0 where
  pub no_pool : Bool
  pub mismatch : Bool
  pub permit_error : Option Text
  pub permit_declined : Bool
  pub write_error : Option Text
  pub error_a : Option Text
  pub error_b : Option Text
  pub error_lp : Option Text

abbrev pub message : Option Text → Option Text
message error = option_map (take 200) error

-- `removing` is that the mode is the one that removes.
unfoldable pub liquidity_alerts :
    LiquidityInput
    → (removing pool_loading derivation_mismatch : Bool) → LiquidityErrors
    → LiquidityAlerts
liquidity_alerts i removing pool_loading derivation_mismatch e = record {
  no_pool = not (has_pool i) && not pool_loading;
  mismatch = derivation_mismatch;
  permit_error = if removing && not i.permit_fallback then message e.permit else none;
  permit_declined = removing && i.permit_fallback && i.lp_needs_approval;
  write_error = message e.write;
  error_a = message e.approval_a;
  error_b = message e.approval_b;
  error_lp = message e.approval_lp;
}

-- The note that the approval travels with the removal.
abbrev pub permit_note : LiquidityInput → Bool
permit_note i =
    i.lp_needs_approval && not i.permit_fallback && has_pool i && ltb 0 (remove_amount i)
