-- ===== src/Tests/Liquidity.antt =====
-- A pool of mUSDC and WKASH, a deposit and a removal, and an imported token.
use ark_swap.Prelude.{
  ℕ, ◌<◌, ◌≡◌, ◌⊎◌, refl, true, false, Option, none, some, List, [], ◌∷◌, arith, codes, text_eq,
  lower, All,
}
use ark_swap.Prelude.Int.{ℤ, pos}
use ark_swap.Tokens.{Token, same_token, kash, token_by_address, is_hex_address, routed_address}
use ark_swap.Amm.{minimum_received, quote}
use ark_swap.PairAddress.{checked}
use ark_swap.Pools.{PoolState, PoolRead, Reserves, orient_reserves}
use ark_swap.Liquidity.{
  LiquidityInput, LiquidityCall, Signature, add_liquidity_eth, remove_liquidity_eth, amount_b,
  remove_amount, expected_out, submit_add, native_side, add_by, with_slippage, deposit_b,
}
use ark_swap.Prelude.{Text}
use ark_swap.Prelude.Decimal.{decimal}
use ark_swap.Liquidity.View.{RemovalDetails, removal_details, minimum_row}
use ark_swap.Liquidity.Shown.{submit_remove-details}
use ark_swap.Liquidity.Removal.{remove_by, submit_remove}
use ark_swap.Liquidity.Sent.{Removes, is_signed, submit_remove-Removes}
use ark_swap.Allowance.{needs_approval, needs_erc20}
use ark_swap.Liquidity.Button.{LiquidityForm, click_add}
use ark_swap.Liquidity.Clicks.{click_add_first}
use ark_swap.Liquidity.Added.{Adds, submit_add-Adds}
use ark_swap.Imports.{Stored, import_token, add_stored, to_token}
use ark_swap.Imports.Invariant.{IsForeign, Reach, empty, next, imports, Reach-IsForeign}
use ark_swap.Tests.Amm.{plain_viem, plain_viem-IsChecksum, usdc, wkash, factory}
use ark_swap.Tests.Tokens.{usdc_token}

abbrev pool : PoolState
pool = record {
  pair = factory;
  token0 = wkash;
  token1 = usdc;
  reserve0 = 1000;
  reserve1 = 3000;
  total_supply = 500;
  exists = true;
}

abbrev chain_read : PoolRead
chain_read = record {
  registered = some (lower factory);
  reserves = some (1000, 3000);
  token0 = some wkash;
  token1 = some usdc;
  total_supply = some 500;
}

abbrev form : LiquidityInput
form = record {
  token_a = kash;
  token_b = usdc_token;
  wkash = some wkash;
  router = some factory;
  address = some wkash;
  pool = some pool;
  amount_a = some 100;
  parsed_b = none;
  lp_balance = some 50;
  remove_percent = 50;
  slippage_bps = 100;
  deadline = some 1200;
  fee_on_transfer = false;
  lp_needs_approval = false;
  permit_fallback = false;
}

abbrev reserves : Reserves
reserves = record { reserve_in = 1000; reserve_out = 3000 }

abbrev removed : LiquidityCall
removed = remove_liquidity_eth false usdc 25 (pos 148) (pos 49) wkash 1200 none

submit_remove-Removes_example :
    (0 < remove_amount form)
    × ((signed : Option Signature) × Removes form removed
          (remove_amount form)
          (with_slippage form (expected_out form).a)
          (with_slippage form (expected_out form).b)
          wkash
          signed
        × (false ≡ true → is_signed signed ≡ true))
unfolding submit_remove remove_by native_side expected_out remove_amount routed_address
    orient_reserves text_eq lower minimum_received
submit_remove-Removes_example = submit_remove-Removes form none {c = removed} refl

-- Amounts without decimals.
abbrev whole : ℕ → ℕ → Text
whole n d = decimal n

submit_remove-details_example :
    (d : RemovalDetails) × (removal_details whole form ≡ some d)
    × ((min_a min_b : ℤ) × (signed : Option Signature) × (d.minimum
          ≡ minimum_row whole form min_a min_b)
        × Removes form removed (remove_amount form) min_a min_b wkash signed)
unfolding submit_remove remove_by native_side expected_out remove_amount routed_address
    orient_reserves text_eq lower minimum_received
submit_remove-details_example = submit_remove-details whole form none {c = removed} refl

abbrev added : LiquidityCall
added = add_liquidity_eth usdc 300 (pos 297) (pos 99) wkash 1200 100

submit_add-Adds_example :
    (a : ℕ) × (some 100 ≡ some a)
    × (0 < a)
    × ((min_a min_b : ℤ) × Adds kash usdc_token added a (deposit_b form) min_a min_b wkash
        × (((some pool ≡ none) × (min_a ≡ pos 0) × (min_b ≡ pos 0))
            ⊎ ((p : PoolState) × (some pool ≡ some p)
                × (min_a ≡ with_slippage form a)
                × (min_b ≡ with_slippage form (deposit_b form)))))
unfolding submit_add add_by native_side amount_b quote routed_address orient_reserves text_eq lower
    minimum_received
submit_add-Adds_example = submit_add-Adds form {c = added} refl

abbrev other_token : Stored
other_token = record {
  address = codes "0x594f74aDCa63Af06d10Ee06fEe8F237DBb560e06";
  symbol = codes "OTH";
  name = codes "Other";
  decimals = 18;
}

abbrev listed : List Token
listed = kash ∷ usdc_token ∷ []

abbrev kept : List Stored
kept = record other_token { address = lower factory } ∷ []

run : Reach plain_viem is_hex_address listed kept
unfolding import_token add_stored to_token checked is_hex_address token_by_address text_eq lower
run = next empty (imports other_token [] refl)

Reach-IsForeign_example : All (IsForeign plain_viem is_hex_address listed) kept
Reach-IsForeign_example = Reach-IsForeign plain_viem is_hex_address listed plain_viem-IsChecksum run

-- A first deposit, of which the router may spend nothing.
abbrev first : LiquidityForm
first = record {
  input = record form { pool = none; parsed_b = some 100 };
  is_connected = true;
  is_pending = false;
  receipt_loading = false;
  allowance_a = none;
  allowance_b = some 0;
  is_signing = false;
  permit_ready = false;
}

click_add_first_example :
    (c : LiquidityCall) × (click_add first ≡ some (some c))
    × Adds kash usdc_token c 100 100 (pos 0) (pos 0) wkash
unfolding needs_approval needs_erc20 same_token text_eq lower
click_add_first_example =
    click_add_first first {a = 100} {d = 1200} refl refl refl refl refl (omega arith) refl refl refl
      refl (λ e. absurd (true≢false e)) (λ e. refl)
  where
    true≢false : ¬ (true ≡ false)
    true≢false k = cc
