-- ===== src/Sent.antt =====
-- What the forms add to the list of apps/web/src/state/activity.tsx when the wallet has sent their call: the
-- `onSuccess` of apps/web/src/components/{SwapCard,LiquidityCard}.tsx and of
-- apps/web/src/hooks/useAllowance.ts. `formatUnits` of viem is a parameter.
pub mod Tracked
use ark_swap.Prelude.{
  ℕ, Bool, Option, none, some, List, ◌++◌, Text, codes, if◌then◌else◌, option_map, ◌>>=?◌,
}
use ark_swap.Prelude.Decimal.{decimal}
use ark_swap.Format.{format_amount}
use ark_swap.Tokens.{Token}
use ark_swap.Allowance.{AllowanceInput, approve}
use ark_swap.SwapForm.{CardInput, SwapQuote, swap_quote}
use ark_swap.SwapForm.Calls.{submit}
use ark_swap.Liquidity.{LiquidityInput, submit_add, deposit_b}
use ark_swap.Activity.{ActivityItem, ActivityKind, track}
use ark_swap.Activity

module _ (format_units : ℕ → ℕ → Text) where
  -- `${formatAmount(amount, token.decimals, 4)} ${token.symbol}`.
  abbrev pub amount_of : ℕ → Token → Text
  amount_of amount token =
      format_amount format_units amount token.decimals 4 ++ codes " " ++ token.symbol

  unfoldable pub swap_tracked : CardInput → SwapQuote → Text → Activity.Tracked
  swap_tracked i q hash = record {
    hash = hash;
    kind = Activity.swap;
    summary =
        codes "Swap "
        ++ amount_of q.amount_in (i.form).token_in
        ++ codes " → "
        ++ amount_of q.amount_out (i.form).token_out;
  }

  unfoldable pub add_tracked : LiquidityInput → ℕ → Text → Activity.Tracked
  add_tracked i amount_a hash = record {
    hash = hash;
    kind = Activity.add;
    summary =
        codes "Add "
        ++ amount_of amount_a i.token_a
        ++ codes " + "
        ++ amount_of (deposit_b i) i.token_b;
  }

  unfoldable pub remove_tracked : LiquidityInput → Text → Activity.Tracked
  remove_tracked i hash = record {
    hash = hash;
    kind = Activity.remove;
    summary =
        codes "Remove "
        ++ decimal i.remove_percent
        ++ codes "% of "
        ++ (i.token_a).symbol
        ++ codes "/"
        ++ (i.token_b).symbol
        ++ codes " liquidity";
  }

  unfoldable pub approve_tracked : Bool → ℕ → Token → Text → Activity.Tracked
  approve_tracked exact amount token hash = record {
    hash = hash;
    kind = Activity.approve;
    summary =
        if exact
        then codes "Approve " ++ amount_of amount token
        else codes "Approve unlimited " ++ token.symbol;
  }

  -- A click on Swap: the wallet gives the hash of a call that it has sent, and nothing is tracked where no
  -- call is made.
  unfoldable pub after_swap : CardInput → Text → ℕ → List ActivityItem → List ActivityItem
  after_swap i hash now all = elim (submit i) [
    | none ↦ all
    | some call ↦ elim (swap_quote i) [
      | none ↦ all
      | some q ↦ track i.address now (swap_tracked i q hash) all
    ]
  ]
