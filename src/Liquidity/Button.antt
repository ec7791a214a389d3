-- ===== src/Liquidity/Button.antt =====
-- The buttons of apps/web/src/components/LiquidityCard.tsx. What the wallet library returns to a rendering is
-- in the form.
use ark_swap.Prelude.{
  ℕ, Bool, true, not, ◌&&◌, ◌||◌, Option, none, some, leb, if◌then◌else◌, ◌>>=?◌,
}
use ark_swap.Tokens.{same_token}
use ark_swap.Allowance.{AllowanceInput, needs_approval}
use ark_swap.Liquidity.{
  LiquidityInput, LiquidityCall, Signature, amount_b, remove_amount, submit_add, add_throws,
}
use ark_swap.Liquidity.Removal.{Removal, nothing, has_pool, submit_remove}

pub record LiquidityForm : Type 0 where
  pub input : LiquidityInput
  pub is_connected : Bool
  pub is_pending : Bool
  pub receipt_loading : Bool
  pub allowance_a : Option ℕ
  pub allowance_b : Option ℕ
  pub is_signing : Bool
  pub permit_ready : Bool

abbrev pub busy : LiquidityForm → Bool
busy f = f.is_pending || f.receipt_loading

-- `useAllowance(tokenA, amountA)` and `useAllowance(tokenB, amountB)`.
abbrev pub approval_a : LiquidityForm → AllowanceInput
approval_a f = record {
  token = some (f.input).token_a;
  amount = (f.input).amount_a;
  router = (f.input).router;
  allowance = f.allowance_a;
}

abbrev pub approval_b : LiquidityForm → AllowanceInput
approval_b f = record {
  token = some (f.input).token_b;
  amount = amount_b f.input;
  router = (f.input).router;
  allowance = f.allowance_b;
}

-- `needsApproval` of the mode that adds.
abbrev pub add_needs_approval : LiquidityForm → Bool
add_needs_approval f = needs_approval (approval_a f) || needs_approval (approval_b f)

abbrev pub no_amount : Option ℕ → Bool
no_amount none = true
no_amount (some a) = leb a 0

-- The rest of `disabled`, once the comparison of the tokens gave `same`.
abbrev pub add_blocked : LiquidityForm → Bool → Bool
add_blocked f same = same || no_amount (f.input).amount_a || busy f

-- `disabled` of the button that adds; `none` is the exception of `sameToken`.
unfoldable pub add_disabled : LiquidityForm → Option Bool
add_disabled f =
    if not f.is_connected || add_needs_approval f
    then some true
    else same_token (f.input).token_a (f.input).token_b >>=? λ same. some (add_blocked f same)

-- A click on the button that adds: the call of the router that it sends, if any; `none` is an exception.
unfoldable pub click_add : LiquidityForm → Option (Option LiquidityCall)
unfolding add_disabled
click_add f = add_disabled f >>=? λ disabled.
    if disabled then some none else if add_throws f.input then none else some (submit_add f.input)

pub data AddLabel : Type 0 where
  connect_wallet : AddLabel
  adding : AddLabel
  add_liquidity_label : AddLabel

abbrev pub add_label : LiquidityForm → AddLabel
add_label f =
    if not f.is_connected then connect_wallet else if busy f then adding else add_liquidity_label

-- `removeNeedsApproveTx` of the mode that removes.
abbrev pub remove_needs_approve_tx : LiquidityInput → Bool
remove_needs_approve_tx i = i.lp_needs_approval && i.permit_fallback

unfoldable pub remove_disabled : LiquidityForm → Bool
remove_disabled f =
    not f.is_connected
    || not (has_pool f.input)
    || leb (remove_amount f.input) 0
    || busy f
    || f.is_signing
    || remove_needs_approve_tx f.input
    || ((f.input).lp_needs_approval && not f.permit_ready && not (f.input).permit_fallback)

-- A click on the button that removes, with the signature that the wallet gives when it is asked for one.
unfoldable pub click_remove : LiquidityForm → Option Signature → Removal
unfolding remove_disabled
click_remove f signature = if remove_disabled f then nothing else submit_remove f.input signature

pub data RemoveLabel : Type 0 where
  connect_wallet_first : RemoveLabel
  sign_in_wallet : RemoveLabel
  removing : RemoveLabel
  sign_and_remove : RemoveLabel
  remove_liquidity_label : RemoveLabel

abbrev pub remove_label : LiquidityForm → RemoveLabel
remove_label f =
    if not f.is_connected
    then connect_wallet_first
    else if f.is_signing
    then sign_in_wallet
    else if busy f
    then removing
    else if (f.input).lp_needs_approval && not (f.input).permit_fallback
    then sign_and_remove
    else remove_liquidity_label
