-- ===== src/Tests/SwapForm.antt =====
-- The swap form that sells 1000 of native KASH, and one that sells a token without an allowance.
use ark_swap.Prelude.{
  ℕ, ◌⊎◌, Option, ◌+◌, ◌-◌, ◌*◌, ◌≤◌, ◌<◌, ◌≡◌, refl, true, false, none, some, [], ◌∷◌, arith,
  codes, text_eq, lower, Text,
}
use ark_swap.Prelude.Int.{ℤ, pos}
use ark_swap.Tokens.{kash, same_token}
use ark_swap.Amm.{impact_severity, minimum_received}
use ark_swap.Route.{SwapRoute, exact_in}
use ark_swap.Allowance.{ApproveCall, needs_approval, needs_erc20}
use ark_swap.SwapForm.{
  CardInput, SwapQuote, quote_of, swap_quote, insufficient_balance, blocked, label, label_ready,
  has_amount,
}
use ark_swap.SwapForm.Calls.{
  SwapCall, swap_exact_eth_for_tokens, submit, call_exact_in, click, sends_swap, throws,
  sends_approval,
}
use ark_swap.SwapForm.Bounds.{submit-IsBounded}
use ark_swap.SwapForm.Button.{IsReady, click-IsReady, label-click}
use ark_swap.SwapForm.Funds.{click-IsFunded, click_approves}
use ark_swap.Settings.{default_settings}
use ark_swap.Settings.Range.{start}
use ark_swap.Settings.Protection.{submit-IsProtected}
use ark_swap.Tests.Settings.{unread}
use ark_swap.Tests.Amm.{usdc, wkash, factory}
use ark_swap.Tests.Tokens.{usdc_token}
use ark_swap.Prelude.Decimal.{decimal, grouped}
use ark_swap.Format.{format_amount, until_dot, past_dot}
use ark_swap.SwapForm.View.{Details, details, minimum_received_row}
use ark_swap.SwapForm.Shown.{click-details}

abbrev pub route : SwapRoute
route = record {
  path = wkash ∷ usdc ∷ [];
  symbols = codes "KASH" ∷ codes "mUSDC" ∷ [];
  amount_in = 1000;
  amount_out = 1992;
  impact_bps = 40;
}

abbrev pub card : CardInput
card = record {
  form = record {
    token_in = kash;
    token_out = usdc_token;
    typed = record { side = exact_in; value = codes "1" };
  };
  amount = some 1000;
  route = some route;
  no_liquidity = false;
  is_loading = false;
  slippage_bps = 50;
  fee_on_transfer = false;
  router = some factory;
  address = some wkash;
  is_connected = true;
  balance_in = some 5000;
  allowance = none;
  is_approving = false;
  is_pending = false;
  receipt_loading = false;
  deadline = some 1200;
}

abbrev pub sent : SwapCall
sent = swap_exact_eth_for_tokens false (pos 1982) (wkash ∷ usdc ∷ []) wkash 1200 1000

-- The price impact is severe and the sold token has no allowance.
abbrev severe_card : CardInput
severe_card = record card {
  form = record {
    token_in = usdc_token;
    token_out = kash;
    typed = record { side = exact_in; value = codes "1" };
  };
  route = some (record route { impact_bps = 2000 });
}

submit-IsBounded_example :
    (wkash ∷ usdc ∷ [] ≡ wkash ∷ usdc ∷ [])
    × (wkash ≡ wkash)
    × (1000 * 10_000 ≤ 1000 * (10_000 + 50))
    × ((n : ℕ) × (◌≡◌ {A = ℤ} (pos 1982) (pos n)) × (1992 * (10_000 - 50) < (n + 1) * 10_000))
unfolding submit swap_quote call_exact_in minimum_received
submit-IsBounded_example = submit-IsBounded card route {c = sent} refl refl (omega arith)

submit-IsProtected_example :
    (1000 * 2 ≤ 1000 * 3) × ((n : ℕ) × (◌≡◌ {A = ℤ} (pos 1982) (pos n)) × (1992 < (n + 1) * 2))
unfolding submit swap_quote call_exact_in minimum_received
submit-IsProtected_example =
    submit-IsProtected {big_int = unread} {s = default_settings} card route {c = sent} start refl
      refl refl

click-IsReady_example : (q : SwapQuote) × IsReady card q
unfolding click blocked same_token text_eq lower insufficient_balance impact_severity needs_approval
    needs_erc20 submit swap_quote call_exact_in minimum_received
click-IsReady_example = click-IsReady card {c = sent} refl

label-click_example :
    (has_amount card ≡ true)
    × (((d : ℕ) × (some 1200 ≡ some d) × (c : SwapCall) × (click card ≡ some (sends_swap c)))
        ⊎ ((◌≡◌ {A = Option ℕ} (some 1200) none) × (click card ≡ some throws)))
unfolding label label_ready same_token text_eq lower insufficient_balance impact_severity
    needs_approval needs_erc20 swap_quote
label-click_example = label-click card refl refl refl refl

click-IsFunded_example :
    ((balance : ℕ) → true ≡ true → some 5000 ≡ some balance → 1000 ≤ balance)
    × (false ≡ true → 1000 ≤ 0)
unfolding click blocked same_token text_eq lower insufficient_balance impact_severity needs_approval
    needs_erc20 submit swap_quote call_exact_in minimum_received
click-IsFunded_example = click-IsFunded card route {c = sent} refl refl

click_approves_example :
    (a : ApproveCall) × (click severe_card ≡ some (sends_approval a))
    × (a.value ≡ 1000)
    × (a.spender ≡ factory)
unfolding blocked same_token text_eq lower insufficient_balance impact_severity needs_approval
    needs_erc20 swap_quote minimum_received
click_approves_example =
    click_approves severe_card (quote_of severe_card (record route { impact_bps = 2000 }))
      {is_blocked = true} refl refl refl

-- Amounts without decimals.
abbrev whole : ℕ → ℕ → Text
whole n d = decimal n

click-details_example :
    (d : Details) × (details whole card ≡ some (some d))
    × (d.bound ≡ minimum_received_row (codes "1,982 mUSDC"))
unfolding click blocked swap_quote insufficient_balance needs_approval submit call_exact_in
    minimum_received same_token format_amount until_dot past_dot text_eq lower impact_severity
    needs_erc20 decimal grouped
click-details_example = click-details whole card route {c = sent} refl (omega arith) refl
