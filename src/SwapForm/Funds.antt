-- ===== src/SwapForm/Funds.antt =====
-- What a click on the button of the swap form can take from the wallet.
use ark_swap.Prelude.{
  ℕ, ◌≤◌, ◌≡◌, refl, ◌∙◌, ap, Bool, true, false, some, [], arith, is_set, get_or, option_map,
  Option-cases, inl, inr,
}
use ark_swap.Route.{SwapRoute}
use ark_swap.Allowance.{ApproveCall, approve, needs_approval, needs_erc20, current, AllowanceInput}
use ark_swap.SwapForm.{
  CardInput, SwapQuote, quote_of, swap_quote, swap_allowance, blocked, insufficient_balance,
}
use ark_swap.SwapForm.Calls.{SwapCall, click, sends_swap, sends_approval}
use ark_swap.SwapForm.Bounds.{spends, submit-Trades, swap_quote_inv}
use ark_swap.SwapForm.Button.{click-IsReady, click_inv}

quote_found :
    (i : CardInput) (r : SwapRoute) {c : SwapCall}
    → i.route ≡ some r
    → click i ≡ some (sends_swap c)
    → swap_quote i ≡ some (quote_of i r)
quote_found i r er e =
    let (q, ready) = click-IsReady i e in
    ready.quoted ∙ ap some (swap_quote_inv i r er ready.quoted)

covered :
    (i : CardInput) (q : SwapQuote) (balance : ℕ)
    → swap_quote i ≡ some q
    → ((i.form).token_in).is_native ≡ true
    → i.balance_in ≡ some balance
    → insufficient_balance i ≡ false
    → q.max_sold ≤ balance
unfolding insufficient_balance
covered i q balance eq en eb e = ground arith

allowed :
    (a : AllowanceInput) (amount : ℕ)
    → a.amount ≡ some amount
    → needs_erc20 a ≡ true
    → needs_approval a ≡ false
    → amount ≤ current a
unfolding needs_approval
allowed a amount ea needs e = ground arith

-- A swap that a click sends stays within what the wallet has granted: of native KASH it carries at most the
-- known balance, and of a token that needs an allowance it takes at most the allowance that was read.
pub click-IsFunded :
    (i : CardInput) (r : SwapRoute) {c : SwapCall}
    → i.route ≡ some r
    → click i ≡ some (sends_swap c)
    → ((balance : ℕ)
        → ((i.form).token_in).is_native ≡ true
        → i.balance_in ≡ some balance
        → spends c ≤ balance)
      × (needs_erc20 (swap_allowance i) ≡ true → spends c ≤ get_or i.allowance 0)
click-IsFunded i r {c} er e =
    let (free, granted, sent) = click_inv i e in
    let trades = submit-Trades i r er sent in
    let (q, ready) = click-IsReady i e in
    let quoted = quote_found i r er e in
    (
      λ balance native known.
          rw trades.cost (covered i (quote_of i r) balance quoted native known ready.funded),
      λ erc20. rw trades.cost (
          allowed (swap_allowance i) (quote_of i r).max_sold
            (ap (option_map (λ x. x.max_sold)) quoted) erc20 granted),
    )

approve_needed :
    (a : AllowanceInput) (amount : ℕ)
    → a.amount ≡ some amount
    → needs_approval a ≡ true
    → (c : ApproveCall) × (approve a true ≡ some c)
      × (c.value ≡ amount)
      × (c.spender ≡ get_or a.router [])
unfolding approve needs_approval needs_erc20
approve_needed a amount ea needs = elim (Option-cases a.token) [
  | inl missing ↦ absurd (false≢true (rw (ea, missing) at needs))
  | inr (t, found) ↦
      let set : is_set t.address ≡ true = ground arith in
      let router : is_set a.router ≡ true = ground arith in
      (
        record { token = get_or t.address []; spender = get_or a.router []; value = amount },
        rw (found, set, router, ea) refl,
        refl,
        refl,
      )
]
  where
    false≢true : ¬ (false ≡ true)
    false≢true k = cc

click_needed :
    (i : CardInput) (is_blocked : Bool) {a : ApproveCall}
    → blocked i ≡ some is_blocked
    → needs_approval (swap_allowance i) ≡ true
    → approve (swap_allowance i) true ≡ some a
    → click i ≡ some (sends_approval a)
unfolding click
click_needed i true shown needs asked = rw (shown, needs, asked) refl
click_needed i false shown needs asked = rw (shown, needs, asked) refl

-- Whenever the sold token needs an approval for a quote, a click asks for exactly the most that the swap can
-- take, also where the button is blocked, as with a severe price impact or while an approval is under way.
pub click_approves :
    (i : CardInput) (q : SwapQuote) {is_blocked : Bool}
    → blocked i ≡ some is_blocked
    → swap_quote i ≡ some q
    → needs_approval (swap_allowance i) ≡ true
    → (a : ApproveCall) × (click i ≡ some (sends_approval a))
      × (a.value ≡ q.max_sold)
      × (a.spender ≡ get_or i.router [])
click_approves i q {is_blocked} shown quoted needs =
    let (a, asked, value, spender) =
      approve_needed (swap_allowance i) q.max_sold (ap (option_map (λ x. x.max_sold)) quoted)
        needs in
    (a, click_needed i is_blocked shown needs asked, value, spender)
