-- ===== src/SwapForm/Button.antt =====
-- When the button of the swap form sends a swap, and when it is labelled so.
use ark_swap.Prelude.{
  ℕ, ◌⊎◌, is_known, ◌≡◌, refl, ap, Bool, true, false, not, ◌&&◌, ◌||◌, Option, none, some, [],
  arith, is_set, get_or, if◌then◌else◌, Bool-cases, Option-cases, inl, inr,
}
use mathlib.Core.Option.{some-injective}
use ark_swap.Tokens.{same_token}
use ark_swap.Route.{exact_in, exact_out, SwapSide}
use ark_swap.Allowance.{ApproveCall, needs_approval}
use ark_swap.SwapForm.{
  SwapState, flip, other_side, CardInput, SwapQuote, quote_of, swap_quote, swap_allowance,
  insufficient_balance, is_severe, has_quote, label, label_ready, blocked, swap, has_amount,
  fot_conflict, is_out, side_of_form,
}
use ark_swap.SwapForm.Calls.{
  SwapCall, Click, call_exact_in, call_exact_out, submit, click, sends_swap, idle, swapped,
  submit_throws, throws, approved,
}

-- Flipping the form twice gives it back.
pub flip-flip : (s : SwapState) → flip (flip s) ≡ s
unfolding flip
flip-flip s =
    ap (λ side. record s { typed = record { side = side; value = (s.typed).value } })
      (back (s.typed).side)
  where
    back : (side : SwapSide) → other_side (other_side side) ≡ side
    back exact_in = refl
    back exact_out = refl

-- What the form has made sure of.
pub record IsReady (i : CardInput) (q : SwapQuote) : Type 0 where
  pub connected : i.is_connected ≡ true
  pub differ : same_token (i.form).token_in (i.form).token_out ≡ some false
  pub quoted : swap_quote i ≡ some q
  pub funded : insufficient_balance i ≡ false
  pub calm : is_severe i ≡ false
  pub approved : needs_approval (swap_allowance i) ≡ false
  pub settled : (i.is_pending || i.receipt_loading) ≡ false

-- A button that is not blocked.
blocked_inv :
    (i : CardInput)
    → blocked i ≡ some false
    → (i.is_connected ≡ true)
      × (same_token (i.form).token_in (i.form).token_out ≡ some false)
      × (has_quote (swap_quote i) ≡ true)
      × (insufficient_balance i ≡ false)
      × (is_severe i ≡ false)
      × ((i.is_pending || i.receipt_loading) ≡ false)
unfolding blocked
blocked_inv i e = ground arith

decide_inv :
    (is_blocked needs thrown : Bool) (a : Option ApproveCall) (s : Option SwapCall) {c : SwapCall}
    → (if is_blocked && not needs then idle else if needs then approved a else swapped thrown s)
      ≡ sends_swap c
    → (is_blocked ≡ false) × (needs ≡ false) × (s ≡ some c)
decide_inv true false thrown a s e = cc
decide_inv true true thrown none s e = cc
decide_inv true true thrown (some a) s e = cc
decide_inv false true thrown none s e = cc
decide_inv false true thrown (some a) s e = cc
decide_inv false false true a none e = cc
decide_inv false false false a none e = cc
decide_inv false false thrown a (some s) e = (refl, refl, cc)

pub click_inv :
    (i : CardInput) {c : SwapCall}
    → click i ≡ some (sends_swap c)
    → (blocked i ≡ some false) × (needs_approval (swap_allowance i) ≡ false) × (submit i ≡ some c)
unfolding click
click_inv i {c} e = elim (Option-cases (blocked i)) [
  | inl thrown ↦ absurd (none≢some (rw thrown at e))
  | inr (b, shown) ↦
      let (free, ready, sent) = decide_inv b _ _ _ _ (some-injective _ _ (rw shown at e)) in
      (rw shown (ap some free), ready, sent)
]
  where
    none≢some : ¬ (◌≡◌ {A = Option Click} none (some (sends_swap c)))
    none≢some k = cc

-- A click sends a swap only when the wallet is connected, the tokens differ, there is a quote, the known
-- balance covers it, the price impact is not severe, the allowance covers it and nothing is pending.
pub click-IsReady :
    (i : CardInput) {c : SwapCall} → click i ≡ some (sends_swap c) → (q : SwapQuote) × IsReady i q
click-IsReady i {c} e =
    let (free, ready, sent) = click_inv i e in
    let (on, differ, quote, funded, calm, settled) = blocked_inv i free in
    elim (Option-cases (swap_quote i)) [
      | inl missing ↦ absurd (false≢true (rw missing at quote))
      | inr (q, found) ↦ (
        q,
        record {
          connected = on;
          differ = differ;
          quoted = found;
          funded = funded;
          calm = calm;
          approved = ready;
          settled = settled;
        },
      )
    ]
  where
    false≢true : ¬ (false ≡ true)
    false≢true k = cc

label_inv :
    (i : CardInput)
    → label i ≡ some swap
    → (i.is_connected ≡ true)
      × (same_token (i.form).token_in (i.form).token_out ≡ some false)
      × (label_ready i ≡ swap)
unfolding label
label_inv i e = ground arith

label_ready_inv :
    (i : CardInput)
    → label_ready i ≡ swap
    → (has_amount i ≡ true)
      × (has_quote (swap_quote i) ≡ true)
      × (insufficient_balance i ≡ false)
      × (is_severe i ≡ false)
      × (needs_approval (swap_allowance i) ≡ false)
      × ((i.is_pending || i.receipt_loading) ≡ false)
unfolding label_ready
label_ready_inv i e = ground arith

submit_ready :
    (i : CardInput)
    → has_quote (swap_quote i) ≡ true
    → is_set i.router ≡ true
    → is_set i.address ≡ true
    → is_known i.deadline ≡ true
    → (c : SwapCall) × (submit i ≡ some c)
unfolding submit swap_quote
submit_ready i quote router account timed = elim (Bool-cases (fot_conflict i)) [
  | inl conflict ↦ absurd (false≢true (rw conflict at quote))
  | inr free ↦ elim (Option-cases i.route) [
    | inl missing ↦ absurd (false≢true (rw (free, missing) at quote))
    | inr (r, found) ↦ (
      if is_out (side_of_form i)
          then call_exact_out i (quote_of i r) r.path (get_or i.address [])
          else call_exact_in i (quote_of i r) r.path (get_or i.address []),
      rw (router, account, free, found, timed) refl,
    )
  ]
]
  where
    false≢true : ¬ (false ≡ true)
    false≢true k = cc

blocked_ready :
    (i : CardInput)
    → i.is_connected ≡ true
    → same_token (i.form).token_in (i.form).token_out ≡ some false
    → has_quote (swap_quote i) ≡ true
    → insufficient_balance i ≡ false
    → is_severe i ≡ false
    → (i.is_pending || i.receipt_loading) ≡ false
    → i.is_approving ≡ false
    → blocked i ≡ some false
unfolding blocked
blocked_ready i on differ quote funded calm quiet settled = ground arith

click_ready :
    (i : CardInput) {c : SwapCall}
    → blocked i ≡ some false
    → needs_approval (swap_allowance i) ≡ false
    → submit i ≡ some c
    → click i ≡ some (sends_swap c)
unfolding click
click_ready i free ready sent = rw (free, ready, sent) refl

submit_late :
    (i : CardInput)
    → has_quote (swap_quote i) ≡ true
    → is_set i.router ≡ true
    → is_set i.address ≡ true
    → i.deadline ≡ none
    → (submit i ≡ none) × (submit_throws i ≡ true)
unfolding submit swap_quote
submit_late i quote router account late = elim (Bool-cases (fot_conflict i)) [
  | inl conflict ↦ absurd (false≢true (rw conflict at quote))
  | inr free ↦ elim (Option-cases i.route) [
    | inl missing ↦ absurd (false≢true (rw (free, missing) at quote))
    | inr (r, found) ↦
        (rw (router, account, free, found, late) refl, rw (router, account, free, found, late) refl)
  ]
]
  where
    false≢true : ¬ (false ≡ true)
    false≢true k = cc

click_late :
    (i : CardInput)
    → blocked i ≡ some false
    → needs_approval (swap_allowance i) ≡ false
    → submit i ≡ none
    → submit_throws i ≡ true
    → click i ≡ some throws
unfolding click
click_late i free ready unsent thrown = rw (free, ready, unsent, thrown) refl

-- A form whose button reads `Swap` was given an amount and is ready, and if the router and the account are
-- known and no approval is under way, a click on it sends a swap where the settings give a deadline, and
-- throws where they give none.
pub label-click :
    (i : CardInput)
    → label i ≡ some swap
    → is_set i.router ≡ true
    → is_set i.address ≡ true
    → i.is_approving ≡ false
    → (has_amount i ≡ true)
      × (((d : ℕ) × (i.deadline ≡ some d) × (c : SwapCall) × (click i ≡ some (sends_swap c)))
          ⊎ ((i.deadline ≡ none) × (click i ≡ some throws)))
label-click i e router account settled =
    let (on, differ, ready) = label_inv i e in
    let (given, quote, funded, calm, spendable, quiet) = label_ready_inv i ready in
    let free = blocked_ready i on differ quote funded calm quiet settled in
    elim (Option-cases i.deadline) [
      | inl late ↦
          let (unsent, thrown) = submit_late i quote router account late in
          (given, inr (late, click_late i free spendable unsent thrown))
      | inr (d, timed) ↦
          let (c, sent) = submit_ready i quote router account (rw timed refl) in
          (given, inl (d, timed, c, click_ready i free spendable sent))
    ]
