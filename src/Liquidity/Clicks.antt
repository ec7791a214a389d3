-- ===== src/Liquidity/Clicks.antt =====
-- What the clicks of the liquidity form do.
use ark_swap.Prelude.{
  ℕ, ◌<◌, ◌≡◌, refl, sym, ◌∙◌, text_eq, Text, [], is_set, get_or, Bool-cases, true, false, none,
  some, arith, leb, Option-cases, inl, inr,
}
use mathlib.Core.Option.{some-injective}
use ark_swap.Prelude.Int.{pos}
use ark_swap.Tokens.{Token, same_token, token_key}
use ark_swap.Pools.{PoolState}
use ark_swap.Liquidity.Added.{Adds, IsSide, native_side-IsSide, submit_add-Adds}
use mathlib.Core.Bool.{false≢true}
use ark_swap.Allowance.{AllowanceInput, needs_approval}
use ark_swap.Liquidity.{
  LiquidityInput, LiquidityCall, amount_b, submit_add, add_throws, add_by, deposit_b, deposit_min,
  add_liquidity, add_liquidity_eth, native_side, NativeSide, side_a, side_b, neither,
}
use ark_swap.Liquidity.Button.{
  LiquidityForm, busy, approval_a, approval_b, add_disabled, click_add, no_amount,
}

first_amount_b : (i : LiquidityInput) → i.pool ≡ none → amount_b i ≡ none
unfolding amount_b
first_amount_b i e = rw e refl

positive_amount : (a : ℕ) → 0 < a → leb a 0 ≡ false
positive_amount a h = ground arith

unasked-needs_approval : (a : AllowanceInput) → a.amount ≡ none → needs_approval a ≡ false
unfolding needs_approval
unasked-needs_approval a e = rw e refl

native_once : (s t : Token) → same_token s t ≡ some false → s.is_native ≡ true → t.is_native ≡ false
unfolding same_token token_key text_eq
native_once s t e native = elim (Bool-cases t.is_native) [
  | inl also ↦ absurd (false≢true (sym (some-injective _ _ (rw (native, also) at e))))
  | inr other ↦ other
]

-- A first deposit is of the amounts that were typed.
first_deposit :
    (i : LiquidityInput) {a : ℕ} {c : LiquidityCall}
    → i.pool ≡ none
    → i.amount_a ≡ some a
    → submit_add i ≡ some c
    → Adds i.token_a i.token_b c a (get_or i.parsed_b 0) (pos 0) (pos 0) (get_or i.address [])
first_deposit i {a} {c} no_pool typed sent =
    let (b, known, more, (min_a, min_b, adds, cases)) = submit_add-Adds i sent in
    let same : b ≡ a = some-injective _ _ (sym known ∙ typed) in
    elim cases [
      | inr (p, found, _, _) ↦ absurd (none≢some (sym no_pool ∙ found))
      | inl (e, zero_a, zero_b) ↦
          let matched : deposit_b i ≡ get_or i.parsed_b 0 = rw (first_amount_b i no_pool) refl in
          rw (zero_a, zero_b, matched, same) at adds
    ]
  where
    none≢some : {p : PoolState} → ¬ (none ≡ some p)
    none≢some k = cc

-- A token that is not native has an address.
abbrev pub IsPlaced : Token → Type 0
IsPlaced t = t.is_native ≡ false → is_set t.address ≡ true

-- Every deposit of two different tokens that have their addresses makes a call.
add_by_sends :
    (i : LiquidityInput) (side : NativeSide) (a b : ℕ) (who : Text)
    → IsSide side i.token_a i.token_b
    → same_token i.token_a i.token_b ≡ some false
    → IsPlaced i.token_a
    → IsPlaced i.token_b
    → (c : LiquidityCall) × (add_by i side a b who ≡ some c)
unfolding add_by
add_by_sends i side_a a b who native differ at_a at_b = (
  add_liquidity_eth (get_or (i.token_b).address []) b (deposit_min i b) (deposit_min i a) who
      (get_or i.deadline 0) a,
  rw (at_b (native_once i.token_a i.token_b differ native)) refl,
)
add_by_sends i side_b a b who (other, native) differ at_a at_b = (
  add_liquidity_eth (get_or (i.token_a).address []) a (deposit_min i a) (deposit_min i b) who
      (get_or i.deadline 0) b,
  rw (at_a other) refl,
)
add_by_sends i neither a b who (other_a, other_b) differ at_a at_b = (
  add_liquidity (get_or (i.token_a).address []) (get_or (i.token_b).address []) a b
      (deposit_min i a) (deposit_min i b) who (get_or i.deadline 0),
  rw (at_a other_a, at_b other_b) refl,
)

submit_add_sends :
    (i : LiquidityInput) {a d : ℕ}
    → is_set i.router ≡ true
    → is_set i.address ≡ true
    → i.amount_a ≡ some a
    → 0 < a
    → i.deadline ≡ some d
    → same_token i.token_a i.token_b ≡ some false
    → IsPlaced i.token_a
    → IsPlaced i.token_b
    → (c : LiquidityCall) × (submit_add i ≡ some c) × (add_throws i ≡ false)
unfolding submit_add
submit_add_sends i {a} router account typed positive timely differ at_a at_b =
    let (c, sent) =
      add_by_sends i (native_side i) a (deposit_b i) (get_or i.address []) (native_side-IsSide i)
        differ at_a at_b in
    (
      c,
      simp (router, account, typed, positive_amount a positive, timely, sent),
      simp (router, account, typed, positive_amount a positive, timely),
    )

-- Without a pool the form never asks for an approval of the second token: a click sends the deposit of the
-- typed amount of the first and the matched amount of the second token, whatever the router may spend of the
-- second, as soon as the router and the account are known, the wallet is connected, the first token is
-- approved, the tokens differ and have their addresses, the first amount is positive, the settings give a
-- deadline and nothing is pending. Its minimums are zero.
pub click_add_first :
    (f : LiquidityForm) {a d : ℕ}
    → (f.input).pool ≡ none
    → f.is_connected ≡ true
    → needs_approval (approval_a f) ≡ false
    → same_token (f.input).token_a (f.input).token_b ≡ some false
    → (f.input).amount_a ≡ some a
    → 0 < a
    → busy f ≡ false
    → is_set (f.input).router ≡ true
    → is_set (f.input).address ≡ true
    → (f.input).deadline ≡ some d
    → IsPlaced (f.input).token_a
    → IsPlaced (f.input).token_b
    → (c : LiquidityCall) × (click_add f ≡ some (some c))
      × Adds
          (f.input).token_a
          (f.input).token_b
          c
          a
          (get_or (f.input).parsed_b 0)
          (pos 0)
          (pos 0)
          (get_or (f.input).address [])
unfolding click_add add_disabled
click_add_first f {a} no_pool on approved differ typed positive idle router account timely at_a
      at_b =
    let unasked : needs_approval (approval_b f) ≡ false =
      unasked-needs_approval (approval_b f) (first_amount_b f.input no_pool) in
    let amount : no_amount (f.input).amount_a ≡ false = rw typed (positive_amount a positive) in
    let (c, sent, quiet) =
      submit_add_sends f.input router account typed positive timely differ at_a at_b in
    (
      c,
      rw (on, approved, unasked, differ, amount, idle, quiet, sent) refl,
      first_deposit f.input no_pool typed sent,
    )

-- What the form has made sure of when it deposits.
pub record IsAddReady (f : LiquidityForm) (c : LiquidityCall) : Type 0 where
  pub connected : f.is_connected ≡ true
  pub approved_a : needs_approval (approval_a f) ≡ false
  pub approved_b : needs_approval (approval_b f) ≡ false
  pub differ : same_token (f.input).token_a (f.input).token_b ≡ some false
  pub amount : no_amount (f.input).amount_a ≡ false
  pub settled : busy f ≡ false
  pub sent : submit_add f.input ≡ some c

add_disabled_inv :
    (f : LiquidityForm)
    → add_disabled f ≡ some false
    → (f.is_connected ≡ true)
      × (needs_approval (approval_a f) ≡ false)
      × (needs_approval (approval_b f) ≡ false)
      × (same_token (f.input).token_a (f.input).token_b ≡ some false)
      × (no_amount (f.input).amount_a ≡ false)
      × (busy f ≡ false)
unfolding add_disabled
add_disabled_inv f e = ground arith

-- A click deposits only when the wallet is connected, neither token waits for an approval, the tokens differ,
-- the first amount is positive and nothing is pending.
pub click_add-IsAddReady :
    (f : LiquidityForm) {c : LiquidityCall} → click_add f ≡ some (some c) → IsAddReady f c
unfolding click_add
click_add-IsAddReady f {c} e = elim (Option-cases (add_disabled f)) [
  | inl thrown ↦ absurd (none≢some (rw thrown at e))
  | inr (true, off) ↦ absurd (idle≢some (rw off at e))
  | inr (false, free) ↦ elim (Bool-cases (add_throws f.input)) [
    | inl late ↦ absurd (none≢some (rw (free, late) at e))
    | inr timely ↦
        let (on, a, b, differ, amount, settled) = add_disabled_inv f free in
        record {
          connected = on;
          approved_a = a;
          approved_b = b;
          differ = differ;
          amount = amount;
          settled = settled;
          sent = some-injective _ _ (rw (free, timely) at e);
        }
  ]
]
  where
    none≢some : ¬ (none ≡ some (some c))
    none≢some k = cc

    idle≢some : ¬ (some none ≡ some (some c))
    idle≢some k = cc
