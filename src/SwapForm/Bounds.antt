-- ===== src/SwapForm/Bounds.antt =====
-- What a swap that the form sends can cost and must yield.
use ark_swap.Prelude.{
  ℕ, ◌+◌, ◌-◌, ◌*◌, ◌≤◌, ◌<◌, ◌≡◌, refl, sym, ◌∙◌, none, some, List, [], Text, arith, get_or,
  Bool-cases, Option-cases, inl, inr,
}
use mathlib.Core.Option.{some-injective}
use ark_swap.Prelude.Int.{ℤ, pos}
use ark_swap.Amm.Slippage.{minimum_received_lem, maximum_sold_bounds}
use ark_swap.Route.{SwapRoute}
use ark_swap.SwapForm.{
  CardInput, SwapQuote, quote_of, fot_conflict, is_out, side_of_form, swap_quote,
}
use ark_swap.SwapForm.Calls.{
  SwapCall, swap_exact_eth_for_tokens, swap_exact_tokens_for_eth, swap_exact_tokens_for_tokens,
  swap_eth_for_exact_tokens, swap_tokens_for_exact_eth, swap_tokens_for_exact_tokens, call_exact_in,
  call_exact_out, submit,
}

-- The most that the call can take from the sender.
abbrev pub spends : SwapCall → ℕ
spends (swap_exact_eth_for_tokens f m p t d v) = v
spends (swap_exact_tokens_for_eth f a m p t d) = a
spends (swap_exact_tokens_for_tokens f a m p t d) = a
spends (swap_eth_for_exact_tokens o p t d v) = v
spends (swap_tokens_for_exact_eth o a p t d) = a
spends (swap_tokens_for_exact_tokens o a p t d) = a

-- The least that the call must yield, or it reverts.
abbrev pub demands : SwapCall → ℤ
demands (swap_exact_eth_for_tokens f m p t d v) = m
demands (swap_exact_tokens_for_eth f a m p t d) = m
demands (swap_exact_tokens_for_tokens f a m p t d) = m
demands (swap_eth_for_exact_tokens o p t d v) = pos o
demands (swap_tokens_for_exact_eth o a p t d) = pos o
demands (swap_tokens_for_exact_tokens o a p t d) = pos o

abbrev pub path_of : SwapCall → List Text
path_of (swap_exact_eth_for_tokens f m p t d v) = p
path_of (swap_exact_tokens_for_eth f a m p t d) = p
path_of (swap_exact_tokens_for_tokens f a m p t d) = p
path_of (swap_eth_for_exact_tokens o p t d v) = p
path_of (swap_tokens_for_exact_eth o a p t d) = p
path_of (swap_tokens_for_exact_tokens o a p t d) = p

abbrev pub recipient : SwapCall → Text
recipient (swap_exact_eth_for_tokens f m p t d v) = t
recipient (swap_exact_tokens_for_eth f a m p t d) = t
recipient (swap_exact_tokens_for_tokens f a m p t d) = t
recipient (swap_eth_for_exact_tokens o p t d v) = t
recipient (swap_tokens_for_exact_eth o a p t d) = t
recipient (swap_tokens_for_exact_tokens o a p t d) = t

-- The call trades what the quote says, along the path, to the account.
pub record Trades (c : SwapCall) (q : SwapQuote) (path : List Text) (to : Text) : Type 0 where
  pub cost : spends c ≡ q.max_sold
  pub yield : demands c ≡ q.min_received
  pub along : path_of c ≡ path
  pub payee : recipient c ≡ to

call_exact_in-Trades :
    (i : CardInput) (q : SwapQuote) (path : List Text) (to : Text)
    → q.amount_in ≡ q.max_sold
    → Trades (call_exact_in i q path to) q path to
unfolding call_exact_in
call_exact_in-Trades i q path to e = elim (Bool-cases ((i.form).token_in).is_native) [
  | inl a ↦ rw a (record { cost = e; yield = refl; along = refl; payee = refl })
  | inr a ↦ elim (Bool-cases ((i.form).token_out).is_native) [
    | inl b ↦ rw (a, b) (record { cost = e; yield = refl; along = refl; payee = refl })
    | inr b ↦ rw (a, b) (record { cost = e; yield = refl; along = refl; payee = refl })
  ]
]

call_exact_out-Trades :
    (i : CardInput) (q : SwapQuote) (path : List Text) (to : Text)
    → q.min_received ≡ pos q.amount_out
    → Trades (call_exact_out i q path to) q path to
unfolding call_exact_out
call_exact_out-Trades i q path to e = elim (Bool-cases ((i.form).token_in).is_native) [
  | inl a ↦ rw a (record { cost = refl; yield = sym e; along = refl; payee = refl })
  | inr a ↦ elim (Bool-cases ((i.form).token_out).is_native) [
    | inl b ↦ rw (a, b) (record { cost = refl; yield = sym e; along = refl; payee = refl })
    | inr b ↦ rw (a, b) (record { cost = refl; yield = sym e; along = refl; payee = refl })
  ]
]

-- A quote that the form shows is the route's, bounded by the tolerance on the side that was not typed.
pub swap_quote_inv :
    (i : CardInput) (r : SwapRoute) {q : SwapQuote}
    → i.route ≡ some r
    → swap_quote i ≡ some q
    → q ≡ quote_of i r
unfolding swap_quote
swap_quote_inv i r {q} er eq = elim (Bool-cases (fot_conflict i)) [
  | inl e ↦ absurd (none≢some (rw e at eq))
  | inr e ↦ sym (some-injective _ _ (rw (e, er) at eq))
]
  where
    none≢some : ¬ (none ≡ some q)
    none≢some k = cc

pub submit-Trades :
    (i : CardInput) (r : SwapRoute) {c : SwapCall}
    → i.route ≡ some r
    → submit i ≡ some c
    → Trades c (quote_of i r) r.path (get_or i.address [])
unfolding submit
submit-Trades i r {c} er e = elim (Option-cases (swap_quote i)) [
  | inl missing ↦ absurd (none≢some (ground arith))
  | inr (q, found) ↦ elim (Bool-cases (is_out (side_of_form i))) [
    | inl out ↦
        let same : call_exact_out i (quote_of i r) r.path (get_or i.address []) ≡ c =
          ground (arith, swap_quote_inv i r er found) in
        rw same at
          (call_exact_out-Trades i (quote_of i r) r.path (get_or i.address []) (rw out refl))
    | inr in_ ↦
        let same : call_exact_in i (quote_of i r) r.path (get_or i.address []) ≡ c =
          ground (arith, swap_quote_inv i r er found) in
        rw same at
          (call_exact_in-Trades i (quote_of i r) r.path (get_or i.address []) (rw in_ refl))
  ]
]
  where
    none≢some : ¬ (none ≡ some c)
    none≢some k = cc

cost_bound :
    (i : CardInput) (r : SwapRoute)
    → (quote_of i r).max_sold * 10_000 ≤ r.amount_in * (10_000 + i.slippage_bps)
cost_bound i r = elim (Bool-cases (is_out (side_of_form i))) [
  | inl e ↦ rw e (maximum_sold_bounds r.amount_in i.slippage_bps).0
  | inr e ↦ rw e (omega arith)
]

pub yield_bound :
    (i : CardInput) (r : SwapRoute)
    → i.slippage_bps ≤ 10_000
    → (n : ℕ) × ((quote_of i r).min_received ≡ pos n)
      × (r.amount_out * (10_000 - i.slippage_bps) < (n + 1) * 10_000)
      × (n ≤ r.amount_out)
yield_bound i r h = elim (Bool-cases (is_out (side_of_form i))) [
  | inl e ↦ rw e (r.amount_out, refl, grind arith, omega arith)
  | inr e ↦ elim (minimum_received_lem r.amount_out i.slippage_bps) [
    | inl (le, (n, same, below, above, whole)) ↦ rw e (n, same, above, whole)
    | inr (gt, neg) ↦ absurd (omega (arith, h, gt))
  ]
]

-- A swap that is sent goes along the route to the connected account. With a tolerance of at most 100% it
-- takes at most the route's input with the tolerance on top, and yields at least the route's output
-- less the tolerance, rounded down, or reverts.
pub submit-IsBounded :
    (i : CardInput) (r : SwapRoute) {c : SwapCall}
    → i.route ≡ some r
    → submit i ≡ some c
    → i.slippage_bps ≤ 10_000
    → (path_of c ≡ r.path)
      × (recipient c ≡ get_or i.address [])
      × (spends c * 10_000 ≤ r.amount_in * (10_000 + i.slippage_bps))
      × ((n : ℕ) × (demands c ≡ pos n)
          × (r.amount_out * (10_000 - i.slippage_bps) < (n + 1) * 10_000))
submit-IsBounded i r er e h =
    let t = submit-Trades i r er e in
    let (n, least, above, _) = yield_bound i r h in
    (t.along, t.payee, rw t.cost (cost_bound i r), (n, t.yield ∙ least, above))
