-- ===== src/Sent/Tracked.antt =====
-- The swaps of apps/web/src/components/SwapCard.tsx in the list of apps/web/src/state/activity.tsx.
use ark_swap.Prelude.{
  ◌≡◌, refl, ℕ, false, Option, none, some, List, ◌∷◌, Text, any, text_eq_refl, lower, Bool-cases,
  Option-cases, inl, inr, arith,
}
use ark_swap.SwapForm.{CardInput, SwapQuote, swap_quote}
use ark_swap.SwapForm.Calls.{SwapCall, submit}
use ark_swap.Activity.{ActivityItem, Tracked, pending, has_hash, track, account_items}
use ark_swap.Sent.{swap_tracked, after_swap}

-- A hash that is reported twice is listed once.
pub track_idem :
    (address : Option Text) (now later : ℕ) (item : Tracked) (all : List ActivityItem)
    → track address later item (track address now item all) ≡ track address now item all
unfolding track
track_idem none now later item all = refl
track_idem (some a) now later item all = elim (Bool-cases (any (has_hash item.hash) all)) [
  | inl e ↦ rw (e, e) refl
  | inr e ↦ rw (e, text_eq_refl (lower item.hash)) refl
]

module _ (format_units : ℕ → ℕ → Text) (i : CardInput) (hash : Text) (now : ℕ)
    (all : List ActivityItem) where
  after_swap_unsent : submit i ≡ none → after_swap format_units i hash now all ≡ all
  unfolding after_swap
  after_swap_unsent e = rw (after_swap, e) refl

  after_swap_unquoted : swap_quote i ≡ none → after_swap format_units i hash now all ≡ all
  unfolding after_swap
  after_swap_unquoted n = elim (Option-cases (submit i)) [
    | inl e ↦ rw (after_swap, e) refl
    | inr (call, e) ↦ rw (after_swap, e, n) refl
  ]

  after_swap_sent :
      {call : SwapCall} {q : SwapQuote}
      → submit i ≡ some call
      → swap_quote i ≡ some q
      → after_swap format_units i hash now all
        ≡ track i.address now (swap_tracked format_units i q hash) all
  unfolding after_swap
  after_swap_sent e k = rw (after_swap, e, k) refl

-- When the wallet reports the hash of a swap once more, the list stays as it is, whatever the form shows.
pub after_swap_idem :
    (format_units : ℕ → ℕ → Text) (i : CardInput) (hash : Text) (now later : ℕ)
    (all : List ActivityItem)
    → after_swap format_units i hash later (after_swap format_units i hash now all)
      ≡ after_swap format_units i hash now all
after_swap_idem format_units i hash now later all = elim (Option-cases (submit i)) [
  | inl e ↦
      let none_sent = λ (at : ℕ). after_swap_unsent format_units i hash at all e in
      rw (none_sent now) (none_sent later)
  | inr (call, e) ↦ elim (Option-cases (swap_quote i)) [
    | inl n ↦
        let unquoted = λ (at : ℕ). after_swap_unquoted format_units i hash at all n in
        rw (unquoted now) (unquoted later)
    | inr (q, k) ↦
        rw
          (
            after_swap_sent format_units i hash now all e k,
            after_swap_sent format_units i hash later
                (track i.address now (swap_tracked format_units i q hash) all) e k,
          )
          (track_idem i.address now later (swap_tracked format_units i q hash) all)
  ]
]

submit_parts :
    (i : CardInput) {call : SwapCall}
    → submit i ≡ some call
    → (a : Text) × (q : SwapQuote) × (i.address ≡ some a) × (swap_quote i ≡ some q)
unfolding submit
submit_parts i {call} e = elim (Option-cases i.address) [
  | inl missing ↦ absurd (none≢some (ground arith))
  | inr (a, at) ↦ elim (Option-cases (swap_quote i)) [
    | inl unquoted ↦ absurd (none≢some (ground arith))
    | inr (q, quoted) ↦ (a, q, at, quoted)
  ]
]
  where
    none≢some : ¬ (none ≡ some call)
    none≢some k = cc

-- A swap that is sent with a hash that the list does not hold comes first among the account's
-- transactions, as pending, from the connected account.
pub after_swap_first :
    (format_units : ℕ → ℕ → Text) (i : CardInput) (hash : Text) (now : ℕ) (all : List ActivityItem)
    {call : SwapCall}
    → submit i ≡ some call
    → any (has_hash hash) all ≡ false
    → (item : ActivityItem) × (rest : List ActivityItem) × (account_items i.address
          (after_swap format_units i hash now all)
        ≡ item ∷ rest)
      × (item.hash ≡ hash)
      × (item.status ≡ pending)
      × (i.address ≡ some item.account)
unfolding account_items track swap_tracked
after_swap_first format_units i hash now all {call} e fresh =
    let (a, q, at, quoted) = submit_parts i e in
    rw (after_swap_sent format_units i hash now all e quoted, at, fresh, text_eq_refl (lower a))
      (_, _, refl, refl, refl, refl)
