-- ===== src/Settings/Range.antt =====
-- The range that the settings stay in, and the entry in storage.
use ark_swap.Prelude.{
  ℕ, ◌≡◌, refl, Bool, true, Option, none, some, Text, any, ◌==◌, arith, Bool-cases, Option-cases,
  inl, inr,
}
use ark_swap.Prelude.Int.{ℤ, pos}
use ark_swap.Analytics.{Number, not_finite, ratio}
use ark_swap.Settings.{
  Settings, Entry, Json, undefined, null, boolean, string, numeric, composite, default_settings,
  slippage_ok, deadline_ok, kept_slippage, kept_deadline, hydrate, stored, set_slippage_bps,
  set_fee_on_transfer, reset, presets, percent_to_bps, type_slippage, type_deadline,
}

-- Above 0% and at most 50%, above no time and at most three hours.
pub record InRange (s : Settings) : Type 0 where
  pub slippage : slippage_ok s.slippage_bps ≡ true
  pub deadline : deadline_ok s.deadline_minutes ≡ true

-- One thing that happens to the settings: an entry is read, whatever it is, or a control is used.
pub data Step (big_int : Json → Option ℤ) : Settings → Settings → Type 0 where
  loads : (e : Option Entry) (s : Settings) → Step big_int s (hydrate big_int e s)
  preset :
      (bps : ℕ) (s : Settings)
      → any (λ p. p == bps) presets ≡ true
      → Step big_int s (set_slippage_bps (pos bps) s)
  types_slippage : (parsed : Number) (s : Settings) → Step big_int s (type_slippage parsed s)
  types_deadline : (parsed : Number) (s : Settings) → Step big_int s (type_deadline parsed s)
  switches : (on : Bool) (s : Settings) → Step big_int s (set_fee_on_transfer on s)
  resets : (s : Settings) → Step big_int s (reset s)

pub data Reach (big_int : Json → Option ℤ) : Settings → Type 0 where
  start : Reach big_int default_settings
  next : {s t : Settings} → Reach big_int s → Step big_int s t → Reach big_int t

default-InRange : InRange default_settings
default-InRange = record { slippage = refl; deadline = refl }

kept_slippage-ok : (bps : ℤ) → slippage_ok (kept_slippage bps) ≡ true
kept_slippage-ok bps = elim (Bool-cases (slippage_ok bps)) [
  | inl e ↦ rw (kept_slippage, e, slippage_ok, e) refl
  | inr e ↦ rw e refl
]

kept_deadline-ok : (m : Json) → deadline_ok (kept_deadline m) ≡ true
kept_deadline-ok undefined = refl
kept_deadline-ok null = refl
kept_deadline-ok (boolean b) = refl
kept_deadline-ok (string x) = refl
kept_deadline-ok composite = refl
kept_deadline-ok (numeric m) = elim (Bool-cases (deadline_ok m)) [
  | inl e ↦ rw (kept_deadline, e, deadline_ok, e) refl
  | inr e ↦ rw e refl
]

hydrate-InRange :
    (big_int : Json → Option ℤ) (e : Option Entry) (s : Settings)
    → InRange s
    → InRange (hydrate big_int e s)
unfolding hydrate
hydrate-InRange big_int none s h = h
hydrate-InRange big_int (some e) s h = elim (Option-cases (big_int e.slippage_bps)) [
  | inl thrown ↦ rw (thrown, hydrate) h
  | inr (bps, parsed) ↦
      rw (parsed, hydrate)
        (record { slippage = kept_slippage-ok bps; deadline = kept_deadline-ok e.deadline_minutes })
]

type_slippage-InRange :
    (parsed : Number) (s : Settings) → InRange s → InRange (type_slippage parsed s)
unfolding type_slippage
type_slippage-InRange not_finite s h = h
type_slippage-InRange (ratio num den) s h =
    elim (Bool-cases (slippage_ok (percent_to_bps num den))) [
      | inl e ↦ rw e (record { slippage = e; deadline = h.deadline })
      | inr e ↦ rw e h
    ]

type_deadline-InRange :
    (parsed : Number) (s : Settings) → InRange s → InRange (type_deadline parsed s)
unfolding type_deadline
type_deadline-InRange parsed s h = elim (Bool-cases (deadline_ok parsed)) [
  | inl e ↦ rw (e, type_deadline) (record { slippage = h.slippage; deadline = e })
  | inr e ↦ rw (e, type_deadline) h
]

preset-ok : (bps : ℕ) → any (λ p. p == bps) presets ≡ true → slippage_ok (pos bps) ≡ true
preset-ok bps h = ground arith

-- Whatever entry is read and whatever is typed or chosen, the slippage stays above 0% and at most 50%, and
-- the deadline above zero and at most 180 minutes.
pub Reach-InRange : {big_int : Json → Option ℤ} {s : Settings} → Reach big_int s → InRange s
Reach-InRange start = default-InRange
Reach-InRange {big_int} (next r (loads e s)) = hydrate-InRange big_int e s (Reach-InRange r)
Reach-InRange (next r (preset bps s m)) = record {
  slippage = preset-ok bps m;
  deadline = (Reach-InRange r).deadline;
}
Reach-InRange (next r (types_slippage parsed s)) = type_slippage-InRange parsed s (Reach-InRange r)
Reach-InRange (next r (types_deadline parsed s)) = type_deadline-InRange parsed s (Reach-InRange r)
Reach-InRange (next r (switches on s)) = record {
  slippage = (Reach-InRange r).slippage;
  deadline = (Reach-InRange r).deadline;
}
Reach-InRange (next r (resets s)) = default-InRange

-- Settings in their range are read back from the entry that is stored of them, whatever they were before,
-- when `BigInt` reads what `toString` prints.
pub hydrate-stored :
    (big_int : Json → Option ℤ) (to_text : ℤ → Text) (s old : Settings)
    → ((n : ℤ) → big_int (string (to_text n)) ≡ some n)
    → InRange s
    → hydrate big_int (some (stored to_text s)) old ≡ s
unfolding hydrate stored
hydrate-stored big_int to_text s old law h =
    rw (law s.slippage_bps, hydrate, h.slippage, h.deadline) refl
