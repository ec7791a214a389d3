-- ===== src/Panels/Shown.antt =====
-- What the panel of the deepest pool and the menu of transactions show.
use ark_swap.Prelude.{
  ℕ, get_or, ◌≡◌, refl, sym, ◌∙◌, subst, if◌then◌else◌, Bool, true, false, not, ◌&&◌, Option, none,
  some, List, [], ◌∷◌, arith, any, filter, All, Bool-cases, inl, inr, length, ◌≤◌, length-filter,
  ltb, lt→ltb, Text, text_eq, lower, ◌⊎◌, leb→le, filter-All, ap, suc,
}
use mathlib.Core.Option.{some-injective}
use ark_swap.Activity.{ActivityItem, is_live, clear, account_items}
use ark_swap.Analytics.Types.{ChartPoint}
use ark_swap.Panels.{
  ChartInput, data_of, ChartView, has_tvl, priced, enough_history, unavailable, pair, is_some_pair,
  chart_view, activity_list, is_clearable,
}

live-clearable : (now : ℕ) (i : ActivityItem) → is_live now i ≡ not (is_clearable now i)
live-clearable now i = ground arith

any_live :
    (now : ℕ) (items : List ActivityItem)
    → any (is_clearable now) items ≡ ltb (length (filter (is_live now) items)) (length items)
any_live now [] = refl
any_live now (i ∷ items) = elim (Bool-cases (is_clearable now i)) [
  | inl e ↦
      rw (any, e, filter, live-clearable now i, e)
        (sym (lt→ltb _ _ (omega (arith, length-filter (is_live now) items))))
  | inr e ↦ rw (any, e, filter, live-clearable now i, e) (any_live now items ∙ ltb-suc _ _)
]
  where
    ltb-suc : (a b : ℕ) → ltb a b ≡ ltb (suc a) (suc b)
    ltb-suc a b = ground arith

filter_comm {ℓ} :
    {A : Type ℓ} (p q : A → Bool) (xs : List A) → filter p (filter q xs) ≡ filter q (filter p xs)
filter_comm p q [] = refl
filter_comm p q (x ∷ xs) = elim (Bool-cases (p x)) [
  | inl e ↦ elim (Bool-cases (q x)) [
    | inl f ↦ simp (e, f) (ap (◌∷◌ x) (filter_comm p q xs))
    | inr f ↦ simp (e, f) (filter_comm p q xs)
  ]
  | inr e ↦ elim (Bool-cases (q x)) [
    | inl f ↦ simp (e, f) (filter_comm p q xs)
    | inr f ↦ simp (e, f) (filter_comm p q xs)
  ]
]

account_items-clear :
    (address : Option Text) (now : ℕ) (items : List ActivityItem)
    → account_items address (clear now items) ≡ filter (is_live now) (account_items address items)
unfolding account_items clear
account_items-clear none now items = refl
account_items-clear (some a) now items =
    filter_comm (λ i. text_eq (lower i.account) (lower a)) (is_live now) items

-- The menu of an account offers to clear its list exactly when that takes one of its transactions away.
pub activity_list-clear :
    (now : ℕ) (address : Option Text) (items : List ActivityItem)
    → (activity_list now (account_items address items)).clear_button
      ≡ ltb
          (length (account_items address (clear now items)))
          (length (account_items address items))
unfolding activity_list
activity_list-clear now address items =
    rw (account_items-clear address now items) (any_live now (account_items address items))

-- The note that there is not enough history and no line, or a line of at least two points with values.
abbrev pub IsDrawn : ChartView → Type 0
IsDrawn v =
    ((v.not_enough ≡ true) × (v.line ≡ none))
    ⊎ ((points : List ChartPoint) × (v.not_enough ≡ false)
        × (v.line ≡ some points)
        × (2 ≤ length points)
        × All (λ p. has_tvl p ≡ true) points)

view_of : ChartInput → ChartView
view_of i = record {
  warning = unavailable i;
  loading = not (unavailable i) && i.is_loading;
  not_enough = not (unavailable i) && not i.is_loading && not (enough_history i);
  line = if enough_history i then some (priced i) else none;
}

view_of-IsDrawn :
    (i : ChartInput) → unavailable i ≡ false → i.is_loading ≡ false → IsDrawn (view_of i)
unfolding view_of priced
view_of-IsDrawn i calm ready = elim (Bool-cases (enough_history i)) [
  | inr few ↦ inl (rw (calm, ready, few) refl, rw few refl)
  | inl many ↦ inr (
    priced i,
    rw (calm, ready, many) refl,
    rw many refl,
    leb→le 2 _ many,
    filter-All has_tvl (get_or (data_of i.chart) []),
  )
]

-- A panel without a warning and without a note that it waits draws a line of at least two points that have
-- a value each, or says that there is not enough history and draws none.
pub chart_view-IsDrawn :
    (i : ChartInput) {v : ChartView}
    → chart_view i ≡ some v
    → v.warning ≡ false
    → v.loading ≡ false
    → IsDrawn v
unfolding chart_view view_of
chart_view-IsDrawn i {v} e calm ready =
    elim (Bool-cases (not i.is_loading && not (unavailable i) && not (is_some_pair i (pair i)))) [
      | inl hidden ↦ absurd (none≢some (rw (chart_view, hidden) at e))
      | inr shown ↦
          let built : view_of i ≡ v = some-injective _ _ (rw (chart_view, shown) at e) in
          let warned : unavailable i ≡ false = ap (λ x. x.warning) built ∙ calm in
          let waits : (not (unavailable i) && i.is_loading) ≡ false =
            ap (λ x. x.loading) built ∙ ready in
          subst IsDrawn built (view_of-IsDrawn i warned (rw warned at waits))
    ]
  where
    none≢some : ¬ (none ≡ some v)
    none≢some k = cc
