-- ===== src/Trades/DeepestPair.antt =====
-- Which pool stands for the exchange (apps/web/src/hooks/useAnalytics.ts).
use mathlib.Core.Bool.{false≢true}
use native.Mathlib.Nat.{mul-lt-mul_of_pos_right, mul-le-mul_right}
use mathlib.Core.List.{Mem, mem-cons_self, mem-cons_of_mem}
use ark_swap.Prelude.{
  ℕ, suc, ◌+◌, ◌*◌, ◌≤◌, ◌<◌, ◌≡◌, ◌⊎◌, refl, sym, ◌∙◌, subst, Bool, true, false, none, some, List,
  [], ◌∷◌, Text, arith, ltb, ltb→lt, lt→ltb, filter, All, All-mono, Bool-cases, inl, inr,
}
use ark_swap.Prelude.Int.{pos, scale}
use ark_swap.Prelude.Sorting.{sort, sort-All, sort-All_inv, sort-InOrder, InOrder, Ranks}
use ark_swap.Analytics.{Number, ratio}
use ark_swap.Analytics.Types.{PairSummary}
use ark_swap.Trades.{number_lt, is_priced, tvl_number, deepest}

module _ {ℓ κ} {A : Type ℓ} (p : A → Bool) (Q : A → Type κ) where
  -- What holds of all that a filter keeps.
  All-filter_inv : (xs : List A) → All Q (filter p xs) → All (λ x. p x ≡ true → Q x) xs
  All-filter_inv [] h = tt
  All-filter_inv (x ∷ xs) h = elim (Bool-cases (p x)) [
    | inl e ↦ let (q, k) = rw e at h in ((λ f. q), All-filter_inv xs k)
    | inr e ↦ ((λ f. absurd (false≢true (sym e ∙ f))), All-filter_inv xs (rw e at h))
  ]

All-filter_of {ℓ κ} :
    {A : Type ℓ} (p : A → Bool) (Q : A → Type κ) (xs : List A)
    → All (λ x. p x ≡ true → Q x) xs
    → All Q (filter p xs)
All-filter_of p Q [] h = tt
All-filter_of p Q (x ∷ xs) (q, h) = elim (Bool-cases (p x)) [
  | inl e ↦ rw e (q e, All-filter_of p Q xs h)
  | inr e ↦ rw e (All-filter_of p Q xs h)
]

All-Mem {ℓ} : {A : Type ℓ} (xs : List A) → All (λ x. Mem x xs) xs
All-Mem [] = tt
All-Mem (x ∷ xs) =
    (mem-cons_self, All-mono (λ y. Mem y (x ∷ xs)) (λ y m. mem-cons_of_mem x m) xs (All-Mem xs))

scale-pos : (a n : ℕ) → scale (pos a) n ≡ pos (a * n)
scale-pos a n = ground arith

scaled_lt : (a b den : ℕ) → ltb (a * suc den + 0) (b * suc den + 0) ≡ ltb a b
scaled_lt a b den = elim (Bool-cases (ltb a b)) [
  | inl e ↦
      let more : a * suc den < b * suc den = mul-lt-mul_of_pos_right (ltb→lt a b e) (omega arith) in
      rw e (lt→ltb _ _ (omega (arith, more)))
  | inr e ↦
      let less : b * suc den ≤ a * suc den = mul-le-mul_right (suc den) (ground arith) in
      rw e (not_lt (a * suc den) (b * suc den) less)
]
  where
    not_lt : (x y : ℕ) → y ≤ x → ltb (x + 0) (y + 0) ≡ false
    not_lt x y h = ground arith

number_lt-ratio : (a b den : ℕ) → number_lt (ratio (pos a) den) (ratio (pos b) den) ≡ ltb a b
number_lt-ratio a b den = rw (scale-pos a (suc den), scale-pos b (suc den)) (scaled_lt a b den)

module _ (number_of : Text → Number) (units : PairSummary → ℕ) (den : ℕ) where
  -- The number that the pool's value reads as, in units of a common fraction.
  abbrev pub IsUnits : PairSummary → Type 0
  IsUnits p = tvl_number number_of p ≡ ratio (pos (units p)) den

  abbrev deeper : PairSummary → PairSummary → Bool
  deeper a b = number_lt (tvl_number number_of b) (tvl_number number_of a)

  IsDeep : PairSummary → PairSummary → Type 0
  IsDeep a b = units b ≤ units a

  deeper-Ranks : Ranks deeper IsUnits IsDeep
  unfolding IsDeep
  deeper-Ranks = record {
    before_R = λ x y p q e.
        let k : ltb (units y) (units x) ≡ true =
          sym (number_lt-ratio (units y) (units x) den) ∙ (rw (p, q) at e) in
        ground arith;
    after_R = λ x y p q e.
        let k : ltb (units y) (units x) ≡ false =
          sym (number_lt-ratio (units y) (units x) den) ∙ (rw (p, q) at e) in
        ground arith;
    trans = λ x y z e f. omega arith;
  }

  -- The first of the sorted pools, when there is one.
  sort_first :
      (sorted data_of : List PairSummary)
      → sorted ≡ sort deeper (filter is_priced data_of)
      → InOrder IsDeep sorted
      → ((deepest number_of data_of ≡ none) × All (λ p. is_priced p ≡ false) data_of)
        ⊎ ((best : PairSummary) × (deepest number_of data_of ≡ some best)
            × Mem best data_of
            × (is_priced best ≡ true)
            × All (λ p. units p ≤ units best) (filter is_priced data_of))
  unfolding deepest IsDeep
  sort_first [] data_of e h =
      let nothing =
        sort-All_inv deeper (λ p. ⊥) (filter is_priced data_of) (subst (All (λ p. ⊥)) e tt) in
      inl (
        rw (deepest, ← e) refl,
        All-mono (λ p. is_priced p ≡ false) (λ p f. not_priced p f) data_of
            (All-filter_inv is_priced (λ p. ⊥) data_of nothing),
      )
    where
      not_priced : (p : PairSummary) → (is_priced p ≡ true → ⊥) → is_priced p ≡ false
      not_priced p f = elim (Bool-cases (is_priced p)) [ inl k ↦ absurd (f k) | inr k ↦ k ]
  sort_first (best ∷ others) data_of e (h, rest) =
      let kept =
        sort-All deeper (λ p. Mem p data_of × (is_priced p ≡ true)) (filter is_priced data_of)
          (both data_of) in
      let (member, priced) =
        (subst (All (λ p. Mem p data_of × (is_priced p ≡ true))) (sym e) kept).0 in
      let top =
        sort-All_inv deeper (λ p. units p ≤ units best) (filter is_priced data_of)
          (subst (All (λ p. units p ≤ units best)) e (omega arith, h)) in
      inr (best, rw (deepest, ← e) refl, member, priced, top)
    where
      both : (l : List PairSummary) → All (λ p. Mem p l × (is_priced p ≡ true)) (filter is_priced l)
      both l =
          All-filter_of is_priced (λ p. Mem p l × (is_priced p ≡ true)) l
            (All-mono (λ p. is_priced p ≡ true → Mem p l × (is_priced p ≡ true)) (λ p m k. (m, k)) l
              (All-Mem l))

  -- The pool that is taken is a priced one of the list and none is priced higher; there is none only when
  -- no pool is priced. The values read as numbers over a common fraction.
  pub deepest_lem :
      (data_of : List PairSummary)
      → All IsUnits (filter is_priced data_of)
      → ((deepest number_of data_of ≡ none) × All (λ p. is_priced p ≡ false) data_of)
        ⊎ ((best : PairSummary) × (deepest number_of data_of ≡ some best)
            × Mem best data_of
            × (is_priced best ≡ true)
            × All (λ p. units p ≤ units best) (filter is_priced data_of))
  deepest_lem data_of h =
      sort_first _ data_of refl
        (sort-InOrder deeper IsUnits IsDeep deeper-Ranks (filter is_priced data_of) h)
