-- ===== src/Prelude/Lists.antt =====
-- Lists measured and indexed by native numbers, under the library's names, and predicates on lists.
use Prim.Native.Nat.{ℕ, zero, suc, ◌+◌, ◌≤◌}
use mathlib.Core.Path.{◌≡◌, refl, ap}
use mathlib.Core.Bool.{Bool, true, false, ◌||◌, ◌&&◌}
use mathlib.Core.List.{List, [], ◌∷◌, ◌++◌, map, reverse_aux}
use mathlib.Core.Option.{Option, none, some}
use native.Mathlib.Nat.{zero-add, suc-add}
use native.Mathlib.Omega.{arith}
use ark_swap.Prelude.Tests.{if◌then◌else◌, Bool-cases}
use mathlib.Core.Logic.{inl, inr}
use mathlib.Core.Option.{some-injective}

module _ {ℓ} {A : Type ℓ} where
  abbrev pub length : List A → ℕ
  length [] = 0
  length (x ∷ xs) = suc (length xs)

  abbrev pub get_elem? : List A → ℕ → Option A
  get_elem? [] i = none
  get_elem? (x ∷ xs) zero = some x
  get_elem? (x ∷ xs) (suc i) = get_elem? xs i

  abbrev pub take : ℕ → List A → List A
  take zero xs = []
  take (suc n) [] = []
  take (suc n) (x ∷ xs) = x ∷ take n xs

  abbrev pub drop : ℕ → List A → List A
  drop zero xs = xs
  drop (suc n) [] = []
  drop (suc n) (x ∷ xs) = drop n xs

  -- A write out of bounds changes nothing.
  abbrev pub set : List A → ℕ → A → List A
  set [] i v = []
  set (x ∷ xs) zero v = v ∷ xs
  set (x ∷ xs) (suc i) v = x ∷ set xs i v

  -- `Array.prototype.filter`, `some` and `find`.
  abbrev pub filter : (A → Bool) → List A → List A
  filter p [] = []
  filter p (x ∷ xs) = if p x then x ∷ filter p xs else filter p xs

  abbrev pub any : (A → Bool) → List A → Bool
  any p [] = false
  any p (x ∷ xs) = p x || any p xs

  abbrev pub find : (A → Bool) → List A → Option A
  find p [] = none
  find p (x ∷ xs) = if p x then some x else find p xs

  abbrev pub all : (A → Bool) → List A → Bool
  all p [] = true
  all p (x ∷ xs) = p x && all p xs

  abbrev pub filter_map {κ} : {B : Type κ} → (A → Option B) → List A → List B
  filter_map f [] = []
  filter_map f (x ∷ xs) = elim (f x) [ none ↦ filter_map f xs | some y ↦ y ∷ filter_map f xs ]

  -- `o !== undefined`.
  abbrev pub is_known : Option A → Bool
  is_known none = false
  is_known (some x) = true

  -- `?.` and `??`.
  abbrev pub option_map {κ} : {B : Type κ} → (A → B) → Option A → Option B
  option_map f none = none
  option_map f (some x) = some (f x)

  abbrev pub get_or : Option A → A → A
  get_or none d = d
  get_or (some x) d = x

  infixl 5 ◌>>=?◌
  abbrev pub ◌>>=?◌ {κ} : {B : Type κ} → Option A → (A → Option B) → Option B
  none >>=? f = none
  some x >>=? f = f x

  pub length-append : (xs ys : List A) → length (xs ++ ys) ≡ length xs + length ys
  length-append [] ys = omega arith
  length-append (x ∷ xs) ys = omega (arith, length-append xs ys)

  pub get_elem?-append :
      (xs ys : List A) (k : ℕ) → get_elem? (xs ++ ys) (length xs + k) ≡ get_elem? ys k
  get_elem?-append [] ys k = rw zero-add
  get_elem?-append (x ∷ xs) ys k = rw suc-add (get_elem?-append xs ys k)

  pub set-append :
      (xs ys : List A) (k : ℕ) (v : A) → set (xs ++ ys) (length xs + k) v ≡ xs ++ set ys k v
  set-append [] ys k v = rw zero-add
  set-append (x ∷ xs) ys k v = rw suc-add (ap (λ l. x ∷ l) (set-append xs ys k v))

  pub length-filter : (p : A → Bool) (xs : List A) → length (filter p xs) ≤ length xs
  length-filter p [] = omega arith
  length-filter p (x ∷ xs) = ground (arith, length-filter p xs)

  pub length-take_le : (n : ℕ) (xs : List A) → length (take n xs) ≤ n
  length-take_le zero xs = omega arith
  length-take_le (suc n) [] = omega arith
  length-take_le (suc n) (x ∷ xs) = omega (arith, length-take_le n xs)

  abbrev pub All {κ} : (A → Type κ) → List A → Type κ
  All P [] = Unit
  All P (x ∷ xs) = P x × All P xs

module _ {ℓ} {A : Type ℓ} (p : A → Bool) where
  -- `find` returns the first element that passes.
  pub find_first :
      (before : List A) (x : A) (after : List A)
      → All (λ y. p y ≡ false) before
      → p x ≡ true
      → find p (before ++ x ∷ after) ≡ some x
  find_first [] x after h e = rw e
  find_first (y ∷ ys) x after (n, h) e = rw n (find_first ys x after h e)

  pub find-eq-some :
      (xs : List A) {x : A}
      → find p xs ≡ some x
      → (before : List A) × (after : List A) × (xs ≡ before ++ x ∷ after)
        × All (λ y. p y ≡ false) before
        × (p x ≡ true)
  find-eq-some [] h = cc
  find-eq-some (y ∷ ys) {x} h = elim (Bool-cases (p y)) [
    | inl e ↦
        let same : y ≡ x = some-injective _ _ (rw e at h) in
        ([], ys, ap (λ z. z ∷ ys) same, tt, rw same at e)
    | inr e ↦
        let (before, after, split, fails, here) = find-eq-some ys (rw e at h) in
        (y ∷ before, after, ap (λ l. y ∷ l) split, (e, fails), here)
  ]

  pub find-eq-none : (xs : List A) → find p xs ≡ none → All (λ y. p y ≡ false) xs
  find-eq-none [] h = tt
  find-eq-none (y ∷ ys) h = elim (Bool-cases (p y)) [
    | inl e ↦ absurd (some≢none (rw e at h))
    | inr e ↦ (e, find-eq-none ys (rw e at h))
  ]
    where
      some≢none : ¬ (some y ≡ none)
      some≢none e = cc

  pub filter-eq_of_All : (xs : List A) → All (λ y. p y ≡ true) xs → filter p xs ≡ xs
  filter-eq_of_All [] h = refl
  filter-eq_of_All (y ∷ ys) (e, h) = rw (e, filter-eq_of_All ys h)

  pub filter-All : (xs : List A) → All (λ y. p y ≡ true) (filter p xs)
  filter-All [] = tt
  filter-All (y ∷ ys) = ground (arith, filter-All ys)

module _ {ℓ κ} {A : Type ℓ} (P : A → Type κ) where
  pub All-append : (xs ys : List A) → All P xs → All P ys → All P (xs ++ ys)
  All-append [] ys h k = k
  All-append (x ∷ xs) ys (e, h) k = (e, All-append xs ys h k)

  pub All-split : (xs ys : List A) → All P (xs ++ ys) → All P xs × All P ys
  All-split [] ys h = (tt, h)
  All-split (x ∷ xs) ys (e, h) = let (a, b) = All-split xs ys h in ((e, a), b)

  pub All-filter : (p : A → Bool) (xs : List A) → All P xs → All P (filter p xs)
  All-filter p [] h = tt
  All-filter p (x ∷ xs) (e, h) = ground (arith, All-filter p xs h)

  pub All-take : (n : ℕ) (xs : List A) → All P xs → All P (take n xs)
  All-take zero xs h = tt
  All-take (suc n) [] h = tt
  All-take (suc n) (x ∷ xs) (e, h) = (e, All-take n xs h)

  pub All-map_of {ι} :
      {B : Type ι} (f : B → A) (xs : List B) → All (λ x. P (f x)) xs → All P (map f xs)
  All-map_of f [] h = tt
  All-map_of f (x ∷ xs) (e, h) = (e, All-map_of f xs h)

  pub All-mono {ι} : {Q : A → Type ι} (f : (x : A) → Q x → P x) (xs : List A) → All Q xs → All P xs
  All-mono f [] h = tt
  All-mono f (x ∷ xs) (e, h) = (f x e, All-mono f xs h)

  pub All-reverse_aux : (xs ys : List A) → All P xs → All P ys → All P (reverse_aux xs ys)
  All-reverse_aux [] ys h k = k
  All-reverse_aux (x ∷ xs) ys (e, h) k = All-reverse_aux xs (x ∷ ys) h (e, k)
