-- ===== src/Prelude/Sorting.antt =====
-- `sort` with a comparison, which keeps the order of two elements that compare as equal.
use mathlib.Core.Path.{◌≡◌, refl, ap}
use Prim.Native.Nat.{suc, ◌+◌}
use native.Mathlib.Omega.{arith}
use mathlib.Core.Logic.{inl, inr}
use mathlib.Core.Bool.{Bool, true, false}
use mathlib.Core.List.{List, [], ◌∷◌, ◌++◌, Perm, append-nil, perm_middle}
use mathlib.Core.List.Perm
use ark_swap.Prelude.Tests.{if◌then◌else◌, Bool-cases}
use ark_swap.Prelude.Lists.{length, All, All-mono}

module _ {ℓ} {A : Type ℓ} (before : A → A → Bool) where
  -- `before x y` is that the comparison of `x` with `y` is negative.
  abbrev pub place : A → List A → List A
  place x [] = x ∷ []
  place x (y ∷ ys) = if before x y then x ∷ y ∷ ys else y ∷ place x ys

  place_all : (items done : List A) → List A
  place_all [] done = done
  place_all (x ∷ xs) done = place_all xs (place x done)

  unfoldable pub sort : List A → List A
  unfolding place_all
  sort items = place_all items []

  place-Perm : (x : A) (l : List A) → Perm (place x l) (x ∷ l)
  place-Perm x [] = Perm.rfl
  place-Perm x (y ∷ ys) = elim (Bool-cases (before x y)) [
    | inl e ↦ rw (place, e) Perm.rfl
    | inr e ↦ rw (place, e) (Perm.trans (Perm.cons y (place-Perm x ys)) (Perm.swap x y ys))
  ]

  place_all-Perm : (items done : List A) → Perm (place_all items done) (items ++ done)
  unfolding place_all
  place_all-Perm [] done = Perm.rfl
  place_all-Perm (x ∷ xs) done =
      Perm.trans (place_all-Perm xs (place x done))
        (Perm.trans (Perm.append_left xs (place-Perm x done)) (perm_middle xs done))

  -- The sorted list has the elements of the list, each as often.
  pub sort-Perm : (items : List A) → Perm (sort items) items
  unfolding sort
  sort-Perm items = rw append-nil at (place_all-Perm items [])

  length-place : (x : A) (l : List A) → length (place x l) ≡ suc (length l)
  length-place x [] = refl
  length-place x (y ∷ ys) = elim (Bool-cases (before x y)) [
    | inl e ↦ rw (place, e) refl
    | inr e ↦ rw (place, e) (ap suc (length-place x ys))
  ]

  length-place_all :
      (items done : List A) → length (place_all items done) ≡ length items + length done
  unfolding place_all
  length-place_all [] done = omega arith
  length-place_all (x ∷ xs) done =
      omega (arith, length-place_all xs (place x done), length-place x done)

  pub length-sort : (items : List A) → length (sort items) ≡ length items
  unfolding sort
  length-sort items = omega (arith, length-place_all items [])

  place-All_inv {κ} : (P : A → Type κ) (x : A) (l : List A) → All P (place x l) → P x × All P l
  place-All_inv P x [] h = h
  place-All_inv P x (y ∷ ys) h = elim (Bool-cases (before x y)) [
    | inl e ↦ rw (place, e) at h
    | inr e ↦
        let (q, rest) = rw (place, e) at h in let (p, k) = place-All_inv P x ys rest in (p, (q, k))
  ]

  place_all-All_inv {κ} :
      (P : A → Type κ) (items done : List A)
      → All P (place_all items done)
      → All P items × All P done
  unfolding place_all
  place_all-All_inv P [] done h = (tt, h)
  place_all-All_inv P (x ∷ xs) done h =
      let (k, rest) = place_all-All_inv P xs (place x done) h in
      let (p, ps) = place-All_inv P x done rest in ((p, k), ps)

  -- What holds of all of the sorted list holds of all of the list.
  pub sort-All_inv {κ} : (P : A → Type κ) (items : List A) → All P (sort items) → All P items
  unfolding sort
  sort-All_inv P items h = (place_all-All_inv P items [] h).0

  place-All {κ} : (P : A → Type κ) (x : A) (l : List A) → P x → All P l → All P (place x l)
  place-All P x [] p h = (p, tt)
  place-All P x (y ∷ ys) p (q, h) = elim (Bool-cases (before x y)) [
    | inl e ↦ rw (place, e) (p, (q, h))
    | inr e ↦ rw (place, e) (q, place-All P x ys p h)
  ]

  place_all-All {κ} :
      (P : A → Type κ) (items done : List A)
      → All P items
      → All P done
      → All P (place_all items done)
  unfolding place_all
  place_all-All P [] done h k = k
  place_all-All P (x ∷ xs) done (p, h) k =
      place_all-All P xs (place x done) h (place-All P x done p k)

  pub sort-All {κ} : (P : A → Type κ) (items : List A) → All P items → All P (sort items)
  unfolding sort
  sort-All P items h = place_all-All P items [] h tt

  -- What the comparison has to mean, on the elements that are sorted, for the result to be in order.
  pub record Ranks {κ} (P : A → Type κ) (R : A → A → Type κ) : Type (ℓ ⊔ κ) where
    pub before_R : (x y : A) → P x → P y → before x y ≡ true → R x y
    pub after_R : (x y : A) → P x → P y → before x y ≡ false → R y x
    pub trans : (x y z : A) → R x y → R y z → R x z

-- Each element is related to all that come after it.
abbrev pub InOrder {ℓ κ} : {A : Type ℓ} → (A → A → Type κ) → List A → Type κ
InOrder R [] = Unit
InOrder R (x ∷ xs) = All (R x) xs × InOrder R xs

module _ {ℓ κ} {A : Type ℓ} (before : A → A → Bool) (P : A → Type κ) (R : A → A → Type κ)
    (law : Ranks before P R) where
  place-InOrder : (x : A) (l : List A) → P x → All P l → InOrder R l → InOrder R (place before x l)
  place-InOrder x [] p ps h = (tt, tt)
  place-InOrder x (y ∷ ys) p (q, ps) (below, rest) = elim (Bool-cases (before x y)) [
    | inl e ↦
        let first = law.before_R x y p q e in
        rw (place, e)
          ((first, All-mono (R x) (λ z r. law.trans x y z first r) ys below), (below, rest))
    | inr e ↦
        rw (place, e)
          (place-All before (R y) x ys (law.after_R x y p q e) below, place-InOrder x ys p ps rest)
  ]

  place_all-InOrder :
      (items done : List A)
      → All P items
      → All P done
      → InOrder R done
      → InOrder R (place_all before items done)
  unfolding place_all
  place_all-InOrder [] done k ps h = h
  place_all-InOrder (x ∷ xs) done (p, k) ps h =
      place_all-InOrder xs (place before x done) k (place-All before P x done p ps)
        (place-InOrder x done p ps h)

  -- The sorted list is in order.
  pub sort-InOrder : (items : List A) → All P items → InOrder R (sort before items)
  unfolding sort
  sort-InOrder items k = place_all-InOrder items [] k tt tt

pub All-Unit {ℓ κ} : {A : Type ℓ} (l : List A) → All (λ x. Unit {κ}) l
All-Unit [] = tt
All-Unit (x ∷ l) = (tt, All-Unit l)
