-- ===== src/Activity/Updates.antt =====
-- What each operation of apps/web/src/state/activity.tsx does to the list.
use ark_swap.Prelude.{
  ℕ, zero, suc, ap, ◌≤◌, ◌<◌, ◌≡◌, refl, Bool, true, false, not, some, List, [], ◌∷◌, Text,
  text_eq_refl, lower, arith, filter, filter-All, filter-eq_of_All, find, any, take, length, All,
  option_map, Bool-cases, inl, inr,
}
use ark_swap.Activity.{
  ActivityItem, ActivityStatus, Tracked, has_hash, track, settle_item, settle, dismiss, clear,
  is_live,
}

pub has_hash-settle_item :
    (h k : Text) (status : ActivityStatus) (i : ActivityItem)
    → has_hash k (settle_item h status i) ≡ has_hash k i
has_hash-settle_item h k status i = elim (Bool-cases (has_hash h i)) [ inl e ↦ rw e | inr e ↦ rw e ]

-- `settle` changes the status of the entries with the hash, and nothing else.
pub find-settle :
    (h k : Text) (status : ActivityStatus) (all : List ActivityItem)
    → find (has_hash k) (settle h status all)
      ≡ option_map (settle_item h status) (find (has_hash k) all)
unfolding settle
find-settle h k status [] = refl
find-settle h k status (i ∷ all) =
    rw (has_hash-settle_item h k status i) (elim (Bool-cases (has_hash k i)) [
      | inl e ↦ rw e
      | inr e ↦ rw e (find-settle h k status all)
    ])

any-All-not :
    {A : Type 0} (p : A → Bool) (xs : List A) → any p xs ≡ false → All (λ x. not (p x) ≡ true) xs
any-All-not p [] e = tt
any-All-not p (x ∷ xs) e = ground (arith, any-All-not p xs)

pub take_all : {A : Type 0} (n : ℕ) (xs : List A) → length xs ≤ n → take n xs ≡ xs
take_all zero [] h = refl
take_all zero (x ∷ xs) h = absurd (omega arith)
take_all (suc n) [] h = refl
take_all (suc n) (x ∷ xs) h = ap (◌∷◌ x) (take_all n xs (omega arith))

-- Dismissing a transaction that was just tracked gives the list before it, if that had no entry with
-- its hash and had room.
pub dismiss-track :
    (address : Text) (now : ℕ) (item : Tracked) (all : List ActivityItem)
    → any (has_hash item.hash) all ≡ false
    → length all < 60
    → dismiss item.hash (track (some address) now item all) ≡ all
unfolding dismiss track
dismiss-track address now item all fresh room =
    rw (fresh, take_all 59 all (omega arith), text_eq_refl (lower item.hash))
      (filter-eq_of_All (λ i. not (has_hash item.hash i)) all
        (any-All-not (has_hash item.hash) all fresh))

-- Clearing keeps the watched entries, in order, and only those: what is left is pending and not stale,
-- and clearing again changes nothing.
pub clear_idem :
    (now : ℕ) (all : List ActivityItem)
    → All (λ i. is_live now i ≡ true) (clear now all) × (clear now (clear now all) ≡ clear now all)
unfolding clear
clear_idem now all =
    let live = filter-All (is_live now) all in
    (live, filter-eq_of_All (is_live now) (filter (is_live now) all) live)
