-- ===== src/Activity/Invariant.antt =====
-- What holds of the list of apps/web/src/state/activity.tsx whatever happens to it.
use ark_swap.Prelude.{
  ℕ, zero, suc, ◌≤◌, ◌≡◌, refl, ap, ◌∙◌, Bool, true, false, Option, none, some, List, [], ◌∷◌, map,
  Text, arith, filter, filter_map, any, take, length, length-filter, length-take_le, All,
  All-filter, All-take, Bool-cases, inl, inr,
}
use ark_swap.Activity.{
  ActivityItem, ActivityStatus, Tracked, Receipt, waiting, success, reverted, error, has_hash,
  hydrate, persist, track, settle_item, settle, dismiss, clear, watched, watch,
}
use ark_swap.Activity.Updates.{has_hash-settle_item, take_all}

-- No two entries have one hash, up to case.
abbrev pub IsUnique : List ActivityItem → Type 0
IsUnique [] = Unit
IsUnique (i ∷ all) = All (λ j. has_hash i.hash j ≡ false) all × IsUnique all

pub record IsValid (all : List ActivityItem) : Type 0 where
  pub unique : IsUnique all
  pub bounded : length all ≤ 60

-- One thing that can happen: a form tracks a transaction, a watched hash gets a receipt, the user
-- dismisses an entry or clears the list, or the page is loaded again from what it stored.
pub data Step : List ActivityItem → List ActivityItem → Type 0 where
  tracks :
      (address : Option Text) (now : ℕ) (item : Tracked) (all : List ActivityItem)
      → Step all (track address now item all)
  settles :
      (now : ℕ) (h : Text) (r : Receipt) (all : List ActivityItem)
      → any (has_hash h) (watched now all) ≡ true
      → Step all (watch h r all)
  dismisses : (h : Text) (all : List ActivityItem) → Step all (dismiss h all)
  clears : (now : ℕ) (all : List ActivityItem) → Step all (clear now all)
  reloads : (all : List ActivityItem) → Step all (hydrate (some (map some (persist all))))

pub data Reach : List ActivityItem → Type 0 where
  empty : Reach []
  next : {all more : List ActivityItem} → Reach all → Step all more → Reach more

IsUnique-filter :
    (p : ActivityItem → Bool) (all : List ActivityItem) → IsUnique all → IsUnique (filter p all)
IsUnique-filter p [] u = tt
IsUnique-filter p (i ∷ all) (new, u) =
    ground (arith, IsUnique-filter p all u, All-filter (λ j. has_hash i.hash j ≡ false) p all new)

IsUnique-take : (n : ℕ) (all : List ActivityItem) → IsUnique all → IsUnique (take n all)
IsUnique-take zero all u = tt
IsUnique-take (suc n) [] u = tt
IsUnique-take (suc n) (i ∷ all) (new, u) =
    (All-take (λ j. has_hash i.hash j ≡ false) n all new, IsUnique-take n all u)

filter-IsValid :
    (p : ActivityItem → Bool) (all : List ActivityItem) → IsValid all → IsValid (filter p all)
filter-IsValid p all v = record {
  unique = IsUnique-filter p all v.unique;
  bounded = omega (arith, length-filter p all, v.bounded);
}

take-IsValid : (all : List ActivityItem) → IsUnique all → IsValid (take 60 all)
take-IsValid all u = record { unique = IsUnique-take 60 all u; bounded = length-take_le 60 all }

any-All :
    (h : Text) (all : List ActivityItem)
    → any (has_hash h) all ≡ false
    → All (λ j. has_hash h j ≡ false) all
any-All h [] e = tt
any-All h (i ∷ all) e = ground (arith, any-All h all)

track-IsValid :
    (address : Option Text) (now : ℕ) (item : Tracked) (all : List ActivityItem)
    → IsValid all
    → IsValid (track address now item all)
unfolding track
track-IsValid none now item all v = v
track-IsValid (some address) now item all v = elim (Bool-cases (any (has_hash item.hash) all)) [
  | inl known ↦ rw known v
  | inr new ↦ rw new (take-IsValid (_ ∷ all) (any-All item.hash all new, v.unique))
]

All-settle :
    (g h : Text) (status : ActivityStatus) (all : List ActivityItem)
    → All (λ j. has_hash g j ≡ false) all
    → All (λ j. has_hash g j ≡ false) (settle h status all)
unfolding settle
All-settle g h status [] a = tt
All-settle g h status (i ∷ all) (e, a) =
    (has_hash-settle_item h g status i ∙ e, All-settle g h status all a)

hash-settle_item :
    (h : Text) (status : ActivityStatus) (i : ActivityItem) → (settle_item h status i).hash ≡ i.hash
hash-settle_item h status i = elim (Bool-cases (has_hash h i)) [ inl e ↦ rw e | inr e ↦ rw e ]

settle-IsUnique :
    (h : Text) (status : ActivityStatus) (all : List ActivityItem)
    → IsUnique all
    → IsUnique (settle h status all)
unfolding settle
settle-IsUnique h status [] u = tt
settle-IsUnique h status (i ∷ all) (new, u) = (
  rw (hash-settle_item h status i) (All-settle i.hash h status all new),
  settle-IsUnique h status all u,
)

length-settle :
    (h : Text) (status : ActivityStatus) (all : List ActivityItem)
    → length (settle h status all) ≡ length all
unfolding settle
length-settle h status [] = refl
length-settle h status (i ∷ all) = omega (arith, length-settle h status all)

settle-IsValid :
    (h : Text) (status : ActivityStatus) (all : List ActivityItem)
    → IsValid all
    → IsValid (settle h status all)
settle-IsValid h status all v = record {
  unique = settle-IsUnique h status all v.unique;
  bounded = omega (arith, length-settle h status all, v.bounded);
}

watch-IsValid :
    (h : Text) (r : Receipt) (all : List ActivityItem) → IsValid all → IsValid (watch h r all)
unfolding watch
watch-IsValid h waiting all v = v
watch-IsValid h success all v = settle-IsValid h _ all v
watch-IsValid h reverted all v = settle-IsValid h _ all v
watch-IsValid h error all v = settle-IsValid h _ all v

filter_map-some : (all : List ActivityItem) → filter_map (λ i. i) (map some all) ≡ all
filter_map-some [] = refl
filter_map-some (i ∷ all) = ap (◌∷◌ i) (filter_map-some all)

-- Loading what was stored gives the list back.
pub hydrate-persist :
    (all : List ActivityItem) → IsValid all → hydrate (some (map some (persist all))) ≡ all
unfolding hydrate persist
hydrate-persist all v = filter_map-some (take 60 all) ∙ take_all 60 all v.bounded

-- Each step keeps the list valid.
pub Step-IsValid : {all more : List ActivityItem} → Step all more → IsValid all → IsValid more
unfolding dismiss clear
Step-IsValid (tracks address now item all) v = track-IsValid address now item all v
Step-IsValid (settles now h r all e) v = watch-IsValid h r all v
Step-IsValid (dismisses h all) v = filter-IsValid _ all v
Step-IsValid (clears now all) v = filter-IsValid _ all v
Step-IsValid (reloads all) v = rw (hydrate-persist all v) v

-- Whatever the user, the wallet and the chain do, no hash is listed twice and the list never holds more
-- than 60 entries.
pub Reach-IsValid : {all : List ActivityItem} → Reach all → IsValid all
Reach-IsValid empty = record { unique = tt; bounded = omega arith }
Reach-IsValid (next r s) = Step-IsValid s (Reach-IsValid r)
