-- ===== src/Trades/Recent.antt =====
-- Which trades the panel shows (apps/web/src/hooks/useRecentTrades.ts).
use mathlib.Core.List.{Perm, flatten}
use Prim.Native.Nat.{min}
use ark_swap.Prelude.{
  ℕ, ◌<◌, ◌≤◌, ◌⊎◌, true, zero, suc, ◌≡◌, refl, sym, ap, subst, Bool, false, Option, none, some,
  List, [], ◌∷◌, ◌++◌, map, Text, arith, take, drop, length, ◌>>=?◌,
}
use ark_swap.Prelude.Sorting.{sort, length-sort, sort-Perm, sort-InOrder, InOrder, Ranks, All-Unit}
use ark_swap.Analytics.{AnalyticsResult, success, failure, Request, Fetched, pairs, pair_swaps}
use ark_swap.Analytics.Types.{Pagination, PairSummary, SwapRecord}
use ark_swap.Trades.{limit_of, pools_sampled, sequence, merged, is_newer, newest, recent_trades}

-- The first trade is as new as the second: later, or at the same time in a later block, or in the same block
-- with no lower log index.
abbrev pub IsNotOlder : SwapRecord → SwapRecord → Type 0
IsNotOlder a b =
    (b.timestamp < a.timestamp)
    ⊎ ((b.timestamp ≡ a.timestamp)
        × ((b.block_number < a.block_number)
            ⊎ ((b.block_number ≡ a.block_number) × (b.log_index ≤ a.log_index))))

newer-IsNotOlder : (x y : SwapRecord) → is_newer x y ≡ true → IsNotOlder x y
unfolding is_newer
newer-IsNotOlder x y e = ground arith

not_newer-IsNotOlder : (x y : SwapRecord) → is_newer x y ≡ false → IsNotOlder y x
unfolding is_newer
not_newer-IsNotOlder x y e = ground arith

IsNotOlder-trans : (x y z : SwapRecord) → IsNotOlder x y → IsNotOlder y z → IsNotOlder x z
IsNotOlder-trans x y z e f = ground arith

is_newer-Ranks : Ranks is_newer (λ x. Unit) IsNotOlder
is_newer-Ranks = record {
  before_R = λ x y p q e. newer-IsNotOlder x y e;
  after_R = λ x y p q e. not_newer-IsNotOlder x y e;
  trans = IsNotOlder-trans;
}

take-drop {ℓ} : {A : Type ℓ} (n : ℕ) (l : List A) → take n l ++ drop n l ≡ l
take-drop zero l = refl
take-drop (suc n) [] = refl
take-drop (suc n) (x ∷ l) = ap (◌∷◌ x) (take-drop n l)

length-take {ℓ} : {A : Type ℓ} (n : ℕ) (l : List A) → length (take n l) ≡ min n (length l)
length-take zero l = omega arith
length-take (suc n) [] = omega arith
length-take (suc n) (x ∷ l) = omega (arith, length-take n l)

-- The newest trades: as many as asked for, and none of the others is newer than one of them.
pub record AreNewest (limit : ℕ) (swaps shown : List SwapRecord) : Type 0 where
  pub others : List SwapRecord
  pub together : Perm (shown ++ others) swaps
  pub ordered : InOrder IsNotOlder (shown ++ others)
  pub many : length shown ≡ min limit (length swaps)

newest-AreNewest :
    (limit : ℕ) (swaps : List SwapRecord) → AreNewest limit swaps (newest limit swaps)
unfolding newest
newest-AreNewest limit swaps =
    let sorted = sort is_newer swaps in
    let split : sorted ≡ take limit sorted ++ drop limit sorted = sym (take-drop limit sorted) in
    record {
      others = drop limit sorted;
      together = subst (λ l. Perm l swaps) split (sort-Perm is_newer swaps);
      ordered =
          subst (InOrder IsNotOlder) split
            (sort-InOrder is_newer (λ x. Unit) IsNotOlder is_newer-Ranks swaps (All-Unit swaps));
      many = rw (← length-sort is_newer swaps) (length-take limit sorted);
    }

-- The trades of a page, none if the request for it failed.
abbrev pub trades_of : AnalyticsResult (List SwapRecord × Pagination) → List SwapRecord
trades_of (success page) = page.0
trades_of (failure reason message) = []

-- The trades of every page, in the order of the pages.
abbrev pub all_trades : List (AnalyticsResult (List SwapRecord × Pagination)) → List SwapRecord
all_trades pages = flatten (map trades_of pages)

merged_lem :
    (pages : List (AnalyticsResult (List SwapRecord × Pagination)))
    → merged pages ≡ all_trades pages
unfolding merged flatten
merged_lem [] = refl
merged_lem (success page ∷ pages) = ap (λ l. page.0 ++ l) (merged_lem pages)
merged_lem (failure reason message ∷ pages) = merged_lem pages

-- The query once the pools were asked for, and the pages of some pools are read.
module _
    (pages_of : List PairSummary → Option (List (AnalyticsResult (List SwapRecord × Pagination))))
    (limit : ℕ) {shown : List SwapRecord} where
  show_pages :
      (pages : Option (List (AnalyticsResult (List SwapRecord × Pagination))))
      → (pages >>=? λ p. some (success (newest limit (merged p)))) ≡ some (success shown)
      → (p : List (AnalyticsResult (List SwapRecord × Pagination))) × (pages ≡ some p)
        × AreNewest limit (all_trades p) shown
  show_pages none e = absurd (none≢some e)
    where
      none≢some :
          ¬ (◌≡◌ {A = Option (AnalyticsResult (List SwapRecord))} none (some (success shown)))
      none≢some k = cc
  show_pages (some p) e = (
    p,
    refl,
    subst (λ swaps. AreNewest limit swaps shown) (merged_lem p)
        (subst (AreNewest limit (merged p)) (success_injective e)
          (newest-AreNewest limit (merged p))),
  )
    where
      success_injective : {a b : List SwapRecord} → some (success a) ≡ some (success b) → a ≡ b
      success_injective k = cc

  show_pools :
      (r : Option (AnalyticsResult (List PairSummary × Pagination)))
      → (r >>=? λ x. elim x [
        | failure reason message ↦ some (failure reason message)
        | success data_of ↦ pages_of (data_of.0) >>=? λ p. some (success (newest limit (merged p)))
      ])
        ≡ some (success shown)
      → (data_of : List PairSummary × Pagination) × (p : List
          (AnalyticsResult (List SwapRecord × Pagination)))
        × (r ≡ some (success data_of))
        × (pages_of (data_of.0) ≡ some p)
        × AreNewest limit (all_trades p) shown
  show_pools none e = cc
  show_pools (some (failure reason message)) e = cc
  show_pools (some (success data_of)) e =
      let (p, read, ok) = show_pages (pages_of (data_of.0)) e in (data_of, p, refl, read, ok)

module _ (base_url : Option Text) (is_url : Text → Bool) where
  -- When the panel shows trades, the pools were read and a page of each was asked for, and the trades shown are
  -- the newest of those of all pages, where a page that failed has none and hides no other page's: as many
  -- as asked for if there are so many, by time, then block, then log index.
  pub recent_trades-AreNewest :
      (fetch_pairs : Request → Fetched (List PairSummary × Pagination))
      (fetch_swaps : Request → Fetched (List SwapRecord × Pagination)) (limit : ℕ)
      {shown : List SwapRecord}
      → recent_trades base_url is_url fetch_pairs fetch_swaps limit ≡ some (success shown)
      → (data_of : List PairSummary × Pagination) × (pages : List
          (AnalyticsResult (List SwapRecord × Pagination)))
        × (pairs base_url is_url fetch_pairs (limit_of pools_sampled) [] ≡ some (success data_of))
        × (sequence (
              map
                (λ pool. pair_swaps base_url is_url fetch_swaps pool.address (limit_of limit) [])
                (data_of.0))
            ≡ some pages)
        × AreNewest limit (all_trades pages) shown
  unfolding recent_trades
  recent_trades-AreNewest fetch_pairs fetch_swaps limit {shown} e =
      show_pools
        (λ pools. sequence (
          map (λ pool. pair_swaps base_url is_url fetch_swaps pool.address (limit_of limit) [])
            pools))
        limit (pairs base_url is_url fetch_pairs (limit_of pools_sampled) []) e
