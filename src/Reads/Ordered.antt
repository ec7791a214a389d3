-- ===== src/Reads/Ordered.antt =====
-- Batched reads of apps/web/src/hooks whose answers stand in the order of the requests.
use ark_swap.Prelude.{
  ◌≡◌, refl, ap, arith, ℕ, zero, suc, ltb, true, Option, some, List, [], ◌∷◌, map, length, Text,
  get_or,
}
use ark_swap.Reads.{Request, Answer, Reader, read_if, flat_map, pair_requests, pair_addresses}
use ark_swap.Reads.Pools.{PairCount, listed_pairs}

-- A batch answers its requests in their order.
abbrev pub AnswersInOrder : (Request → Option Answer) → Reader → Type 0
AnswersInOrder answer read = (rs : List Request) → (read rs).results ≡ some (map answer rs)

pub ltb-suc : (n : ℕ) → ltb 0 (suc n) ≡ true
ltb-suc n = ground arith

-- The pairs that the factory answers, in its order.
abbrev pub factory_pairs : (Request → Option Answer) → Option Text → PairCount → List Text
factory_pairs answer factory counted =
    pair_addresses (map answer (pair_requests (get_or factory []) 0 (get_or counted.result 0)))

module _ (answer : Request → Option Answer) (read : Reader)
    (ordered : AnswersInOrder answer read) where
  pub batch-results :
      (f : Text → List Request) (xs : List Text)
      → get_or ((read_if (ltb 0 (length xs)) read (flat_map f xs)).results) []
        ≡ map answer (flat_map f xs)
  batch-results f [] = refl
  batch-results f (x ∷ xs) = rw (ltb-suc (length xs), ordered (flat_map f (x ∷ xs))) refl

  pub pair_batch-results :
      (factory : Text) (n : ℕ)
      → get_or ((read_if (ltb 0 n) read (pair_requests factory 0 n)).results) []
        ≡ map answer (pair_requests factory 0 n)
  pair_batch-results factory zero = refl
  pair_batch-results factory (suc n) =
      rw (ltb-suc n, ordered (pair_requests factory 0 (suc n))) refl

  pub listed_pairs-own :
      (factory : Option Text) (counted : PairCount)
      → listed_pairs read factory counted ≡ factory_pairs answer factory counted
  listed_pairs-own factory counted =
      ap pair_addresses (pair_batch-results (get_or factory []) (get_or counted.result 0))
