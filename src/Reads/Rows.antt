-- ===== src/Reads/Rows.antt =====
-- The list of pools of apps/web/src/hooks/usePools.ts against reading every pair and every token at its
-- own address, without batches, positions and a shared list of unknown tokens.
use ark_swap.Prelude.{
  ◌≡◌, refl, sym, ap, ◌∙◌, inl, inr, ℕ, ltb, false, Option, none, some, List, [], ◌∷◌, map,
  filter_map, length, Text, lower, is_empty, lower-is_empty, get_or, All, All-mono, Bool-cases,
  Option-cases, ◌>>=?◌, if◌then◌else◌,
}
use ark_swap.Tokens.{Token, token_by_address}
use ark_swap.Tokens.Resolve.{token_by_address_first}
use ark_swap.Valuation.{PoolToken, PricedPool}
use ark_swap.PoolList.{
  PoolRow, listed_as, read_as, resolve, resolve_address, raw_row, raw_rows, pool_row, pool_rows,
  unknown_tokens,
}
use ark_swap.Reads.{
  Request, Answer, Reader, read_if, flat_map, detail_requests, meta_requests, as_address,
}
use ark_swap.Reads.Decoded.{pair_read_of, token_read_of, pair_reads-append, token_reads-append}
use ark_swap.Reads.Pools.{PairCount, use_pools, decoded_pools, listed_pairs}
use ark_swap.Reads.Ordered.{AnswersInOrder, ltb-suc, batch-results, factory_pairs, listed_pairs-own}
use ark_swap.Reads.Unknown.{IsCovered, unknown_tokens-IsCovered, unknown_tokens-All, read_of-Noted}

-- The address stands in an answer.
abbrev pub IsAnswered : (Request → Option Answer) → Text → Type 0
IsAnswered answer a = (r : Request) × (as_address (answer r) ≡ some a)

-- The answers spell an address in one way.
abbrev pub SpellsAlike : (Request → Option Answer) → Type 0
SpellsAlike answer =
    (a b : Text) → IsAnswered answer a → IsAnswered answer b → lower a ≡ lower b → a ≡ b

abbrev keep {ℓ} : {A : Type ℓ} → Option A → List A → List A
keep o xs = elim o [ none ↦ xs | some x ↦ x ∷ xs ]

module _ (answer : Request → Option Answer) (tokens : List Token) where
  -- A token as the list, or else its own contract, describes it.
  abbrev pub own_token : Text → PoolToken
  own_token a = elim (token_by_address tokens (some a)) [
    | none ↦ read_as (token_read_of answer a) a
    | some t ↦ listed_as t (get_or t.address [])
  ]

  abbrev pub own_token_of : Option Text → Option PoolToken
  own_token_of o = o >>=? λ a. if is_empty a then none else some (own_token a)

  -- A pair as its own contract describes it; one with a failed read is left out.
  abbrev pub own_row : Text → Option (PricedPool × ℕ)
  own_row p =
      let d = pair_read_of answer p in
      own_token_of d.token0 >>=? λ t0. own_token_of d.token1 >>=? λ t1. d.reserves >>=? λ r.
      d.total_supply >>=? λ supply.
      some (record { pair = p; token0 = t0; token1 = t1; reserve0 = r.0; reserve1 = r.1 }, supply)

  abbrev pub own_rows : List Text → List PoolRow
  own_rows pairs =
      let raw = filter_map own_row pairs in map (pool_row tokens [] [] (map (λ r. r.0) raw)) raw

  module _ (us : List Text) (alike : SpellsAlike answer)
      (answered : All (IsAnswered answer) us) where
    resolve_address-own :
        (a : Text)
        → is_empty a ≡ false
        → IsAnswered answer a
        → IsCovered tokens us (some a)
        → resolve_address tokens us (map (token_read_of answer) us) a ≡ own_token a
    unfolding resolve_address
    resolve_address-own a full k c = elim (Option-cases (token_by_address tokens (some a))) [
      | inl missing ↦
          let own =
            read_of-Noted (token_read_of answer) a us
              (All-mono _ (λ u h. alike u a h k) us answered) (c a refl full missing) in
          rw (missing, resolve_address, own, own_token) refl
      | inr (t, found) ↦
          let (before, after, x, split, first, listed, same) =
            token_by_address_first tokens a found in
          let full_too : is_empty x ≡ false =
            sym (lower-is_empty x) ∙ ap is_empty same ∙ lower-is_empty a ∙ full in
          rw (found, listed, full_too, resolve_address, own_token) refl
    ]

    resolve-own :
        (o : Option Text)
        → ((a : Text) → o ≡ some a → IsAnswered answer a)
        → IsCovered tokens us o
        → resolve tokens us (map (token_read_of answer) us) o ≡ own_token_of o
    unfolding resolve
    resolve-own none k c = refl
    resolve-own (some a) k c = elim (Bool-cases (is_empty a)) [
      | inl e ↦ rw e refl
      | inr e ↦ rw (e, resolve_address-own a e (k a refl) c) refl
    ]

    raw_row-own :
        (p : Text)
        → IsCovered tokens us (pair_read_of answer p).token0
        → IsCovered tokens us (pair_read_of answer p).token1
        → raw_row tokens us (map (token_read_of answer) us) (pair_read_of answer p) ≡ own_row p
    raw_row-own p c0 c1 =
        rw (resolve-own _ (λ a e. (_, e)) c0, resolve-own _ (λ a e. (_, e)) c1) refl

    raw_rows-own :
        (pairs : List Text)
        → All
            (λ d. IsCovered tokens us d.token0 × IsCovered tokens us d.token1)
            (map (pair_read_of answer) pairs)
        → raw_rows tokens us (map (token_read_of answer) us) (map (pair_read_of answer) pairs)
          ≡ filter_map own_row pairs
    unfolding raw_rows
    raw_rows-own [] c = refl
    raw_rows-own (p ∷ pairs) ((c0, c1), c) =
        ap
          (λ o.
            keep o (
              raw_rows tokens us (map (token_read_of answer) us) (map (pair_read_of answer) pairs)))
          (raw_row-own p c0 c1)
        ∙ ap (keep (own_row p)) (raw_rows-own pairs c)

module _ (answer : Request → Option Answer) (read : Reader)
    (ordered : AnswersInOrder answer read) where
  reads-IsAnswered :
      (pairs : List Text)
      → All
          (λ d.
            ((a : Text) → d.token0 ≡ some a → IsAnswered answer a)
            × ((a : Text) → d.token1 ≡ some a → IsAnswered answer a))
          (map (pair_read_of answer) pairs)
  reads-IsAnswered [] = tt
  reads-IsAnswered (p ∷ pairs) = ((λ a e. (_, e), λ a e. (_, e)), reads-IsAnswered pairs)

  module _ (alike : SpellsAlike answer) (tokens : List Token) where
    decoded_pools-own :
        (pairs : List Text)
        → decoded_pools read tokens pairs (map answer (flat_map detail_requests pairs))
          ≡ own_rows answer tokens pairs
    unfolding decoded_pools pool_rows
    decoded_pools-own pairs =
        let ds = map (pair_read_of answer) pairs in
        let us = unknown_tokens tokens ds [] in
        let answered : All (IsAnswered answer) us =
          unknown_tokens-All tokens _ ds [] (reads-IsAnswered pairs) tt in
        rw
          (
            pair_reads-append answer [] 0 pairs refl,
            batch-results answer read ordered meta_requests us,
            token_reads-append answer [] 0 us refl,
            raw_rows-own answer tokens us alike answered pairs
                (unknown_tokens-IsCovered tokens ds []),
          )
          refl

    details-own :
        (pairs : List Text)
        → (elim ((read_if (ltb 0 (length pairs)) read (flat_map detail_requests pairs)).results)
            as (λ o. List PoolRow) [
              | none ↦ []
              | some results ↦ decoded_pools read tokens pairs results
            ])
          ≡ own_rows answer tokens pairs
    details-own [] = refl
    details-own (p ∷ pairs) =
        rw (ltb-suc (length pairs), ordered (flat_map detail_requests (p ∷ pairs)))
          (decoded_pools-own (p ∷ pairs))

-- With every batch answered in the order of its requests, and each address spelled in one way, the list
-- of pools is the pairs of the factory in its order, each with the tokens and reserves of its own
-- contract, and a token that no list describes with the symbol, name and decimals of its own contract.
pub use_pools-own :
    (answer : Request → Option Answer) (read : Reader)
    → AnswersInOrder answer read
    → SpellsAlike answer
    → (factory : Option Text) (counted : PairCount) (tokens : List Token)
    → (use_pools read factory counted tokens).pools
      ≡ own_rows answer tokens (factory_pairs answer factory counted)
unfolding use_pools
use_pools-own answer read ordered alike factory counted tokens =
    details-own answer read ordered alike tokens (listed_pairs read factory counted)
    ∙ ap (own_rows answer tokens) (listed_pairs-own answer read ordered factory counted)
