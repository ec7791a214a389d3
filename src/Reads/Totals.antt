-- ===== src/Reads/Totals.antt =====
-- The figures of apps/web/src/hooks/useProtocolStats.ts against reading every pair at its own address.
use ark_swap.Prelude.{
  ◌≡◌, refl, ap, ◌∙◌, ltb, ℕ, filter_map, option_map, Option, none, some, List, [], ◌∷◌, map,
  length, Text,
}
use ark_swap.Tokens.{Token, token_by_address}
use ark_swap.Stats.{PoolSummary, summaries, totals}
use ark_swap.Stats.Totals.{sum_kash, sum_stables, totals_lem}
use ark_swap.Reads.{
  Request, Answer, Reader, read_if, flat_map, summary_requests, summary_reads, as_address,
  as_reserves, token0, token1, get_reserves,
}
use ark_swap.Reads.Decoded.{summary_read_of, summary_reads-append}
use ark_swap.Reads.Ordered.{AnswersInOrder, ltb-suc, factory_pairs, listed_pairs-own}
use ark_swap.Reads.Pools.{PairCount, use_protocol_stats, listed_pairs}

-- A pair with two reserves, and each of its tokens as the list describes it.
abbrev pub own_pair : (Request → Option Answer) → List Token → Text → ℕ × ℕ → PoolSummary
own_pair answer listed p reserves = record {
  pair = p;
  token0 = token_by_address listed (as_address (answer (record { address = p; reading = token0 })));
  token1 = token_by_address listed (as_address (answer (record { address = p; reading = token1 })));
  reserve0 = reserves.0;
  reserve1 = reserves.1;
}

-- The pairs with the reserves that their own contracts answer, the first and the second; a pair whose
-- reserves are not answered is left out.
abbrev pub own_summaries : (Request → Option Answer) → List Token → List Text → List PoolSummary
own_summaries answer listed pairs =
    filter_map
      (λ p.
        option_map (own_pair answer listed p)
          (as_reserves (answer (record { address = p; reading = get_reserves }))))
      pairs

summaries-own :
    (answer : Request → Option Answer) (listed : List Token) (pairs : List Text)
    → summaries listed (map (summary_read_of answer) pairs) ≡ own_summaries answer listed pairs
unfolding summaries
summaries-own answer listed [] = refl
summaries-own answer listed (p ∷ pairs) =
    kept (as_reserves (answer (record { address = p; reading = get_reserves })))
      (summaries-own answer listed pairs)
  where
    kept :
        (o : Option (ℕ × ℕ)) {rest own : List PoolSummary}
        → rest ≡ own
        → (elim o as (λ x. List PoolSummary) [
          | none ↦ rest
          | some r ↦ own_pair answer listed p r ∷ rest
        ])
          ≡ (elim (option_map (own_pair answer listed p) o) as (λ x. List PoolSummary) [
            | none ↦ own
            | some s ↦ s ∷ own
          ])
    kept none e = e
    kept (some r) e = ap (λ l. own_pair answer listed p r ∷ l) e

module _ (answer : Request → Option Answer) (read : Reader) (ordered : AnswersInOrder answer read)
    (listed : List Token) where
  details-own :
      (pairs : List Text)
      → (elim ((read_if (ltb 0 (length pairs)) read (flat_map summary_requests pairs)).results)
          as (λ o. List PoolSummary) [
            | none ↦ []
            | some results ↦ summaries listed (summary_reads results 0 pairs)
          ])
        ≡ own_summaries answer listed pairs
  unfolding summaries
  details-own [] = refl
  details-own (p ∷ pairs) =
      rw (ltb-suc (length pairs), ordered (flat_map summary_requests (p ∷ pairs)))
        (ap (summaries listed) (summary_reads-append answer [] 0 (p ∷ pairs) refl)
          ∙ summaries-own answer listed (p ∷ pairs))

  -- With every batch answered in the order of its requests, the pools of the landing page are the pairs of
  -- the factory whose own contracts answer their reserves, each with its two reserves and listed tokens in the
  -- contract's order, and its totals are the sums of the WKASH and of the listed stablecoins in them.
  pub use_protocol_stats-own :
      (factory wkash : Option Text) (counted : PairCount)
      → let s = use_protocol_stats read factory wkash counted listed in
        let own = own_summaries answer listed (factory_pairs answer factory counted) in
        (s.pools ≡ own)
        × ((s.locked).kash_locked ≡ sum_kash wkash own)
        × ((s.locked).stables_locked ≡ sum_stables wkash own)
  unfolding use_protocol_stats
  use_protocol_stats-own factory wkash counted =
      let same =
        details-own (listed_pairs read factory counted)
        ∙ ap (own_summaries answer listed) (listed_pairs-own answer read ordered factory counted) in
      let (k, s) =
        totals_lem wkash (own_summaries answer listed (factory_pairs answer factory counted)) in
      (
        same,
        ap (λ ps. (totals wkash ps).kash_locked) same ∙ k,
        ap (λ ps. (totals wkash ps).stables_locked) same ∙ s,
      )
