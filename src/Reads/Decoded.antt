-- ===== src/Reads/Decoded.antt =====
-- The answers that apps/web/src/hooks finds at the positions of a batched read are those of the pair or
-- token it looks for, when the answers stand in the order of the requests.
use mathlib.Core.List.{append_assoc}
use ark_swap.Prelude.{
  subst, ◌≡◌, refl, sym, arith, ℕ, suc, ◌+◌, ◌*◌, Option, List, [], ◌∷◌, ◌++◌, Text, map, length,
  length-append, get_elem?-append,
}
use ark_swap.PoolList.{PairRead, TokenRead}
use ark_swap.Stats.{SummaryRead}
use ark_swap.Reads.{
  Answer, Request, flat_map, as_address, as_amount, as_text, as_reserves, result_at,
  detail_requests, meta_requests, summary_requests, route_requests, pair_reads, token_reads,
  summary_reads, route_reads, token0, token1, get_reserves, total_supply, symbol, decimals, name,
}

module _ (answer : Request → Option Answer) where
  abbrev pub pair_read_of : Text → PairRead
  pair_read_of p = record {
    pair = p;
    token0 = as_address (answer (record { address = p; reading = token0 }));
    token1 = as_address (answer (record { address = p; reading = token1 }));
    reserves = as_reserves (answer (record { address = p; reading = get_reserves }));
    total_supply = as_amount (answer (record { address = p; reading = total_supply }));
  }

  abbrev pub token_read_of : Text → TokenRead
  token_read_of u = record {
    symbol = as_text (answer (record { address = u; reading = symbol }));
    decimals = as_amount (answer (record { address = u; reading = decimals }));
    name = as_text (answer (record { address = u; reading = name }));
  }

  abbrev pub summary_read_of : Text → SummaryRead
  summary_read_of p = record {
    pair = p;
    token0 = as_address (answer (record { address = p; reading = token0 }));
    token1 = as_address (answer (record { address = p; reading = token1 }));
    reserves = as_reserves (answer (record { address = p; reading = get_reserves }));
  }

  abbrev pub route_read_of : Text → Option (ℕ × ℕ) × Option Text
  route_read_of p = (
    as_reserves (answer (record { address = p; reading = get_reserves })),
    as_address (answer (record { address = p; reading = token0 })),
  )

  module _ (before : List (Option Answer)) (n : ℕ) (e : length before ≡ n) where
    result_at-append :
        (rest : List (Option Answer)) (k : ℕ)
        → result_at (before ++ rest) (n + k) ≡ result_at rest k
    result_at-append rest k = rw (sym e, get_elem?-append before rest k) refl

    result_at-append_first :
        (rest : List (Option Answer)) → result_at (before ++ rest) n ≡ result_at rest 0
    result_at-append_first rest =
        subst (λ m. result_at (before ++ rest) m ≡ result_at rest 0) (omega arith)
          (result_at-append rest 0)

  pub pair_reads-append :
      (before : List (Option Answer)) (i : ℕ) (ps : List Text)
      → length before ≡ i * 4
      → pair_reads (before ++ map answer (flat_map detail_requests ps)) i ps ≡ map pair_read_of ps
  unfolding pair_reads
  pair_reads-append before i [] e = refl
  pair_reads-append before i (p ∷ ps) e =
      let block = map answer (detail_requests p) in
      let rest = map answer (flat_map detail_requests ps) in
      let at = result_at-append before (i * 4) e (block ++ rest) in
      let tail : pair_reads (before ++ (block ++ rest)) (suc i) ps ≡ map pair_read_of ps =
        rw (sym (append_assoc before block rest)) (
          pair_reads-append (before ++ block) (suc i) ps
            (omega (arith, e, length-append before block))) in
      rw (result_at-append_first before (i * 4) e (block ++ rest), at 1, at 2, at 3, tail) refl

  pub token_reads-append :
      (before : List (Option Answer)) (i : ℕ) (ps : List Text)
      → length before ≡ i * 3
      → token_reads (before ++ map answer (flat_map meta_requests ps)) i ps ≡ map token_read_of ps
  unfolding token_reads
  token_reads-append before i [] e = refl
  token_reads-append before i (p ∷ ps) e =
      let block = map answer (meta_requests p) in
      let rest = map answer (flat_map meta_requests ps) in
      let at = result_at-append before (i * 3) e (block ++ rest) in
      let tail : token_reads (before ++ (block ++ rest)) (suc i) ps ≡ map token_read_of ps =
        rw (sym (append_assoc before block rest)) (
          token_reads-append (before ++ block) (suc i) ps
            (omega (arith, e, length-append before block))) in
      rw (result_at-append_first before (i * 3) e (block ++ rest), at 1, at 2, tail) refl

  pub summary_reads-append :
      (before : List (Option Answer)) (i : ℕ) (ps : List Text)
      → length before ≡ i * 3
      → summary_reads (before ++ map answer (flat_map summary_requests ps)) i ps
        ≡ map summary_read_of ps
  unfolding summary_reads
  summary_reads-append before i [] e = refl
  summary_reads-append before i (p ∷ ps) e =
      let block = map answer (summary_requests p) in
      let rest = map answer (flat_map summary_requests ps) in
      let at = result_at-append before (i * 3) e (block ++ rest) in
      let tail : summary_reads (before ++ (block ++ rest)) (suc i) ps ≡ map summary_read_of ps =
        rw (sym (append_assoc before block rest)) (
          summary_reads-append (before ++ block) (suc i) ps
            (omega (arith, e, length-append before block))) in
      rw (result_at-append_first before (i * 3) e (block ++ rest), at 1, at 2, tail) refl

  pub route_reads-append :
      (before : List (Option Answer)) (i : ℕ) (ps : List Text)
      → length before ≡ i * 2
      → route_reads (before ++ map answer (flat_map route_requests ps)) i ps ≡ map route_read_of ps
  unfolding route_reads
  route_reads-append before i [] e = refl
  route_reads-append before i (p ∷ ps) e =
      let block = map answer (route_requests p) in
      let rest = map answer (flat_map route_requests ps) in
      let at = result_at-append before (i * 2) e (block ++ rest) in
      let tail : route_reads (before ++ (block ++ rest)) (suc i) ps ≡ map route_read_of ps =
        rw (sym (append_assoc before block rest)) (
          route_reads-append (before ++ block) (suc i) ps
            (omega (arith, e, length-append before block))) in
      rw (result_at-append_first before (i * 2) e (block ++ rest), at 1, tail) refl
