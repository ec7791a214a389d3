-- ===== src/Route/Search.antt =====
-- The search of apps/web/src/hooks/useSwapRoute.ts over its candidates.
use ark_swap.Prelude.{
  ℕ, Bool, true, not, ◌&&◌, Option, none, some, List, [], ◌∷◌, Text, text_eq, lower, ltb, ◌==◌,
  if◌then◌else◌, Result, ok, err, ◌>>=◌, is_set, get_or, length,
}
use ark_swap.Tokens.{Token, routed_address}
use ark_swap.PairAddress.{Viem, AddressError, compute_pair_address}
use ark_swap.Route.{
  SwapSide, exact_in, exact_out, SwapRoute, Candidate, Ends, candidates, usable_hubs,
}
use ark_swap.Route.Quoting.{
  Hop, Pools, get_pool, read_pools, Quote, QuoteError, quote_exact_in, quote_exact_out,
}

abbrev pub better : SwapSide → Quote → Option SwapRoute → Bool
better side q none = true
better exact_in q (some best) = ltb best.amount_out q.amount_out
better exact_out q (some best) = ltb q.amount_in best.amount_in

abbrev pub route_of : Candidate → Quote → SwapRoute
route_of c q = record {
  path = c.path;
  symbols = c.symbols;
  amount_in = q.amount_in;
  amount_out = q.amount_out;
  impact_bps = q.impact_bps;
}

abbrev pub improve : SwapSide → Option SwapRoute → Candidate → Option Quote → Option SwapRoute
improve side best c none = best
improve side best c (some q) = if better side q best then some (route_of c q) else best

module _ (v : Viem) (factory : Text) where
  -- `pairSet.set`: a new key goes to the end.
  abbrev pub add_key : Text → List Text → List Text
  add_key k [] = k ∷ []
  add_key k (j ∷ keys) = if text_eq j k then j ∷ keys else j ∷ add_key k keys

  unfoldable pub path_keys : Text → List Text → List Text → Result AddressError (List Text)
  path_keys a [] keys = ok keys
  path_keys a (b ∷ path) keys = do
    addr ← compute_pair_address v factory a b
    path_keys b path (add_key (lower addr) keys)

  unfoldable pub pair_keys : List Candidate → List Text → Result AddressError (List Text)
  pair_keys [] keys = ok keys
  pair_keys (c ∷ cs) keys = do
    more ← elim c.path [ [] ↦ ok keys | a ∷ path ↦ path_keys a path keys ]
    pair_keys cs more

  module _ (pools : Pools) where
    -- The hops from `a` along the path; `none` where a pool is missing.
    unfoldable pub hops_from : Text → List Text → Result AddressError (Option (List Hop))
    hops_from a [] = ok (some [])
    hops_from a (b ∷ path) = do
      pair ← compute_pair_address v factory a b
      elim (get_pool (lower pair) pools) [
        | none ↦ ok none
        | some pool ↦ do
          rest ← hops_from b path
          ok (elim rest [
            | none ↦ none
            | some hops ↦ some (record { pair = pair; token_in = a; token_out = b } ∷ hops)
          ])
      ]

    unfoldable pub hops_of : Candidate → Result AddressError (Option (List Hop))
    hops_of c = elim c.path [ [] ↦ ok (some []) | a ∷ path ↦ hops_from a path ]

    unfoldable pub quote_side : SwapSide → ℕ → List Hop → Result QuoteError (Option Quote)
    quote_side exact_in amount hops = quote_exact_in hops pools amount
    quote_side exact_out amount hops = quote_exact_out hops pools amount

    -- The quote inside `try`: an error makes the candidate unusable.
    unfoldable pub quote_hops : SwapSide → ℕ → List Hop → Option Quote
    quote_hops side amount hops = elim (quote_side side amount hops) [ ok q ↦ q | err e ↦ none ]

    unfoldable pub evaluate : SwapSide → ℕ → Candidate → Result AddressError (Option Quote)
    evaluate side amount c = do
      hops ← hops_of c
      ok (elim hops [ none ↦ none | some hs ↦ quote_hops side amount hs ])

    unfoldable pub best_from :
        SwapSide → ℕ → Option SwapRoute → List Candidate → Result AddressError (Option SwapRoute)
    best_from side amount best [] = ok best
    best_from side amount best (c ∷ cs) = do
      evaluated ← evaluate side amount c
      best_from side amount (improve side best c evaluated) cs

-- What the hook works on: the configuration, the hubs of the registry, the form and the chain read.
pub record RouteInput : Type 0 where
  pub factory : Option Text
  pub wkash : Option Text
  pub hubs : List Token
  pub token_in : Token
  pub token_out : Token
  pub amount : Option ℕ
  pub side : SwapSide
  pub results : Option (List (Option (ℕ × ℕ) × Option Text))
  pub is_loading : Bool

pub data RouteError : Type 0 where
  token_without_address : RouteError
  address : AddressError → RouteError

abbrev pub lift_address {ℓ} : {A : Type ℓ} → Result AddressError A → Result RouteError A
lift_address (ok a) = ok a
lift_address (err e) = err (address e)

abbrev pub need {ℓ} : {A : Type ℓ} → Option A → Result RouteError A
need none = err token_without_address
need (some a) = ok a

abbrev pub ends_of : RouteInput → Ends
ends_of i = record {
  in_addr = get_or (routed_address i.wkash i.token_in) [];
  out_addr = get_or (routed_address i.wkash i.token_out) [];
  in_symbol = i.token_in.symbol;
  out_symbol = i.token_out.symbol;
}

unfoldable pub input_candidates : RouteInput → Result RouteError (List Candidate)
input_candidates i = do
  hubs ← need (usable_hubs i.wkash i.hubs i.token_in i.token_out)
  ok (
      if is_set (routed_address i.wkash i.token_in) && is_set (routed_address i.wkash i.token_out)
      then candidates (ends_of i) hubs
      else [])

unfoldable pub input_pools : Viem → RouteInput → List Candidate → Result RouteError Pools
input_pools v i cs = do
  keys ← if is_set i.factory then lift_address (pair_keys v (get_or i.factory []) cs []) else ok []
  ok (elim i.results [ none ↦ [] | some results ↦ read_pools keys results ])

unfoldable pub search_route :
    Viem → RouteInput → List Candidate → Pools → Result RouteError (Option SwapRoute)
search_route v i cs pools =
    let amount = get_or i.amount 0 in
    if ltb 0 amount && is_set i.factory
    then lift_address (best_from v (get_or i.factory []) pools i.side amount none cs)
    else ok none

pub record RouteResult : Type 0 where
  pub route : Option SwapRoute
  pub no_liquidity : Bool

unfoldable pub use_swap_route : Viem → RouteInput → Result RouteError RouteResult
use_swap_route v i = do
  cs ← input_candidates i
  pools ← input_pools v i cs
  route ← search_route v i cs pools
  ok (record { route = route; no_liquidity = not i.is_loading && length pools == 0 })
