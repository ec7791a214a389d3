-- ===== src/Tokens/Listed.antt =====
-- The registry, the list that the app offers and the routing hubs.
use ark_swap.Prelude.{
  ◌≡◌, Bool, true, false, ◌||◌, Option, none, some, List, [], ◌∷◌, map, Text, is_set, is_empty, All,
  filter-eq_of_All, filter_map, find-eq-some, All-split, All-map_of, text_eq, Option-cases, inl,
  inr,
}
use ark_swap.Tokens.{
  Token, TokenEntry, Deployment, wkash_token, listed_token, token_registry, routing_hubs,
  token_list, hub_names, by_symbol,
}

-- A manifest whose addresses are filled in.
pub record IsFilled (d : Deployment) : Type 0 where
  pub wkash_set : is_empty d.wkash ≡ false
  pub tokens_set : All (λ e. is_empty (e.1).address ≡ false) d.tokens

-- With the addresses filled in no token of the registry is dropped from the list.
pub token_list-eq-registry :
    (d : Deployment) → IsFilled d → token_list (some d) ≡ token_registry (some d)
unfolding token_list token_registry
token_list-eq-registry d h = rw (
  h.wkash_set,
  filter-eq_of_All kept (map listed_token d.tokens)
      (All-map_of _ listed_token d.tokens (entries d.tokens h.tokens_set)),
)
  where
    kept : Token → Bool
    kept t = t.is_native || is_set t.address

    entries :
        (es : List (Text × TokenEntry))
        → All (λ e. is_empty (e.1).address ≡ false) es
        → All (λ e. kept (listed_token e) ≡ true) es
    entries [] k = tt
    entries ((n, e) ∷ es) (k, ks) = (rw k, entries es ks)

module _ (P : Token → Type 0) where
  by_symbol-All :
      (registry : List Token) (names : List Text)
      → All P registry
      → All P (filter_map (by_symbol registry) names)
  by_symbol-All registry [] h = tt
  by_symbol-All registry (n ∷ names) h = elim (Option-cases (by_symbol registry n)) [
    | inl e ↦ rw (e, filter_map) (by_symbol-All registry names h)
    | inr (t, e) ↦
        let (before, after, split, _, _) = find-eq-some _ registry e in
        let here = (All-split P before (t ∷ after) (rw split at h)).1 in
        rw (e, filter_map) (here.0, by_symbol-All registry names h)
  ]

-- Every routing hub is a token of the registry: what holds of all of those holds of the hubs.
pub routing_hubs-All :
    (d : Option Deployment) (P : Token → Type 0) → All P (token_registry d) → All P (routing_hubs d)
unfolding routing_hubs
routing_hubs-All d P h = by_symbol-All P (token_registry d) (hub_names d) h

-- Without a configured hub the only hub is WKASH.
pub routing_hubs_default :
    (d : Deployment) → d.routing_hubs ≡ none → routing_hubs (some d) ≡ wkash_token d.wkash ∷ []
unfolding routing_hubs token_registry text_eq
routing_hubs_default d h = rw h
