-- ===== src/Route.antt =====
-- apps/web/src/hooks/useSwapRoute.ts: the best route between two tokens. What the batched read of the
-- chain returned is an argument.
pub mod Quoting
pub mod Search
pub mod Candidates
pub mod Optimal
use ark_swap.Prelude.{
  ℕ, zero, ◌+◌, ◌-◌, ◌*◌, ◌/◌, Bool, true, false, not, ◌&&◌, ◌||◌, Option, none, some, List, [],
  ◌∷◌, ◌++◌, map, Text, text_eq, lower, ltb, leb, ◌==◌, if◌then◌else◌, Result, ok, err, ◌>>=◌,
  ◌>>=?◌, is_set, get_or, option_map, filter, find, reverse,
}
use ark_swap.Amm.{AmmError, get_amount_out, get_amount_in}
use ark_swap.Tokens.{Token, same_token, routed_address}
use ark_swap.PairAddress.{Viem, AddressError, compute_pair_address}

pub data SwapSide : Type 0 where
  exact_in : SwapSide
  exact_out : SwapSide

pub record SwapRoute : Type 0 where
  pub path : List Text
  pub symbols : List Text
  pub amount_in : ℕ
  pub amount_out : ℕ
  pub impact_bps : ℕ

pub record Candidate : Type 0 where
  pub path : List Text
  pub symbols : List Text

pub record Hub : Type 0 where
  pub addr : Text
  pub symbol : Text

-- `!sameToken(h, tokenIn) && !sameToken(h, tokenOut)`.
abbrev pub is_other_hub : Token → Token → Token → Option Bool
is_other_hub token_in token_out h = same_token h token_in >>=? λ is_in.
    if is_in then some false else option_map not (same_token h token_out)

unfoldable pub other_hubs : Token → Token → List Token → Option (List Token)
other_hubs token_in token_out [] = some []
other_hubs token_in token_out (h ∷ hs) = is_other_hub token_in token_out h >>=? λ keep.
    other_hubs token_in token_out hs >>=? λ rest. some (if keep then h ∷ rest else rest)

-- The hubs with an address, `{addr, symbol}`.
unfoldable pub addressed_hubs : Option Text → List Token → List Hub
addressed_hubs wkash [] = []
addressed_hubs wkash (h ∷ hs) =
    if is_set (routed_address wkash h)
    then record { addr = get_or (routed_address wkash h) []; symbol = h.symbol }
      ∷ addressed_hubs wkash hs
    else addressed_hubs wkash hs

-- `address !== end?.toLowerCase()`.
abbrev pub differs_from : Option Text → Hub → Bool
differs_from end h = elim end [ none ↦ true | some e ↦ not (text_eq (lower h.addr) (lower e)) ]

unfoldable pub usable_hubs : Option Text → List Token → Token → Token → Option (List Hub)
usable_hubs wkash registry_hubs token_in token_out =
    other_hubs token_in token_out registry_hubs >>=? λ hs. some (
      filter
        (λ h.
          differs_from (routed_address wkash token_in) h
          && differs_from (routed_address wkash token_out) h)
        (addressed_hubs wkash hs))

-- The two ends of the trade, with their symbols.
pub record Ends : Type 0 where
  pub in_addr : Text
  pub out_addr : Text
  pub in_symbol : Text
  pub out_symbol : Text

module _ (e : Ends) where
  abbrev pub direct : Candidate
  direct = record { path = e.in_addr ∷ e.out_addr ∷ []; symbols = e.in_symbol ∷ e.out_symbol ∷ [] }

  abbrev pub one_hop : Hub → Candidate
  one_hop h = record {
    path = e.in_addr ∷ h.addr ∷ e.out_addr ∷ [];
    symbols = e.in_symbol ∷ h.symbol ∷ e.out_symbol ∷ [];
  }

  abbrev pub two_hops : Hub → Hub → Candidate
  two_hops a b = record {
    path = e.in_addr ∷ a.addr ∷ b.addr ∷ e.out_addr ∷ [];
    symbols = e.in_symbol ∷ a.symbol ∷ b.symbol ∷ e.out_symbol ∷ [];
  }

  -- The inner loop over `b`, which passes over the hub `a`.
  unfoldable pub through : Hub → List Hub → List Candidate
  through a [] = []
  through a (b ∷ bs) =
      if text_eq (lower a.addr) (lower b.addr) then through a bs else two_hops a b ∷ through a bs

  unfoldable pub through_pairs : List Hub → List Hub → List Candidate
  through_pairs [] hubs = []
  through_pairs (a ∷ rest) hubs = through a hubs ++ through_pairs rest hubs

  unfoldable pub candidates : List Hub → List Candidate
  candidates hubs =
      if text_eq (lower e.in_addr) (lower e.out_addr)
      then []
      else direct ∷ (map one_hop hubs ++ through_pairs hubs hubs)
