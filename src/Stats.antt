-- ===== src/Stats.antt =====
-- apps/web/src/hooks/useProtocolStats.ts: the figures of the landing page. What the batched reads
-- returned is an argument, a failed read as `none`.
pub mod Totals
use ark_swap.Prelude.{
  ℕ, ◌+◌, ◌*◌, ◌^◌, Bool, true, false, not, ◌&&◌, ◌||◌, Option, none, some, List, [], ◌∷◌, Text,
  text_eq, lower, is_set, is_empty, get_or, leb, if◌then◌else◌, ◌>>=?◌, Result, ok, err, option_map,
  length,
}
use ark_swap.Tokens.{Token, token_by_address, routed_address}
use ark_swap.Amm.{AmmError, get_amount_out}
use ark_swap.Valuation.{rescale}

pub record PoolSummary : Type 0 where
  pub pair : Text
  pub token0 : Option Token
  pub token1 : Option Token
  pub reserve0 : ℕ
  pub reserve1 : ℕ

-- The results of `token0`, `token1` and `getReserves` of one pair.
pub record SummaryRead : Type 0 where
  pub pair : Text
  pub token0 : Option Text
  pub token1 : Option Text
  pub reserves : Option (ℕ × ℕ)

abbrev pub stable_scale : ℕ
stable_scale = 6

-- The loop over `details`, where `listed` is `TOKEN_LIST`.
unfoldable pub summaries : List Token → List SummaryRead → List PoolSummary
summaries listed [] = []
summaries listed (d ∷ ds) = elim d.reserves [
  | none ↦ summaries listed ds
  | some r ↦
      record {
        pair = d.pair;
        token0 = token_by_address listed d.token0;
        token1 = token_by_address listed d.token1;
        reserve0 = r.0;
        reserve1 = r.1;
      }
      ∷ summaries listed ds
]

-- The two totals of the loop.
pub record Locked : Type 0 where
  pub kash_locked : ℕ
  pub stables_locked : ℕ

module _ (wkash : Option Text) where
  abbrev pub is_wkash_address : Token → Bool
  is_wkash_address t =
      is_set wkash
      && (elim t.address [ none ↦ false | some a ↦ text_eq (lower a) (lower (get_or wkash [])) ])

  -- The body of the inner loop.
  unfoldable pub add_side : Locked → Option Token → ℕ → Locked
  add_side l none reserve = l
  add_side l (some t) reserve =
      if is_wkash_address t
      then record l { kash_locked = l.kash_locked + reserve }
      else if t.is_stable
      then record l { stables_locked = l.stables_locked + rescale reserve t.decimals stable_scale }
      else l

  unfoldable pub add_pool : Locked → PoolSummary → Locked
  add_pool l p = add_side (add_side l p.token0 p.reserve0) p.token1 p.reserve1

  unfoldable pub add_pools : Locked → List PoolSummary → Locked
  add_pools l [] = l
  add_pools l (p ∷ ps) = add_pools (add_pool l p) ps

  abbrev pub totals : List PoolSummary → Locked
  totals = add_pools (record { kash_locked = 0; stables_locked = 0 })

-- `p.token?.address?.toLowerCase()`, which must not be empty.
abbrev pub key_of : Option Token → Text
key_of none = []
key_of (some t) = lower (get_or t.address [])

abbrev pub unit_price : ℕ → ℕ → ℕ → Option ℕ
unit_price decimals reserve_in reserve_out =
    if leb reserve_in 0 || leb reserve_out 0
    then none
    else elim (get_amount_out (10 ^ decimals) reserve_in reserve_out) [
      | ok x ↦ some x
      | err e ↦ none
    ]

-- The loop of `poolPrice`, for the addresses of the two tokens.
unfoldable pub price_in : List PoolSummary → ℕ → Text → Text → Option ℕ
price_in [] decimals a b = none
price_in (p ∷ ps) decimals a b =
    let rest = price_in ps decimals a b in
    if is_empty (key_of p.token0) || is_empty (key_of p.token1)
    then rest
    else if text_eq (key_of p.token0) (lower a) && text_eq (key_of p.token1) (lower b)
    then unit_price decimals p.reserve0 p.reserve1
    else if text_eq (key_of p.token1) (lower a) && text_eq (key_of p.token0) (lower b)
    then unit_price decimals p.reserve1 p.reserve0
    else rest

unfoldable pub pool_price : Option Text → List PoolSummary → Token → Token → Option ℕ
pool_price wkash pools token quote =
    if not (is_set (routed_address wkash token)) || not (is_set (routed_address wkash quote))
    then none
    else price_in pools token.decimals (get_or (routed_address wkash token) [])
        (get_or (routed_address wkash quote) [])
