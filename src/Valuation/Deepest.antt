-- ===== src/Valuation/Deepest.antt =====
-- The price of a token is the rate of its deepest priced pool (apps/web/src/lib/valuation.ts).
use native.Mathlib.Nat.{le_refl}
use ark_swap.Prelude.{
  ℕ, suc, ◌*◌, ◌/◌, ◌≤◌, ◌<◌, ◌≡◌, refl, ap, ◌∙◌, false, ◌||◌, Option, none, some, List, [], ◌∷◌,
  Text, arith, ltb, ◌==◌, if◌then◌else◌, option_map, All, Option-cases, inl, inr,
}
use ark_swap.Valuation.{
  PoolToken, PricedPool, Side, side_of, BestPrice, price_side, price_pools, no_price, value_at,
}

-- A pool that prices the token: its reserve of the token and the value of its other reserve.
pub record Offer : Type 0 where
  pub reserve : ℕ
  pub depth : ℕ

module _ (value_of : PoolToken → ℕ → Option ℕ) where
  abbrev pub offer_of_side : Side → Option Offer
  offer_of_side s =
      if s.reserve_token == 0 || s.reserve_other == 0
      then none
      else option_map (λ v. record { reserve = s.reserve_token; depth = v })
          (value_of s.other s.reserve_other)

  -- The offers of the pools, in their order.
  unfoldable pub offers : Text → List PricedPool → List Offer
  offers token [] = []
  offers token (p ∷ ps) = elim (side_of p token) [
    | none ↦ offers token ps
    | some s ↦ elim (offer_of_side s) [ none ↦ offers token ps | some o ↦ o ∷ offers token ps ]
  ]

-- The first of the deepest offers.
abbrev pub deeper : Option Offer → Offer → Option Offer
deeper none o = some o
deeper (some b) o = if ltb b.depth o.depth then some o else some b

unfoldable pub deepest : Option Offer → List Offer → Option Offer
deepest best [] = best
deepest best (o ∷ os) = deepest (deeper best o) os

-- The loop's variables, for an amount and the deepest offer so far.
abbrev priced : ℕ → Option Offer → BestPrice
priced amount none = no_price
priced amount (some o) = record { best = some (amount * o.depth / o.reserve); best_depth = o.depth }

module _ (value_of : PoolToken → ℕ → Option ℕ) (token : PoolToken) (amount : ℕ) where
  step_priced :
      (best : Option Offer) (s : Side)
      → price_side value_of token amount (priced amount best) s
        ≡ priced amount (elim (offer_of_side value_of s) [ none ↦ best | some o ↦ deeper best o ])
  unfolding price_side
  step_priced none s = ground arith
  step_priced (some b) s = ground arith

  price_pools_lem :
      (best : Option Offer) (ps : List PricedPool)
      → price_pools value_of token amount (priced amount best) ps
        ≡ priced amount (deepest best (offers value_of token.address ps))
  unfolding price_pools deepest offers
  price_pools_lem best [] = refl
  price_pools_lem best (p ∷ ps) = elim (Option-cases (side_of p token.address)) [
    | inl miss ↦ rw (miss, offers) (price_pools_lem best ps)
    | inr (s, found) ↦ elim (Option-cases (offer_of_side value_of s)) [
      | inl poor ↦
          let same : price_side value_of token amount (priced amount best) s ≡ priced amount best =
            rw poor at (step_priced best s) in
          rw (found, offers, poor, same) (price_pools_lem best ps)
      | inr (o, rich) ↦
          let same : price_side value_of token amount (priced amount best) s
              ≡ priced amount (deeper best o) =
            rw rich at (step_priced best s) in
          rw (found, offers, rich, same) (price_pools_lem (deeper best o) ps)
    ]
  ]

-- No offer is deeper than the best.
abbrev pub IsDeepest : Option Offer → Offer → Type 0
IsDeepest none o = ⊥
IsDeepest (some b) o = o.depth ≤ b.depth

deeper_keeps : (best : Option Offer) (o p : Offer) → IsDeepest best p → IsDeepest (deeper best o) p
deeper_keeps none o p h = elim h [ ]
deeper_keeps (some b) o p h = ground arith

deeper_covers : (best : Option Offer) (o : Offer) → IsDeepest (deeper best o) o
deeper_covers none o = le_refl o.depth
deeper_covers (some b) o = ground arith

deepest_keeps :
    (best : Option Offer) (os : List Offer) (p : Offer)
    → IsDeepest best p
    → IsDeepest (deepest best os) p
unfolding deepest
deepest_keeps best [] p h = h
deepest_keeps best (o ∷ os) p h = deepest_keeps (deeper best o) os p (deeper_keeps best o p h)

pub deepest-IsDeepest :
    (best : Option Offer) (os : List Offer) → All (IsDeepest (deepest best os)) os
unfolding deepest
deepest-IsDeepest best [] = tt
deepest-IsDeepest best (o ∷ os) = (
  deepest_keeps (deeper best o) os o (deeper_covers best o),
  deepest-IsDeepest (deeper best o) os,
)

best_priced :
    (amount : ℕ) (best : Option Offer)
    → (priced amount best).best ≡ option_map (λ o. amount * o.depth / o.reserve) best
best_priced amount none = refl
best_priced amount (some o) = refl

abbrev pub offers_at : ℕ → List PricedPool → PoolToken → List Offer
offers_at levels pools token = offers (value_at levels pools) token.address pools

value_at-loop :
    (levels : ℕ) (pools : List PricedPool) (token : PoolToken) (amount : ℕ)
    → 0 < amount
    → token.is_stable ≡ false
    → value_at (suc levels) pools token amount
      ≡ (price_pools (value_at levels pools) token amount no_price pools).best
unfolding value_at
value_at-loop levels pools token amount p h = ground arith

-- A positive amount of a token that is no stablecoin is valued at the rate of one pool, which does not
-- depend on the amount: the first among the deepest of the pools that hold the token, have both
-- reserves and whose other side is priced one level further down; without one it is unpriced.
pub value_at-deepest :
    (levels : ℕ) (pools : List PricedPool) (token : PoolToken) (amount : ℕ)
    → 0 < amount
    → token.is_stable ≡ false
    → let best = deepest none (offers_at levels pools token) in
      (value_at (suc levels) pools token amount
        ≡ option_map (λ o. amount * o.depth / o.reserve) best)
      × All (IsDeepest best) (offers_at levels pools token)
value_at-deepest levels pools token amount p h = (
  value_at-loop levels pools token amount p h
      ∙ ap (λ b. b.best) (price_pools_lem (value_at levels pools) token amount none pools)
      ∙ best_priced amount (deepest none (offers_at levels pools token)),
  deepest-IsDeepest none (offers_at levels pools token),
)
