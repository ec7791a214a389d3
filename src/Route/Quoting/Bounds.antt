-- ===== src/Route/Quoting/Bounds.antt =====
-- What a quote along a path promises, and what it says of the price impact.
use ark_swap.Prelude.{
  ℕ, ◌-◌, ◌*◌, ◌/◌, ◌≤◌, ◌<◌, ◌≡◌, ◌∙◌, some, List, [], ◌∷◌, arith, ok, err, >>=-eq-ok,
  ok_injective, Result-cases, inl, inr,
}
use native.Mathlib.Nat.{le_trans, mul-le-mul_right, mul-pos}
use ark_swap.Amm.Bounds.{get_amount_out-inv, div_bounds, le_div}
use ark_swap.Amm.Impact.{get_amount_out-le-ideal, share-le-bps}
use ark_swap.Route.Quoting.{
  Hop, Pools, QuoteError, Walk, step_in, walk_in, start, Quote, quote_exact_in, mid_price,
  shortfall_bps,
}
use ark_swap.Route.Quoting.RoundTrip.{step_in_inv}

-- The walked amount never exceeds the mid price of the hops.
abbrev pub IsBelowMid : Walk → Type 0
IsBelowMid w = (0 < w.ideal_den) × (w.amount * w.ideal_den ≤ w.ideal_num)

mid_step : (x y r s d n : ℕ) → 0 < r → y ≤ x * s / r → x * d ≤ n → y * (d * r) ≤ n * s
mid_step x y r s d n hr h k =
    let cross : y * r ≤ x * s = le_trans (mul-le-mul_right r h) (div_bounds (x * s) r hr).0 in
    let wide = mul-le-mul_right d cross in let deep = mul-le-mul_right s k in omega arith

step_in-IsBelowMid :
    (pools : Pools) (w : Walk) (h : Hop) {u : Walk}
    → step_in pools w h ≡ ok u
    → IsBelowMid w
    → IsBelowMid u
step_in-IsBelowMid pools w h {u} e (pos, below) =
    let (r, _, quoted, num, den) = step_in_inv pools w h e in
    let (_, pos_in, _, _) = get_amount_out-inv _ _ _ quoted in
    let under = get_amount_out-le-ideal _ _ _ quoted in
    rw (num, den)
      (
        mul-pos pos pos_in,
        mid_step w.amount u.amount r.reserve_in r.reserve_out w.ideal_den w.ideal_num pos_in under
            below,
      )

walk_in-IsBelowMid :
    (pools : Pools) (w : Walk) (hops : List Hop) {u : Walk}
    → walk_in pools w hops ≡ ok u
    → IsBelowMid w
    → IsBelowMid u
unfolding walk_in
walk_in-IsBelowMid pools w [] {u} e h = rw (← ok_injective w u e) h
walk_in-IsBelowMid pools w (hop ∷ hops) {u} e h =
    let (n, stepped, rest) = >>=-eq-ok (step_in pools w hop) (λ m. walk_in pools m hops) e in
    walk_in-IsBelowMid pools n hops rest (step_in-IsBelowMid pools w hop stepped h)

quote_exact_in_inv :
    (hops : List Hop) (pools : Pools) (a : ℕ) {q : Quote}
    → quote_exact_in hops pools a ≡ ok (some q)
    → (w : Walk) × (walk_in pools (start a) hops ≡ ok w)
      × (q.amount_in ≡ a)
      × (q.amount_out ≡ w.amount)
      × (0 < w.amount)
      × (q.impact_bps ≡ shortfall_bps (mid_price w) w.amount)
unfolding quote_exact_in
quote_exact_in_inv hops pools a {q} e = elim (Result-cases (walk_in pools (start a) hops)) [
  | inl (x, fails) ↦ absurd (fails_not fails)
  | inr (w, walked) ↦ (w, walked, ground arith, ground arith, ground arith, ground arith)
]
  where
    fails_not : {x : QuoteError} → ¬ (walk_in pools (start a) hops ≡ err x)
    fails_not fails = ground arith

shortfall_lem :
    (ideal amount : ℕ)
    → amount ≤ ideal
    → 0 < ideal
    → shortfall_bps ideal amount ≡ (ideal - amount) * 10_000 / ideal
shortfall_lem ideal amount h p = ground arith

-- An exact-input quote is positive and never beats the exact mid price of its path, and the impact is
-- its shortfall against that price, rounded down, in basis points: at most 10000.
pub quote_exact_in_bounds :
    (hops : List Hop) (pools : Pools) (a : ℕ) {q : Quote}
    → quote_exact_in hops pools a ≡ ok (some q)
    → (w : Walk) × (walk_in pools (start a) hops ≡ ok w)
      × (q.amount_in ≡ a)
      × (0 < q.amount_out)
      × (q.amount_out ≤ w.ideal_num / w.ideal_den)
      × (q.impact_bps
          ≡ (w.ideal_num / w.ideal_den - q.amount_out) * 10_000 / (w.ideal_num / w.ideal_den))
      × (q.impact_bps ≤ 10_000)
quote_exact_in_bounds hops pools a {q} e =
    let (w, walked, paid, out, positive, impact) = quote_exact_in_inv hops pools a e in
    let (den, below) = walk_in-IsBelowMid pools (start a) hops walked (omega arith, omega arith) in
    let le : w.amount ≤ w.ideal_num / w.ideal_den = le_div _ _ _ den below in
    let mid : mid_price w ≡ w.ideal_num / w.ideal_den = ground arith in
    let short : q.impact_bps
        ≡ (w.ideal_num / w.ideal_den - w.amount) * 10_000 / (w.ideal_num / w.ideal_den) =
      impact ∙ rw mid (shortfall_lem _ _ le (omega arith)) in
    (w, walked, paid, omega arith, rw out le, rw out short, rw short (share-le-bps _ _))
