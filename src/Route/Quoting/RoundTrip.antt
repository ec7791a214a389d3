-- ===== src/Route/Quoting/RoundTrip.antt =====
-- Quoting a path backwards and then forwards.
use mathlib.Core.List.{reverse-cons}
use native.Mathlib.Nat.{le_trans}
use ark_swap.Prelude.{
  ℕ, ◌*◌, ◌≤◌, ◌<◌, ◌≡◌, refl, sym, ap, ◌∙◌, some, List, [], ◌∷◌, ◌++◌, arith, Result, ok, err,
  ◌>>=◌, >>=-eq-ok, ok_injective, reverse, Result-cases, inl, inr,
}
use ark_swap.Amm.{AmmError, get_amount_out, get_amount_in}
use ark_swap.Amm.Bounds.{get_amount_out-ok, get_amount_out-inv}
use ark_swap.Amm.Optimal.{get_amount_out-get_amount_in, get_amount_out_mono}
use ark_swap.Route.Quoting.{
  Hop, Pools, QuoteError, lift_amm, Oriented, leg, Walk, step_in, step_out, walk_in, walk_out,
  start, Quote, shortfall_bps, mid_price, quote_exact_in, quote_exact_out,
}

pub lift_amm_inv : (m : Result AmmError ℕ) {a : ℕ} → lift_amm m ≡ ok a → m ≡ ok a
lift_amm_inv (ok b) h = cc
lift_amm_inv (err e) h = cc

-- What a step that returns has read and computed.
pub step_in_inv :
    (pools : Pools) (w : Walk) (h : Hop) {u : Walk}
    → step_in pools w h ≡ ok u
    → (r : Oriented) × (leg pools h ≡ ok r)
      × (get_amount_out w.amount r.reserve_in r.reserve_out ≡ ok u.amount)
      × (u.ideal_num ≡ w.ideal_num * r.reserve_out)
      × (u.ideal_den ≡ w.ideal_den * r.reserve_in)
unfolding step_in
step_in_inv pools w h {u} e =
    let (r, found, quoted) = >>=-eq-ok (leg pools h) (rest) e in
    let (x, amount, done) =
      >>=-eq-ok (lift_amm (get_amount_out w.amount r.reserve_in r.reserve_out)) (next r) quoted in
    let same = ok_injective (walked r x) u done in
    (
      r,
      found,
      lift_amm_inv _ amount ∙ ap (λ z. ok z.amount) same,
      sym (ap (λ z. z.ideal_num) same),
      sym (ap (λ z. z.ideal_den) same),
    )
  where
    walked : Oriented → ℕ → Walk
    walked r x = record {
      amount = x;
      ideal_num = w.ideal_num * r.reserve_out;
      ideal_den = w.ideal_den * r.reserve_in;
    }

    next : Oriented → ℕ → Result QuoteError Walk
    next r x = ok (walked r x)

    rest : Oriented → Result QuoteError Walk
    rest r = lift_amm (get_amount_out w.amount r.reserve_in r.reserve_out) >>= next r

pub step_out_inv :
    (pools : Pools) (w : Walk) (h : Hop) {u : Walk}
    → step_out pools w h ≡ ok u
    → (r : Oriented) × (leg pools h ≡ ok r)
      × (get_amount_in w.amount r.reserve_in r.reserve_out ≡ ok u.amount)
      × (u.ideal_num ≡ w.ideal_num * r.reserve_in)
      × (u.ideal_den ≡ w.ideal_den * r.reserve_out)
unfolding step_out
step_out_inv pools w h {u} e =
    let (r, found, quoted) = >>=-eq-ok (leg pools h) (rest) e in
    let (x, amount, done) =
      >>=-eq-ok (lift_amm (get_amount_in w.amount r.reserve_in r.reserve_out)) (next r) quoted in
    let same = ok_injective (walked r x) u done in
    (
      r,
      found,
      lift_amm_inv _ amount ∙ ap (λ z. ok z.amount) same,
      sym (ap (λ z. z.ideal_num) same),
      sym (ap (λ z. z.ideal_den) same),
    )
  where
    walked : Oriented → ℕ → Walk
    walked r x = record {
      amount = x;
      ideal_num = w.ideal_num * r.reserve_in;
      ideal_den = w.ideal_den * r.reserve_out;
    }

    next : Oriented → ℕ → Result QuoteError Walk
    next r x = ok (walked r x)

    rest : Oriented → Result QuoteError Walk
    rest r = lift_amm (get_amount_in w.amount r.reserve_in r.reserve_out) >>= next r

step_in_of :
    (pools : Pools) (w : Walk) (h : Hop) (r : Oriented) {x : ℕ}
    → leg pools h ≡ ok r
    → get_amount_out w.amount r.reserve_in r.reserve_out ≡ ok x
    → (u : Walk) × (step_in pools w h ≡ ok u) × (u.amount ≡ x)
unfolding step_in
step_in_of pools w h r {x} found quoted = (
  record {
    amount = x;
    ideal_num = w.ideal_num * r.reserve_out;
    ideal_den = w.ideal_den * r.reserve_in;
  },
  ground arith,
  refl,
)

-- One hop back and forth, with at least the quoted input.
step_back :
    (pools : Pools) (w : Walk) (h : Hop) {u : Walk} (t : Walk)
    → step_out pools w h ≡ ok u
    → u.amount ≤ t.amount
    → (n : Walk) × (step_in pools t h ≡ ok n) × (w.amount ≤ n.amount)
step_back pools w h {u} t e le =
    let (r, found, paid, _, _) = step_out_inv pools w h e in
    let (x, quoted, covers) =
      get_amount_out-get_amount_in w.amount r.reserve_in r.reserve_out paid in
    let (pos_u, pos_in, pos_out, _) = get_amount_out-inv _ _ _ quoted in
    let more = get_amount_out-ok t.amount r.reserve_in r.reserve_out (omega arith) pos_in pos_out in
    let up = get_amount_out_mono u.amount t.amount r.reserve_in r.reserve_out le quoted more in
    let (n, stepped, same) = step_in_of pools t h r found more in
    (n, stepped, rw same (le_trans covers up))

walk_out-append :
    (pools : Pools) (w : Walk) (xs ys : List Hop)
    → walk_out pools w (xs ++ ys) ≡ (walk_out pools w xs >>= λ u. walk_out pools u ys)
unfolding walk_out
walk_out-append pools w [] ys = refl
walk_out-append pools w (x ∷ xs) ys = elim (Result-cases (step_out pools w x)) [
  | inl (e, fails) ↦ rw fails
  | inr (u, stepped) ↦ rw stepped (walk_out-append pools u xs ys)
]

walk_back :
    (pools : Pools) (w : Walk) (hops : List Hop) {u : Walk} (t : Walk)
    → walk_out pools w (reverse hops) ≡ ok u
    → u.amount ≤ t.amount
    → (n : Walk) × (walk_in pools t hops ≡ ok n) × (w.amount ≤ n.amount)
unfolding walk_in walk_out
walk_back pools w [] {u} t e le = (t, refl, rw (ok_injective w u e) le)
walk_back pools w (h ∷ hops) {u} t e le =
    let split : (walk_out pools w (reverse hops) >>= λ m. walk_out pools m (h ∷ [])) ≡ ok u =
      sym (walk_out-append pools w (reverse hops) (h ∷ [])) ∙ rw reverse-cons at e in
    let (m, before, last) =
      >>=-eq-ok (walk_out pools w (reverse hops)) (λ m. walk_out pools m (h ∷ [])) split in
    let (m', stepped, done) = >>=-eq-ok (step_out pools m h) (λ k. walk_out pools k []) last in
    let (n, forward, covers) = step_back pools m h t stepped (rw (ok_injective m' u done) le) in
    let (n', rest, final) = walk_back pools w hops n before covers in (n', rw forward rest, final)

-- An exact-output quote has walked the hops backwards.
quote_exact_out_inv :
    (hops : List Hop) (pools : Pools) (wanted : ℕ) {q : Quote}
    → quote_exact_out hops pools wanted ≡ ok (some q)
    → (u : Walk) × (walk_out pools (start wanted) (reverse hops) ≡ ok u)
      × (q.amount_in ≡ u.amount)
      × (q.amount_out ≡ wanted)
unfolding quote_exact_out
quote_exact_out_inv hops pools wanted {q} e =
    elim (Result-cases (walk_out pools (start wanted) (reverse hops))) [
      | inl (x, fails) ↦ absurd (fails_not fails)
      | inr (u, walked) ↦ (u, walked, ground arith, ground arith)
    ]
  where
    fails_not : {x : QuoteError} → ¬ (walk_out pools (start wanted) (reverse hops) ≡ err x)
    fails_not fails = ground arith

quote_exact_in_of :
    (hops : List Hop) (pools : Pools) (paid : ℕ) (w : Walk)
    → walk_in pools (start paid) hops ≡ ok w
    → 0 < w.amount
    → (p : Quote) × (quote_exact_in hops pools paid ≡ ok (some p)) × (p.amount_out ≡ w.amount)
unfolding quote_exact_in
quote_exact_in_of hops pools paid w walked positive = (
  record {
    amount_in = paid;
    amount_out = w.amount;
    impact_bps = shortfall_bps (mid_price w) w.amount;
  },
  ground arith,
  refl,
)

-- An exact-output quote is honoured by the exact-input quote of the input that it asks: along the same
-- hops that yields at least the output that was wanted.
pub quote_exact_in-quote_exact_out :
    (hops : List Hop) (pools : Pools) (wanted : ℕ) {q : Quote}
    → 0 < wanted
    → quote_exact_out hops pools wanted ≡ ok (some q)
    → (p : Quote) × (quote_exact_in hops pools q.amount_in ≡ ok (some p))
      × (q.amount_out ≡ wanted)
      × (wanted ≤ p.amount_out)
quote_exact_in-quote_exact_out hops pools wanted {q} positive e =
    let (u, walked, paid, same) = quote_exact_out_inv hops pools wanted e in
    let (n, forward, covers) =
      walk_back pools (start wanted) hops (start q.amount_in) walked (omega arith) in
    let (p, quoted, out) = quote_exact_in_of hops pools q.amount_in n forward (omega arith) in
    (p, quoted, same, rw out covers)
