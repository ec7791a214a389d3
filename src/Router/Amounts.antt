-- ===== src/Router/Amounts.antt =====
-- What the router's two computations make of a quote of apps/web/src/hooks/useSwapRoute.ts.
use ark_swap.Prelude.{
  ℕ, ◌-◌, ◌^◌, ◌≡◌, refl, sym, ap, ◌∙◌, ◌<◌, ◌≤◌, true, some, List, [], ◌∷◌, ◌++◌, reverse, Text,
  arith, ok, >>=-eq-ok, length, get_elem?, leb,
}
use ark_swap.Route.Quoting.{
  Hop, Pools, Quote, Walk, start, walk_in, walk_out, quote_exact_in, quote_exact_out,
}
use ark_swap.Router.{Reserves, get_amounts_out, get_amounts_in, sell, buy}
use ark_swap.Router.Outputs.{get_amounts_out_lem}
use ark_swap.Router.Inputs.{inputs, get_amounts_in_lem}
use ark_swap.Router.Quotes.{
  Chain, Chain-Back, last_of, last_of-get, outputs-walk_in, inputs-walk_out,
}

-- Amounts along a path, from the first to the last.
abbrev pub Moves : List ℕ → ℕ → ℕ → Type 0
Moves amounts x y = (more : List ℕ) × (amounts ≡ x ∷ more) × (last_of x more ≡ y)

pub Moves-eq : (l : List ℕ) (x y x' y' : ℕ) → x' ≡ x → y' ≡ y → Moves l x y → Moves l x' y'
Moves-eq l x y x' y' e f (more, whole, last) = (more, rw e whole, rw (e, f) last)

quote_in_inv :
    (hops : List Hop) (pools : Pools) (x : ℕ) {q : Quote}
    → quote_exact_in hops pools x ≡ ok (some q)
    → (w : Walk) × (walk_in pools (start x) hops ≡ ok w)
      × (q.amount_in ≡ x)
      × (q.amount_out ≡ w.amount)
unfolding quote_exact_in
quote_in_inv hops pools x {q} e =
    let (w, walked, made) = >>=-eq-ok (walk_in pools (start x) hops) _ e in
    (w, walked, ground arith, ground arith)

quote_out_inv :
    (hops : List Hop) (pools : Pools) (y : ℕ) {q : Quote}
    → quote_exact_out hops pools y ≡ ok (some q)
    → (w : Walk) × (walk_out pools (start y) (reverse hops) ≡ ok w)
      × (q.amount_in ≡ w.amount)
      × (q.amount_out ≡ y)
unfolding quote_exact_out
quote_out_inv hops pools y {q} e =
    let (w, walked, made) = >>=-eq-ok (walk_out pools (start y) (reverse hops)) _ e in
    (w, walked, ground arith, ground arith)

module _ (pools : Pools) (reserves : Reserves) (a b : Text) (path : List Text) (hops : List Hop)
    (chain : Chain pools reserves a (b ∷ path) hops) where
  -- Selling the quoted input for no more than the quoted output moves the quoted amounts.
  pub sell-quote_exact_in :
      (x m : ℕ) {q : Quote}
      → quote_exact_in hops pools x ≡ ok (some q)
      → x < 2 ^ 112
      → m ≤ q.amount_out
      → (amounts : List ℕ) × (sell reserves q.amount_in m (a ∷ b ∷ path) ≡ ok amounts)
        × Moves amounts q.amount_in q.amount_out
  unfolding sell
  sell-quote_exact_in x m {q} e small least =
      let (w, walked, same_in, same_out) = quote_in_inv hops pools x e in
      let (more, follows, last) =
        outputs-walk_in pools reserves (start x) a (b ∷ path) hops chain small walked in
      let computed : get_amounts_out reserves x (a ∷ b ∷ path) ≡ ok (x ∷ more) =
        get_amounts_out_lem reserves x a b path ∙ rw follows refl in
      let final : get_elem? (x ∷ more) (length (x ∷ more) - 1) ≡ some q.amount_out =
        let before : length (x ∷ more) - 1 ≡ length more = omega arith in
        rw before (last_of-get x more ∙ ap some (last ∙ sym same_out)) in
      let passes : leb m q.amount_out ≡ true = ground arith in
      (
        x ∷ more,
        rw (same_in, computed, final, passes) refl,
        (
          more,
          ap (λ n. n ∷ more) (sym same_in),
          ap (λ n. last_of n more) same_in ∙ last ∙ sym same_out,
        ),
      )

  -- Buying the quoted output for no less than the quoted input moves the quoted amounts.
  pub buy-quote_exact_out :
      (y m : ℕ) {q : Quote}
      → quote_exact_out hops pools y ≡ ok (some q)
      → q.amount_in ≤ m
      → (amounts : List ℕ) × (buy reserves q.amount_out m (a ∷ b ∷ path) ≡ ok amounts)
        × Moves amounts q.amount_in q.amount_out
  unfolding buy
  buy-quote_exact_out y m {q} e most =
      let (w, walked, same_in, same_out) = quote_out_inv hops pools y e in
      let (z, back, whole, linked) = Chain-Back pools reserves a (b ∷ path) hops chain in
      let (more, follows, last) =
        inputs-walk_out pools reserves (start y) z back (reverse hops) a [] linked walked in
      let computed : get_amounts_in reserves y (a ∷ b ∷ path) ≡ ok (w.amount ∷ more) =
        backwards y z back whole ∙ follows in
      let passes : leb w.amount m ≡ true = ground arith in
      (
        w.amount ∷ more,
        rw (same_out, computed, passes) refl,
        (
          more,
          ap (λ n. n ∷ more) (sym same_in),
          ap (λ n. last_of n more) same_in ∙ last ∙ sym same_out,
        ),
      )
    where
      two≢one : {z : Text} → ¬ (a ∷ b ∷ path ≡ z ∷ [])
      two≢one k = cc

      backwards :
          (y : ℕ) (z : Text) (back : List Text)
          → a ∷ b ∷ path ≡ reverse back ++ z ∷ []
          → get_amounts_in reserves y (a ∷ b ∷ path) ≡ inputs reserves y z back []
      backwards y z [] whole = absurd (two≢one whole)
      backwards y z (c ∷ back) whole = get_amounts_in_lem reserves y c z back (a ∷ b ∷ path) whole
