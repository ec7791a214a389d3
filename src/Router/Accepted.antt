-- ===== src/Router/Accepted.antt =====
-- A swap of the form that the router runs on the pairs that the form read.
use ark_swap.Prelude.{
  ℕ, ◌^◌, ◌≡◌, refl, sym, ap, ◌∙◌, ◌<◌, ◌≤◌, true, false, some, List, [], ◌∷◌, ◌++◌, Text, is_empty,
  get_or, arith, Result, ok, inl, inr,
}
use ark_swap.Amm.{maximum_sold}
use ark_swap.Amm.Slippage.{minimum_received_lem, maximum_sold_bounds}
use ark_swap.Tokens.{routed_address}
use ark_swap.PairAddress.{Viem}
use ark_swap.Route.{SwapSide, exact_in, exact_out, SwapRoute, Candidate}
use ark_swap.Route.Quoting.{Hop, Pools, Quote, quote_exact_in, quote_exact_out}
use ark_swap.Route.Search.{
  RouteInput, RouteResult, ends_of, input_candidates, input_pools, use_swap_route, quote_side,
}
use ark_swap.Route.Candidates.{input_candidates-IsPath}
use ark_swap.Route.Optimal.{use_swap_route_optimal}
use ark_swap.SwapForm.{CardInput, quote_of, is_out, side_of_form}
use ark_swap.SwapForm.Calls.{SwapCall, call_exact_in, call_exact_out, submit}
use ark_swap.Router.{RouterError, Reserves, run_swap}
use ark_swap.Router.Quotes.{IsUnchanged, Chain, hops_from-Chain}
use ark_swap.Router.Amounts.{Moves, Moves-eq, sell-quote_exact_in, buy-quote_exact_out}
use ark_swap.Router.Candidates.{IsFrom-All, evaluate_inv, hops_of_lem}
use ark_swap.Router.Checks.{
  starts_lem, ends_lem, IsTimely, run_exact_in, run_exact_out, submit_inv, side_cases,
}

-- The search that the form quotes from, and the state of the chain when the router runs.
pub record IsCurrent (v : Viem) (ri : RouteInput) (i : CardInput) (factory weth : Text)
    (amount now : ℕ) (cs : List Candidate) (pools : Pools) (reserves : Reserves) : Type 0 where
  pub configured : ri.factory ≡ some factory
  pub nonempty : is_empty factory ≡ false
  pub wrapped : ri.wkash ≡ some weth
  pub same_in : ri.token_in ≡ (i.form).token_in
  pub same_out : ri.token_out ≡ (i.form).token_out
  pub same_side : ri.side ≡ side_of_form i
  pub typed : ri.amount ≡ some amount
  pub positive : 0 < amount
  pub small : amount < 2 ^ 112
  pub paths : input_candidates ri ≡ ok cs
  pub read : input_pools v ri cs ≡ ok pools
  pub unchanged : IsUnchanged v factory pools reserves
  pub untaxed : i.fee_on_transfer ≡ false
  pub in_time : now ≤ get_or i.deadline 0
  pub tolerance : i.slippage_bps ≤ 10_000

head_of :
    (mid : List Text) (z : Text) → (b : Text) × (path : List Text) × (mid ++ z ∷ [] ≡ b ∷ path)
head_of [] z = (z, [], refl)
head_of (b ∷ mid) z = (b, mid ++ z ∷ [], refl)

record IsPlanned (v : Viem) (factory : Text) (pools : Pools) (reserves : Reserves) (side : SwapSide)
    (amount : ℕ) (weth : Text) (now : ℕ) (i : CardInput) (r : SwapRoute) : Type 0 where
  a : Text
  b : Text
  path : List Text
  hops : List Hop
  q : Quote
  whole : r.path ≡ a ∷ b ∷ path
  chain : Chain pools reserves a (b ∷ path) hops
  quoted : quote_side v factory pools side amount hops ≡ ok (some q)
  amount_in : r.amount_in ≡ q.amount_in
  amount_out : r.amount_out ≡ q.amount_out
  timely : IsTimely i weth now r.path

module _ (v : Viem) (ri : RouteInput) (i : CardInput) (factory weth : Text) (amount now : ℕ)
    (cs : List Candidate) (pools : Pools) (reserves : Reserves)
    (taxed : SwapCall → Result RouterError (List ℕ))
    (cur : IsCurrent v ri i factory weth amount now cs pools reserves) where
  start_token : ((i.form).token_in).is_native ≡ true → (ends_of ri).in_addr ≡ weth
  unfolding routed_address
  start_token e = rw (routed_address, cur.same_in, e, cur.wrapped) refl

  end_token : ((i.form).token_out).is_native ≡ true → (ends_of ri).out_addr ≡ weth
  unfolding routed_address
  end_token e = rw (routed_address, cur.same_out, e, cur.wrapped) refl

  -- What the search has made of a path: its hops, the quote and the tokens at its ends.
  route_inv :
      (r : SwapRoute) {out : RouteResult}
      → use_swap_route v ri ≡ ok out
      → out.route ≡ some r
      → IsPlanned v factory pools reserves ri.side amount weth now i r
  route_inv r e found =
      let (_, from) =
        use_swap_route_optimal v ri factory amount cs pools cur.configured cur.nonempty cur.typed
          cur.positive cur.paths cur.read e in
      let (c, q, (mid, shape, _, _, _), quotes, same) =
        IsFrom-All v factory pools ri.side amount r cs (rw found at from)
          (input_candidates-IsPath ri cur.paths) in
      let (hops, walked, quoted) = evaluate_inv v factory pools ri.side amount c quotes in
      let (b, path, split) = head_of mid (ends_of ri).out_addr in
      let whole : r.path ≡ (ends_of ri).in_addr ∷ b ∷ path =
        ap (λ (x : SwapRoute). x.path) same ∙ shape ∙ ap (λ l. (ends_of ri).in_addr ∷ l) split in
      record {
        a = (ends_of ri).in_addr;
        b = b;
        path = path;
        hops = hops;
        q = q;
        whole = whole;
        chain =
            hops_from-Chain v factory pools reserves cur.unchanged (ends_of ri).in_addr (b ∷ path) (
              sym (
                hops_of_lem v factory pools c (ends_of ri).in_addr (b ∷ path)
                  (shape ∙ ap (λ l. (ends_of ri).in_addr ∷ l) split))
              ∙ walked);
        quoted = quoted;
        amount_in = ap (λ (x : SwapRoute). x.amount_in) same;
        amount_out = ap (λ (x : SwapRoute). x.amount_out) same;
        timely = record {
          untaxed = cur.untaxed;
          in_time = cur.in_time;
          from = λ native.
              rw whole (starts_lem weth (ends_of ri).in_addr (b ∷ path) (start_token native));
          into = λ native.
              rw (ap (λ (x : SwapRoute). x.path) same ∙ shape) (
                ends_lem weth (ends_of ri).out_addr ((ends_of ri).in_addr ∷ mid)
                  (end_token native));
        };
      }

  run_in :
      (r : SwapRoute) {c : SwapCall}
      → IsPlanned v factory pools reserves ri.side amount weth now i r
      → i.route ≡ some r
      → submit i ≡ some c
      → ri.side ≡ exact_in
      → is_out (side_of_form i) ≡ false
      → (amounts : List ℕ) × (run_swap reserves taxed weth now c ≡ ok amounts)
        × Moves amounts r.amount_in r.amount_out
  unfolding quote_side
  run_in r {c} p shown sent on is_in = elim (minimum_received_lem r.amount_out i.slippage_bps) [
    | inr (beyond, _) ↦ absurd (omega (arith, cur.tolerance))
    | inl (_, (m, least, _, _, below)) ↦
        let quote : quote_exact_in p.hops pools amount ≡ ok (some p.q) = rw on at p.quoted in
        let (amounts, sold, moved) =
          sell-quote_exact_in pools reserves p.a p.b p.path p.hops p.chain amount m quote cur.small
            (omega (arith, p.amount_out)) in
        let call : c ≡ call_exact_in i (quote_of i r) r.path (get_or i.address []) =
          submit_inv i r shown sent ∙ rw is_in refl in
        (
          amounts,
          rw call (
              run_exact_in reserves taxed weth now i (quote_of i r) r.path (get_or i.address [])
                p.timely m (rw is_in least)
              ∙ rw (p.whole, p.amount_in) sold),
          Moves-eq amounts (p.q).amount_in (p.q).amount_out r.amount_in r.amount_out p.amount_in
              p.amount_out moved,
        )
  ]

  run_out :
      (r : SwapRoute) {c : SwapCall}
      → IsPlanned v factory pools reserves ri.side amount weth now i r
      → i.route ≡ some r
      → submit i ≡ some c
      → ri.side ≡ exact_out
      → is_out (side_of_form i) ≡ true
      → (amounts : List ℕ) × (run_swap reserves taxed weth now c ≡ ok amounts)
        × Moves amounts r.amount_in r.amount_out
  unfolding quote_side
  run_out r {c} p shown sent on is_out_ =
      let quote : quote_exact_out p.hops pools amount ≡ ok (some p.q) = rw on at p.quoted in
      let (_, _, enough) = maximum_sold_bounds r.amount_in i.slippage_bps in
      let most : (quote_of i r).max_sold ≡ maximum_sold r.amount_in i.slippage_bps =
        rw is_out_ refl in
      let (amounts, bought, moved) =
        buy-quote_exact_out pools reserves p.a p.b p.path p.hops p.chain amount
          (quote_of i r).max_sold quote (omega (arith, most, p.amount_in)) in
      let call : c ≡ call_exact_out i (quote_of i r) r.path (get_or i.address []) =
        submit_inv i r shown sent ∙ rw is_out_ refl in
      (
        amounts,
        rw call (
            run_exact_out reserves taxed weth now i (quote_of i r) r.path (get_or i.address [])
              p.timely
            ∙ rw (p.whole, p.amount_out) bought),
        Moves-eq amounts (p.q).amount_in (p.q).amount_out r.amount_in r.amount_out p.amount_in
            p.amount_out moved,
      )

  -- A swap that the form sends for an untaxed token runs through the router's checks while the pairs hold what
  -- was read and the deadline has not passed: it takes the quoted input along the path and yields the quoted
  -- output, whichever of the two was typed.
  pub submit-run_swap :
      (r : SwapRoute) {out : RouteResult} {c : SwapCall}
      → use_swap_route v ri ≡ ok out
      → out.route ≡ some r
      → i.route ≡ some r
      → submit i ≡ some c
      → (amounts : List ℕ) × (run_swap reserves taxed weth now c ≡ ok amounts)
        × Moves amounts r.amount_in r.amount_out
  submit-run_swap r e found shown sent =
      let p = route_inv r e found in
      elim (side_cases (side_of_form i)) [
        | inl (in_, is_in) ↦ run_in r p shown sent (cur.same_side ∙ in_) is_in
        | inr (out_, is_out_) ↦ run_out r p shown sent (cur.same_side ∙ out_) is_out_
      ]
