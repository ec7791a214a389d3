-- ===== src/Router/Quotes.antt =====
-- The amounts that the router computes along a path are those that apps/web/src/hooks/useSwapRoute.ts quotes,
-- while the pairs hold what it read.
use mathlib.Core.List.{reverse-cons, reverse-append}
use ark_swap.Prelude.{
  ℕ, ◌^◌, ◌≡◌, refl, sym, ap, ◌∙◌, ◌<◌, Option, none, some, List, [], ◌∷◌, ◌++◌, reverse, Text,
  lower, arith, Result, ok, ◌>>=◌, >>=-eq-ok, ok_injective, length, get_elem?,
}
use ark_swap.Amm.Bounds.{get_amount_out-lt-reserve}
use ark_swap.Amm.Contract.{contract_get_amount_out_complete, contract_get_amount_in_complete}
use ark_swap.PairAddress.{Viem, AddressError, compute_pair_address}
use ark_swap.Route.Quoting.{
  Hop, Pools, PoolReserves, Oriented, get_pool, oriented, leg, Walk, step_in, step_out, walk_in,
  walk_out,
}
use ark_swap.Route.Quoting.RoundTrip.{step_in_inv, step_out_inv}
use ark_swap.Route.Search.{hops_from}
use ark_swap.Router.{Reserves, pair_out, pair_in}
use ark_swap.Router.Outputs.{outputs}
use ark_swap.Router.Inputs.{inputs}

-- The pairs hold, in words of 112 bits, the reserves that were read at their derived addresses.
pub record IsUnchanged (v : Viem) (factory : Text) (pools : Pools) (reserves : Reserves)
    : Type 0 where
  pub same :
      (a b : Text) {pair : Text} {p : PoolReserves}
      → compute_pair_address v factory a b ≡ ok pair
      → get_pool (lower pair) pools ≡ some p
      → reserves a b ≡ some ((oriented p a).reserve_in, (oriented p a).reserve_out)
  pub small : (a b : Text) {r s : ℕ} → reserves a b ≡ some (r, s) → (r < 2 ^ 112) × (s < 2 ^ 112)

module _ (pools : Pools) (reserves : Reserves) where
  -- The hop is from `a` to `b`, through the pair that the router calls.
  abbrev pub Agrees : Hop → Text → Text → Type 0
  Agrees hop a b =
      (r : Oriented)
      → leg pools hop ≡ ok r
      → (reserves a b ≡ some (r.reserve_in, r.reserve_out))
        × (r.reserve_in < 2 ^ 112)
        × (r.reserve_out < 2 ^ 112)

  abbrev pub Chain : Text → List Text → List Hop → Type 0
  Chain a [] [] = Unit
  Chain a [] (hop ∷ hops) = ⊥
  Chain a (b ∷ path) [] = ⊥
  Chain a (b ∷ path) (hop ∷ hops) = Agrees hop a b × Chain b path hops

  -- The same from the end of the path, `first` being its first token.
  abbrev pub Back : Text → List Text → List Hop → Text → Type 0
  Back b [] [] first = b ≡ first
  Back b [] (hop ∷ hops) first = ⊥
  Back b (a ∷ back) [] first = ⊥
  Back b (a ∷ back) (hop ∷ hops) first = Agrees hop a b × Back a back hops first

  Back-snoc :
      (b : Text) (back : List Text) (hops : List Hop) (first a : Text) (hop : Hop)
      → Back b back hops first
      → Agrees hop a first
      → Back b (back ++ a ∷ []) (hops ++ hop ∷ []) a
  Back-snoc b [] [] first a hop e h = (rw e h, refl)
  Back-snoc b [] (_ ∷ _) first a hop e h = elim e [ ]
  Back-snoc b (_ ∷ _) [] first a hop e h = elim e [ ]
  Back-snoc b (c ∷ back) (g ∷ hops) first a hop (k, e) h =
      (k, Back-snoc c back hops first a hop e h)

  pub Chain-Back :
      (a : Text) (path : List Text) (hops : List Hop)
      → Chain a path hops
      → (z : Text) × (back : List Text) × (a ∷ path ≡ reverse back ++ z ∷ [])
        × Back z back (reverse hops) a
  Chain-Back a [] [] c = (a, [], refl, refl)
  Chain-Back a [] (_ ∷ _) c = elim c [ ]
  Chain-Back a (_ ∷ _) [] c = elim c [ ]
  Chain-Back a (b ∷ path) (hop ∷ hops) (h, c) =
      let (z, back, e, k) = Chain-Back b path hops c in
      (
        z,
        back ++ a ∷ [],
        rw reverse-append (ap (λ l. a ∷ l) e),
        rw reverse-cons (Back-snoc z back (reverse hops) b a hop k h),
      )

abbrev pub last_of : ℕ → List ℕ → ℕ
last_of x [] = x
last_of x (y ∷ l) = last_of y l

pub last_of-get : (x : ℕ) (l : List ℕ) → get_elem? (x ∷ l) (length l) ≡ some (last_of x l)
last_of-get x [] = refl
last_of-get x (y ∷ l) = last_of-get y l

-- What the walk along a path has found.
found_hop :
    (hop : Hop) (o : Option (List Hop)) {hops : List Hop}
    → ◌≡◌ {A = Result AddressError (Option (List Hop))}
        (ok (elim o [ none ↦ none | some rest ↦ some (hop ∷ rest) ]))
        (ok (some hops))
    → (rest : List Hop) × (o ≡ some rest) × (hops ≡ hop ∷ rest)
found_hop hop none e = cc
found_hop hop (some rest) e = (rest, refl, cc)

module _ (pools : Pools) (reserves : Reserves) where
  -- A hop that the form quotes is one that the router computes, with the same output.
  pair_out_lem :
      (w : Walk) (hop : Hop) (a b : Text) {u : Walk}
      → Agrees pools reserves hop a b
      → w.amount < 2 ^ 112
      → step_in pools w hop ≡ ok u
      → (pair_out reserves w.amount a b ≡ ok u.amount) × (u.amount < 2 ^ 112)
  pair_out_lem w hop a b {u} agrees small e =
      let (r, read, quoted, _, _) = step_in_inv pools w hop e in
      let (here, small_in, small_out) = agrees r read in
      (
        rw
            (
              here,
              contract_get_amount_out_complete w.amount r.reserve_in r.reserve_out small small_in
                  small_out quoted,
            )
            refl,
        omega (arith, get_amount_out-lt-reserve w.amount r.reserve_in r.reserve_out quoted),
      )

  pair_in_lem :
      (w : Walk) (hop : Hop) (a b : Text) {u : Walk}
      → Agrees pools reserves hop a b
      → step_out pools w hop ≡ ok u
      → pair_in reserves w.amount a b ≡ ok u.amount
  pair_in_lem w hop a b {u} agrees e =
      let (r, read, quoted, _, _) = step_out_inv pools w hop e in
      let (here, small_in, small_out) = agrees r read in
      rw
        (
          here,
          contract_get_amount_in_complete w.amount r.reserve_in r.reserve_out small_in small_out
              quoted,
        )
        refl

  pub outputs-walk_in :
      (w : Walk) (a : Text) (path : List Text) (hops : List Hop) {u : Walk}
      → Chain pools reserves a path hops
      → w.amount < 2 ^ 112
      → walk_in pools w hops ≡ ok u
      → (more : List ℕ) × (outputs reserves w.amount a path ≡ ok more)
        × (last_of w.amount more ≡ u.amount)
  unfolding walk_in outputs
  outputs-walk_in w a [] [] c small e = ([], refl, ap (λ x. x.amount) (ok_injective _ _ e))
  outputs-walk_in w a [] (_ ∷ _) c small e = elim c [ ]
  outputs-walk_in w a (_ ∷ _) [] c small e = elim c [ ]
  outputs-walk_in w a (b ∷ path) (hop ∷ hops) (agrees, c) small e =
      let (n, stepped, rest) = >>=-eq-ok (step_in pools w hop) (λ n. walk_in pools n hops) e in
      let (paid, less) = pair_out_lem w hop a b agrees small stepped in
      let (more, follows, last) = outputs-walk_in n b path hops c less rest in
      (n.amount ∷ more, rw (paid, follows) refl, last)

  pub inputs-walk_out :
      (w : Walk) (b : Text) (back : List Text) (hops : List Hop) (first : Text) (known : List ℕ)
      {u : Walk}
      → Back pools reserves b back hops first
      → walk_out pools w hops ≡ ok u
      → (more : List ℕ) × (inputs reserves w.amount b back known ≡ ok (u.amount ∷ more))
        × (last_of u.amount more ≡ last_of w.amount known)
  unfolding walk_out inputs
  inputs-walk_out w b [] [] first known c e = (
    known,
    ap (λ (x : Walk). ok (x.amount ∷ known)) (ok_injective _ _ e),
    ap (λ (x : Walk). last_of x.amount known) (sym (ok_injective _ _ e)),
  )
  inputs-walk_out w b [] (_ ∷ _) first known c e = elim c [ ]
  inputs-walk_out w b (_ ∷ _) [] first known c e = elim c [ ]
  inputs-walk_out w b (a ∷ back) (hop ∷ hops) first known (agrees, c) e =
      let (n, stepped, rest) = >>=-eq-ok (step_out pools w hop) (λ n. walk_out pools n hops) e in
      let (more, follows, last) = inputs-walk_out n a back hops first (w.amount ∷ known) c rest in
      (more, rw (pair_in_lem w hop a b agrees stepped) follows, last)

read_hop :
    (o : Option PoolReserves) (m : Result AddressError (Option (List Hop)))
    (join : Option (List Hop) → Result AddressError (Option (List Hop))) {hops : List Hop}
    → (elim o as (λ x. Result AddressError (Option (List Hop))) [
      | none ↦ ok none
      | some pool ↦ m >>= join
    ])
      ≡ ok (some hops)
    → (pool : PoolReserves) × (o ≡ some pool) × ((m >>= join) ≡ ok (some hops))
read_hop none m join e = cc
read_hop (some pool) m join e = (pool, refl, e)

leg_inv :
    (pools : Pools) (hop : Hop) (pool : PoolReserves) {r : Oriented}
    → get_pool (lower hop.pair) pools ≡ some pool
    → leg pools hop ≡ ok r
    → oriented pool hop.token_in ≡ r
unfolding leg
leg_inv pools hop pool {r} read e = ground arith

nothing_left :
    {hops : List Hop}
    → ◌≡◌ {A = Result AddressError (Option (List Hop))} (ok (some [])) (ok (some hops))
    → [] ≡ hops
nothing_left e = cc

module _ (v : Viem) (factory : Text) (pools : Pools) (reserves : Reserves)
    (unchanged : IsUnchanged v factory pools reserves) where
  -- The hops that the form makes of a path agree with the pairs along it.
  pub hops_from-Chain :
      (a : Text) (path : List Text) {hops : List Hop}
      → hops_from v factory pools a path ≡ ok (some hops)
      → Chain pools reserves a path hops
  unfolding hops_from
  hops_from-Chain a [] {hops} e = rw (sym (nothing_left e)) tt
  hops_from-Chain a (b ∷ path) {hops} e =
      let (pair, derived, looked_up) = >>=-eq-ok (compute_pair_address v factory a b) (next) e in
      let (pool, read, went_on) =
        read_hop (get_pool (lower pair) pools) (hops_from v factory pools b path) (join pair)
          looked_up in
      let (o, walked, joined) = >>=-eq-ok (hops_from v factory pools b path) (join pair) went_on in
      let (rest, later, same) = found_hop (hop_of pair) o joined in
      rw same (agrees pair pool derived read, hops_from-Chain b path (walked ∙ ap ok later))
    where
      hop_of : Text → Hop
      hop_of pair = record { pair = pair; token_in = a; token_out = b }

      join : Text → Option (List Hop) → Result AddressError (Option (List Hop))
      join pair o = ok (elim o [ none ↦ none | some rest ↦ some (hop_of pair ∷ rest) ])

      next : Text → Result AddressError (Option (List Hop))
      next pair = elim (get_pool (lower pair) pools) [
        | none ↦ ok none
        | some pool ↦ hops_from v factory pools b path >>= join pair
      ]

      agrees :
          (pair : Text) (pool : PoolReserves)
          → compute_pair_address v factory a b ≡ ok pair
          → get_pool (lower pair) pools ≡ some pool
          → Agrees pools reserves (hop_of pair) a b
      agrees pair pool derived read r e' =
          let same = leg_inv pools (hop_of pair) pool read e' in
          let here : reserves a b ≡ some (r.reserve_in, r.reserve_out) =
            unchanged.same a b derived read
            ∙ ap (λ (o : Oriented). some (o.reserve_in, o.reserve_out)) same in
          let (x, y) = unchanged.small a b here in (here, x, y)
