-- ===== src/Route/Candidates.antt =====
-- The candidate paths of apps/web/src/hooks/useSwapRoute.ts.
use ark_swap.Prelude.{
  ◌≤◌, ◌≡◌, refl, ◌∙◌, true, false, ◌&&◌, Option, none, some, List, [], ◌∷◌, ◌++◌, map, Text,
  text_eq, text_eq_comm, lower, is_set, get_or, length, arith, All, All-append, All-map_of,
  All-mono, filter-All, if◌then◌else◌, ok, Bool-cases, inl, inr, Option-cases,
}
use mathlib.Core.Bool.{and-eq-true_iff}
use mathlib.Core.Option.{some-injective}
use ark_swap.Tokens.{Token, routed_address}
use ark_swap.Route.{
  Candidate, Hub, Ends, differs_from, addressed_hubs, other_hubs, usable_hubs, one_hop, two_hops,
  through, through_pairs, candidates,
}
use ark_swap.Route.Search.{RouteInput, ends_of, input_candidates}

abbrev pub Differ : Text → Text → Type 0
Differ x y = text_eq (lower x) (lower y) ≡ false

-- No token occurs twice, up to case.
abbrev pub IsSimple : List Text → Type 0
IsSimple [] = Unit
IsSimple (x ∷ xs) = All (Differ x) xs × IsSimple xs

-- A path from one end to the other through at most two hubs, with a symbol for each token.
abbrev pub IsPath : Ends → Candidate → Type 0
IsPath e c =
    (mid : List Text) × (c.path ≡ e.in_addr ∷ (mid ++ e.out_addr ∷ []))
    × (length mid ≤ 2)
    × (length c.symbols ≡ length c.path)
    × IsSimple c.path

module _ (e : Ends) where
  abbrev IsApart : Hub → Type 0
  IsApart h = Differ h.addr e.in_addr × Differ h.addr e.out_addr

  flip : (x y : Text) → Differ x y → Differ y x
  flip x y h = text_eq_comm (lower y) (lower x) ∙ h

  module _ (ends : Differ e.in_addr e.out_addr) where
    one_hop-IsPath : (h : Hub) → IsApart h → IsPath e (one_hop e h)
    one_hop-IsPath h (i, o) =
        (h.addr ∷ [], refl, omega arith, refl, ((flip _ _ i, (ends, tt)), ((o, tt), (tt, tt))))

    two_hops-IsPath :
        (a b : Hub) → IsApart a → IsApart b → Differ a.addr b.addr → IsPath e (two_hops e a b)
    two_hops-IsPath a b (ia, oa) (ib, ob) d = (
      a.addr ∷ b.addr ∷ [],
      refl,
      omega arith,
      refl,
      ((flip _ _ ia, (flip _ _ ib, (ends, tt))), ((d, (oa, tt)), ((ob, tt), (tt, tt)))),
    )

    through-IsPath :
        (a : Hub) (hubs : List Hub)
        → IsApart a
        → All IsApart hubs
        → All (IsPath e) (through e a hubs)
    unfolding through
    through-IsPath a [] ha h = tt
    through-IsPath a (b ∷ bs) ha (hb, h) =
        elim (Bool-cases (text_eq (lower a.addr) (lower b.addr))) [
          | inl same ↦ rw same (through-IsPath a bs ha h)
          | inr new ↦ rw new (two_hops-IsPath a b ha hb new, through-IsPath a bs ha h)
        ]

    through_pairs-IsPath :
        (as' hubs : List Hub)
        → All IsApart as'
        → All IsApart hubs
        → All (IsPath e) (through_pairs e as' hubs)
    unfolding through_pairs
    through_pairs-IsPath [] hubs h k = tt
    through_pairs-IsPath (a ∷ rest) hubs (ha, h) k =
        All-append (IsPath e) (through e a hubs) _ (through-IsPath a hubs ha k)
          (through_pairs-IsPath rest hubs h k)

  candidates-IsPath : (hubs : List Hub) → All IsApart hubs → All (IsPath e) (candidates e hubs)
  unfolding candidates
  candidates-IsPath hubs h = elim (Bool-cases (text_eq (lower e.in_addr) (lower e.out_addr))) [
    | inl same ↦ rw same tt
    | inr ends ↦ rw ends (
      ([], refl, omega arith, refl, ((ends, tt), (tt, tt))),
      All-append (IsPath e) (map (one_hop e) hubs) _
          (All-map_of (IsPath e) (one_hop e) hubs (All-mono _ (one_hop-IsPath ends) hubs h))
          (through_pairs-IsPath ends hubs hubs h h),
    )
  ]

set_some : (o : Option Text) → is_set o ≡ true → o ≡ some (get_or o [])
set_some none h = cc
set_some (some a) h = refl

differs_from-Differ :
    (o : Option Text) (h : Hub)
    → is_set o ≡ true
    → differs_from o h ≡ true
    → Differ h.addr (get_or o [])
differs_from-Differ none h set d = cc
differs_from-Differ (some a) h set d = ground arith

usable_hubs-All :
    (wkash : Option Text) (registry : List Token) (t u : Token) {hubs : List Hub}
    → usable_hubs wkash registry t u ≡ some hubs
    → All
        (λ h.
          (differs_from (routed_address wkash t) h && differs_from (routed_address wkash u) h)
          ≡ true)
        hubs
unfolding usable_hubs
usable_hubs-All wkash registry t u {hubs} e = elim (Option-cases (other_hubs t u registry)) [
  | inl missing ↦ absurd (none≢some (rw missing at e))
  | inr (hs, found) ↦
      rw (← some-injective _ _ (rw found at e)) (filter-All _ (addressed_hubs wkash hs))
]
  where
    none≢some : ¬ (none ≡ some hubs)
    none≢some h = cc

-- Whatever the tokens, the registry and the configuration, each candidate path leads from the routed
-- input token to the routed output token through at most two hubs and never revisits a token.
pub input_candidates-IsPath :
    (i : RouteInput) {cs : List Candidate}
    → input_candidates i ≡ ok cs
    → All (IsPath (ends_of i)) cs
unfolding input_candidates
input_candidates-IsPath i {cs} e =
    elim (Option-cases (usable_hubs i.wkash i.hubs i.token_in i.token_out)) [
      | inl missing ↦ absurd (missing_not missing)
      | inr (hubs, found) ↦
          let made : cs ≡ made_of hubs = ground arith in
          rw made (made-IsPath hubs (usable_hubs-All _ _ _ _ found))
    ]
  where
    missing_not : ¬ (usable_hubs i.wkash i.hubs i.token_in i.token_out ≡ none)
    missing_not missing = ground arith

    routed_in : Option Text
    routed_in = routed_address i.wkash i.token_in

    routed_out : Option Text
    routed_out = routed_address i.wkash i.token_out

    made_of : List Hub → List Candidate
    made_of hubs = if is_set routed_in && is_set routed_out then candidates (ends_of i) hubs else []

    made-IsPath :
        (hubs : List Hub)
        → All (λ h. (differs_from routed_in h && differs_from routed_out h) ≡ true) hubs
        → All (IsPath (ends_of i)) (made_of hubs)
    made-IsPath hubs h = elim (Bool-cases (is_set routed_in && is_set routed_out)) [
      | inr unset ↦ rw unset tt
      | inl set ↦
          let (set_in, set_out) = (and-eq-true_iff _ _).0 set in
          rw set (
            candidates-IsPath (ends_of i) hubs (
              All-mono _
                (λ x d.
                  let (di, do') = (and-eq-true_iff _ _).0 d in
                  (
                    differs_from-Differ routed_in x set_in di,
                    differs_from-Differ routed_out x set_out do',
                  ))
                hubs h))
    ]
