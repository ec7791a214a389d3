-- ===== src/Select/Offered.antt =====
-- When the dialog offers to import a token.
use ark_swap.Prelude.{
  ◌≡◌, refl, sym, ap, ◌∙◌, Bool, true, false, ◌||◌, Option, none, some, List, [], ◌∷◌, Text, arith,
  lower, trim, is_empty, text_eq, text_eq→eq, find, filter, length, get_or, Bool-cases,
  Option-cases, inl, inr, lower-is_empty, ==_iff, ◌>>=?◌,
}
use mathlib.Core.Bool.{false≢true, and-eq-true_iff}
use mathlib.Core.Option.{some-injective}
use ark_swap.Prelude.Search.{starts_with, includes}
use ark_swap.Tokens.{Token, token_by_address, address_is}
use ark_swap.Imports.{Stored}
use ark_swap.Select.{
  MetadataRead, MetadataQuery, metadata_of, use_token_metadata, matches, results, pasted_address,
  candidate,
}

starts_with_refl : (s : Text) → starts_with s s ≡ true
starts_with_refl [] = refl
starts_with_refl (c ∷ s) = ground (arith, starts_with_refl s)

includes_refl : (s : Text) → includes s s ≡ true
includes_refl [] = refl
includes_refl (c ∷ s) = rw (starts_with_refl (c ∷ s)) refl

or_third : (a b c : Bool) → (a || b || c) ≡ false → c ≡ false
or_third true b c e = absurd (false≢true (sym e))
or_third false true c e = absurd (false≢true (sym e))
or_third false false c e = e

-- A token that the search for an address leaves out does not have that address.
matches-address : (q : Text) (t : Token) → matches q t ≡ false → address_is q t ≡ false
matches-address q t e = elim (Option-cases t.address) [
  | inl missing ↦ rw missing refl
  | inr (a, listed) ↦ elim (Bool-cases (text_eq (lower a) q)) [
    | inr differ ↦ rw (listed, differ) refl
    | inl same ↦
        let third : includes (lower (get_or t.address [])) q ≡ true =
          rw (listed, text_eq→eq (lower a) q same) (includes_refl q) in
        absurd (
          false≢true
            (sym (or_third (includes (lower t.symbol) q) (includes (lower t.name) q) _ e) ∙ third))
  ]
]

find-matches :
    (q : Text) (tokens : List Token)
    → length (filter (matches q) tokens) ≡ 0
    → find (address_is q) tokens ≡ none
find-matches q [] e = refl
find-matches q (t ∷ tokens) e = elim (Bool-cases (matches q t)) [
  | inl m ↦ absurd (omega (arith, rw (filter, m) at e))
  | inr m ↦ rw (matches-address q t m) (find-matches q tokens (rw (filter, m) at e))
]

lookup_none :
    (tokens : List Token) (a : Text)
    → find (address_is (lower a)) tokens ≡ none
    → token_by_address tokens (some a) ≡ none
unfolding token_by_address
lookup_none tokens a e = elim (Bool-cases (is_empty a)) [
  | inl f ↦ rw f refl
  | inr f ↦ rw (f, e) refl
]

-- Nothing is listed at an address that the dialog takes as pasted.
pasted_address-unlisted :
    (is_address : Text → Bool) (query : Text) (tokens : List Token)
    → is_address [] ≡ false
    → pasted_address is_address query tokens ≡ true
    → (is_address (trim query) ≡ true) × (token_by_address tokens (some (trim query)) ≡ none)
unfolding pasted_address results
pasted_address-unlisted is_address query tokens law e =
    let (valid, nothing) = (and-eq-true_iff (is_address (trim query)) _).0 e in
    elim (Bool-cases (is_empty (lower (trim query)))) [
      | inl f ↦
          let empty : trim query ≡ [] =
            no_text (trim query) (sym (lower-is_empty (trim query)) ∙ f) in
          absurd (false≢true (sym law ∙ (rw empty at valid)))
      | inr f ↦
          let none_left : length (filter (matches (lower (trim query))) tokens) ≡ 0 =
            (==_iff _ 0).0 (rw (results, f) at nothing) in
          (
            valid,
            lookup_none tokens (trim query) (find-matches (lower (trim query)) tokens none_left),
          )
    ]
  where
    no_text : (t : Text) → is_empty t ≡ true → t ≡ []
    no_text [] k = refl
    no_text (c ∷ t) k = absurd (false≢true k)

metadata_inv :
    (address : Text) (d : Option MetadataRead) {s : Stored}
    → (d >>=? metadata_of address) ≡ some s
    → (r : MetadataRead) × (d ≡ some r) × (r.decimals ≡ some s.decimals) × (s.address ≡ address)
metadata_inv address none {s} e = absurd (none≢some e)
  where
    none≢some : ¬ (none ≡ some s)
    none≢some k = cc
metadata_inv address (some r) {s} e = elim (Option-cases r.decimals) [
  | inl unknown ↦ absurd (none≢some (rw unknown at e))
  | inr (n, known) ↦
      let built = some-injective _ _ (rw known at e) in
      (r, refl, known ∙ ap (λ x. some x.decimals) built, ap (λ x. x.address) (sym built))
]
  where
    none≢some : ¬ (none ≡ some s)
    none≢some k = cc

-- When the dialog offers to import a token, the text without surrounding space is its address, no token of
-- the list has that address up to case, and the contract answered its decimals. viem does not take the
-- empty text as an address.
pub candidate-unlisted :
    (is_address : Text → Bool) (query : Text) (tokens : List Token) (q : MetadataQuery) {s : Stored}
    → is_address [] ≡ false
    → (candidate is_address query tokens q).metadata ≡ some s
    → (s.address ≡ trim query)
      × (is_address s.address ≡ true)
      × (token_by_address tokens (some s.address) ≡ none)
      × ((r : MetadataRead) × (q.data_of ≡ some r) × (r.decimals ≡ some s.decimals))
unfolding candidate use_token_metadata
candidate-unlisted is_address query tokens q {s} law e =
    elim (Bool-cases (pasted_address is_address query tokens)) [
      | inr f ↦ absurd (none≢some (rw (candidate, f, use_token_metadata, law) at e))
      | inl f ↦
          let (valid, unlisted) = pasted_address-unlisted is_address query tokens law f in
          let read : (q.data_of >>=? metadata_of (trim query)) ≡ some s =
            rw (candidate, f, use_token_metadata, valid) at e in
          let (r, answered, known, same) = metadata_inv (trim query) q.data_of read in
          (same, rw same valid, rw same unlisted, (r, answered, known))
    ]
  where
    none≢some : ¬ (none ≡ some s)
    none≢some k = cc
