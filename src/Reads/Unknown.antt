-- ===== src/Reads/Unknown.antt =====
-- The tokens whose symbol and decimals apps/web/src/hooks/usePools.ts reads from their own contracts.
use ark_swap.Prelude.{
  ◌≡◌, refl, sym, ap, inl, inr, Bool, true, false, Option, none, some, List, [], ◌∷◌, map, any,
  Text, text_eq, text_eq→eq, text_eq_refl, lower, is_empty, All, Bool-cases, Option-cases,
}
use ark_swap.Tokens.{Token, token_by_address}
use ark_swap.PoolList.{PairRead, TokenRead, set_unknown, note_token, unknown_tokens, read_of}

abbrev pub same_key : Text → Text → Bool
same_key a u = text_eq (lower u) (lower a)

-- The list has the address, perhaps in other letters.
abbrev pub Noted : Text → List Text → Type 0
Noted a us = any (same_key a) us ≡ true

set_unknown-Noted : (a : Text) (us : List Text) → Noted a (set_unknown a us)
set_unknown-Noted a [] = rw (text_eq_refl (lower a)) refl
set_unknown-Noted a (u ∷ us) = elim (Bool-cases (same_key a u)) [
  | inl e ↦ rw (e, text_eq_refl (lower a)) refl
  | inr e ↦ rw (e, e) (set_unknown-Noted a us)
]

set_unknown_keeps : (a b : Text) (us : List Text) → Noted b us → Noted b (set_unknown a us)
set_unknown_keeps a b [] h = cc
set_unknown_keeps a b (u ∷ us) h = elim (Bool-cases (same_key a u)) [
  | inl e ↦
      let same : same_key b a ≡ same_key b u =
        ap (λ k. text_eq k (lower b)) (sym (text_eq→eq _ _ e)) in
      rw (e, same) h
  | inr e ↦ elim (Bool-cases (same_key b u)) [
    | inl k ↦ rw (e, k) refl
    | inr k ↦ rw (e, k) (set_unknown_keeps a b us (rw k at h))
  ]
]

module _ (tokens : List Token) where
  note_token_keeps :
      (o : Option Text) (b : Text) (us : List Text) → Noted b us → Noted b (note_token tokens o us)
  note_token_keeps none b us h = h
  note_token_keeps (some a) b us h = elim (Bool-cases (is_empty a)) [
    | inl e ↦ rw e h
    | inr e ↦ elim (Option-cases (token_by_address tokens (some a))) [
      | inl k ↦ rw (e, k) (set_unknown_keeps a b us h)
      | inr (t, k) ↦ rw (e, k) h
    ]
  ]

  unknown_tokens_keeps :
      (ds : List PairRead) (b : Text) (us : List Text)
      → Noted b us
      → Noted b (unknown_tokens tokens ds us)
  unfolding unknown_tokens
  unknown_tokens_keeps [] b us h = h
  unknown_tokens_keeps (d ∷ ds) b us h =
      unknown_tokens_keeps ds b _ (note_token_keeps d.token1 b _ (note_token_keeps d.token0 b us h))

  -- The address of a token is empty, listed or noted.
  abbrev pub IsCovered : List Text → Option Text → Type 0
  IsCovered us o =
      (a : Text)
      → o ≡ some a
      → is_empty a ≡ false
      → token_by_address tokens (some a) ≡ none
      → Noted a us

  note_token-Noted : (o : Option Text) (us : List Text) → IsCovered (note_token tokens o us) o
  note_token-Noted o us a e full k = rw (e, full, k) (set_unknown-Noted a us)

  pub unknown_tokens-IsCovered :
      (ds : List PairRead) (us : List Text)
      → All
          (λ d.
            IsCovered (unknown_tokens tokens ds us) d.token0
            × IsCovered (unknown_tokens tokens ds us) d.token1)
          ds
  unfolding unknown_tokens
  unknown_tokens-IsCovered [] us = tt
  unknown_tokens-IsCovered (d ∷ ds) us =
      let first = note_token tokens d.token0 us in
      let both = note_token tokens d.token1 first in
      (
        (
          λ a e full k.
              unknown_tokens_keeps ds a both
                (note_token_keeps d.token1 a first (note_token-Noted d.token0 us a e full k)),
          λ a e full k. unknown_tokens_keeps ds a both (note_token-Noted d.token1 first a e full k),
        ),
        unknown_tokens-IsCovered ds both,
      )

  module _ (P : Text → Type 0) where
    set_unknown-All : (a : Text) (us : List Text) → P a → All P us → All P (set_unknown a us)
    set_unknown-All a [] p h = (p, tt)
    set_unknown-All a (u ∷ us) p (q, h) = elim (Bool-cases (same_key a u)) [
      | inl e ↦ rw e (p, h)
      | inr e ↦ rw e (q, set_unknown-All a us p h)
    ]

    note_token-All :
        (o : Option Text) (us : List Text)
        → ((a : Text) → o ≡ some a → P a)
        → All P us
        → All P (note_token tokens o us)
    note_token-All none us p h = h
    note_token-All (some a) us p h = elim (Bool-cases (is_empty a)) [
      | inl e ↦ rw e h
      | inr e ↦ elim (Option-cases (token_by_address tokens (some a))) [
        | inl k ↦ rw (e, k) (set_unknown-All a us (p a refl) h)
        | inr (t, k) ↦ rw (e, k) h
      ]
    ]

    pub unknown_tokens-All :
        (ds : List PairRead) (us : List Text)
        → All
            (λ d. ((a : Text) → d.token0 ≡ some a → P a) × ((a : Text) → d.token1 ≡ some a → P a))
            ds
        → All P us
        → All P (unknown_tokens tokens ds us)
    unfolding unknown_tokens
    unknown_tokens-All [] us p h = h
    unknown_tokens-All (d ∷ ds) us ((p0, p1), p) h =
        unknown_tokens-All ds _ p (note_token-All d.token1 _ p1 (note_token-All d.token0 us p0 h))

-- Where one spelling of an address is used throughout, a noted token finds its own reads.
pub read_of-Noted :
    (f : Text → TokenRead) (a : Text) (us : List Text)
    → All (λ u. lower u ≡ lower a → u ≡ a) us
    → Noted a us
    → read_of a us (map f us) ≡ f a
unfolding read_of
read_of-Noted f a [] s h = cc
read_of-Noted f a (u ∷ us) (same, s) h = elim (Bool-cases (same_key a u)) [
  | inl e ↦ rw e (ap f (same (text_eq→eq _ _ e)))
  | inr e ↦ rw e (read_of-Noted f a us s (rw e at h))
]
