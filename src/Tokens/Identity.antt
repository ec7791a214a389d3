-- ===== src/Tokens/Identity.antt =====
-- When two tokens are the same (apps/web/src/config/tokens.ts).
use ark_swap.Prelude.{
  ◌≡◌, refl, true, false, some, [], ◌∷◌, Text, text_eq, text_eq_comm, lower, arith, Option-cases,
  inl, inr,
}
use ark_swap.Tokens.{Token, token_key, same_token, is_hex_address}

-- Native KASH is told apart from every token with an address, WKASH included.
pub same_token_native :
    (a b : Token) (x : Text)
    → a.is_native ≡ true
    → b.is_native ≡ false
    → b.address ≡ some x
    → is_hex_address x ≡ true
    → (same_token a b ≡ some false) × (same_token b a ≡ some false)
unfolding same_token is_hex_address text_eq lower
same_token_native a b [] ha hb e h = cc
same_token_native a b (z ∷ []) ha hb e h = cc
same_token_native a b (z ∷ y ∷ s) ha hb e h = ground arith

-- Two tokens with addresses are the same exactly when the addresses agree up to case.
pub same_token_address :
    (a b : Token) (x y : Text)
    → a.is_native ≡ false
    → b.is_native ≡ false
    → a.address ≡ some x
    → b.address ≡ some y
    → same_token a b ≡ some (text_eq (lower x) (lower y))
unfolding same_token
same_token_address a b x y ha hb ex ey = ground arith

-- Whether two tokens are the same does not depend on their order.
pub same_token_comm : (a b : Token) → same_token a b ≡ same_token b a
unfolding same_token
same_token_comm a b = elim (Option-cases (token_key a)) [
  | inl ea ↦ elim (Option-cases (token_key b)) [
    | inl eb ↦ rw (ea, eb) refl
    | inr (y, eb) ↦ rw (ea, eb) refl
  ]
  | inr (x, ea) ↦ elim (Option-cases (token_key b)) [
    | inl eb ↦ rw (ea, eb) refl
    | inr (y, eb) ↦ rw (ea, eb, text_eq_comm x y) refl
  ]
]
