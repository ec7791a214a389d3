-- ===== src/Tokens/Resolve.antt =====
-- Tokens named in a URL or a search (apps/web/src/config/tokens.ts).
use mathlib.Core.Bool.{false≢true, and-eq-true_iff}
use ark_swap.Prelude.{
  ◌≡◌, refl, true, false, some, List, [], ◌∷◌, ◌++◌, Text, text_eq_refl, lower, lower_idem,
  lower-is_empty, text_eq→eq, Option-cases, trim, trim_id, is_space, all, arith, All, find,
  find_first, find-eq-some, is_empty, inl, inr,
}
use ark_swap.Tokens.{
  Token, token_by_address, address_is, symbol_is, resolve_token, token_param, is_hex_address,
  is_hex_digit,
}

-- A lookup by address is blind to case.
pub token_by_address-lower :
    (tokens : List Token) (a : Text)
    → token_by_address tokens (some (lower a)) ≡ token_by_address tokens (some a)
unfolding token_by_address
token_by_address-lower tokens a = simp (lower-is_empty, lower_idem)

-- What a lookup finds is listed with the address, and nothing before it in the list is.
pub token_by_address_first :
    (tokens : List Token) (a : Text) {t : Token}
    → token_by_address tokens (some a) ≡ some t
    → (before : List Token) × (after : List Token) × (x : Text) × (tokens ≡ before ++ t ∷ after)
      × All (λ u. address_is (lower a) u ≡ false) before
      × (t.address ≡ some x)
      × (lower x ≡ lower a)
unfolding token_by_address
token_by_address_first tokens a {t} h =
    let found : find (address_is (lower a)) tokens ≡ some t = ground arith in
    let (before, after, split, none_before, here) = find-eq-some _ tokens found in
    let (x, e, same) = address_of t (lower a) here in
    (before, after, x, split, none_before, e, same)
  where
    address_of :
        (u : Token) (b : Text)
        → address_is b u ≡ true
        → (x : Text) × (u.address ≡ some x) × (lower x ≡ b)
    address_of u b e = elim (Option-cases u.address) [
      | inl missing ↦ absurd (false≢true (rw missing at e))
      | inr (x, listed) ↦ (x, listed, text_eq→eq _ _ (rw listed at e))
    ]

-- A listed token is found again under the name that a URL gives it: its symbol, when that is free of
-- surrounding space, is no address and is shared with no token before it.
pub resolve_token-token_param :
    (to_lower : Text → Text) (before after : List Token) (t : Token)
    → t.is_imported ≡ false
    → is_empty t.symbol ≡ false
    → trim t.symbol ≡ t.symbol
    → is_hex_address t.symbol ≡ false
    → All (λ u. symbol_is to_lower (to_lower t.symbol) u ≡ false) before
    → resolve_token to_lower (before ++ t ∷ after) (some (token_param t)) ≡ some t
unfolding resolve_token token_param
resolve_token-token_param to_lower before after t listed named trimmed symbol unique =
    let param : token_param t ≡ t.symbol = ground arith in
    rw (param, trimmed, named, symbol) (find_first _ before t after unique (text_eq_refl _))

hex_digits-no_space : (s : Text) → all is_hex_digit s ≡ true → All (λ c. is_space c ≡ false) s
hex_digits-no_space [] h = tt
hex_digits-no_space (c ∷ s) h =
    let (digit, digits) = (and-eq-true_iff (is_hex_digit c) (all is_hex_digit s)).0 h in
    (ground arith, hex_digits-no_space s digits)

-- An address is not empty and has no space to trim.
pub is_hex_address-trim : (a : Text) → is_hex_address a ≡ true → (is_empty a ≡ false) × (trim a ≡ a)
unfolding is_hex_address
is_hex_address-trim [] h = cc
is_hex_address-trim (z ∷ []) h = cc
is_hex_address-trim (z ∷ x ∷ s) h =
    (refl, trim_id (z ∷ x ∷ s) (ground arith, (ground arith, hex_digits-no_space s (ground arith))))

-- An imported token is found again under its address, whatever its symbol, when no token before it has
-- that address.
pub resolve_token-token_param_imported :
    (to_lower : Text → Text) (before after : List Token) (t : Token) (a : Text)
    → t.is_native ≡ false
    → t.is_imported ≡ true
    → t.address ≡ some a
    → is_hex_address a ≡ true
    → All (λ u. address_is (lower a) u ≡ false) before
    → resolve_token to_lower (before ++ t ∷ after) (some (token_param t)) ≡ some t
unfolding resolve_token token_param token_by_address
resolve_token-token_param_imported to_lower before after t a native imported e hex unique =
    let (full, trimmed) = is_hex_address-trim a hex in
    let param : token_param t ≡ a = ground arith in
    rw (param, trimmed, full, hex, token_by_address)
      (find_first _ before t after unique (rw e (text_eq_refl _)))
