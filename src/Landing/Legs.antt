-- ===== src/Landing/Legs.antt =====
-- Where the amounts in the list of recent trades come from.
use ark_swap.Prelude.{
  ℕ, ◌≡◌, refl, ◌≢◌, Option, none, some, List, ◌∷◌, ◌++◌, Text, lower, is_empty, find-eq-some,
  Bool-cases, Option-cases, inl, inr,
}
use ark_swap.Prelude.Int.{ℤ}
use ark_swap.Tokens.{Token, token_by_address, address_is}
use ark_swap.Format.{format_signed}
use ark_swap.Landing.{dash, leg_token, leg_amount, leg}

module _ (format_units : ℕ → ℕ → Text) (big_int : Text → Option ℤ) (tokens : List Token) where
  shown :
      (o : Option Token) (amount : Option Text)
      → leg_amount format_units big_int tokens o amount ≢ dash
      → (t : Token) × (n : ℤ) × (o ≡ some t)
        × (leg_amount format_units big_int tokens o amount
            ≡ format_signed format_units n t.decimals 4)
  shown none amount h = absurd (h refl)
  shown (some t) none h = absurd (h refl)
  shown (some t) (some a) h = elim (Bool-cases (is_empty a)) [
    | inl e ↦ absurd (h (rw e refl))
    | inr e ↦ elim (Option-cases (big_int a)) [
      | inl f ↦ absurd (h (rw (e, f) refl))
      | inr (n, f) ↦ (t, n, refl, rw (e, f) refl)
    ]
  ]

  listed :
      (address : Option Text) {t : Token}
      → leg_token format_units big_int tokens address ≡ some t
      → (before : List Token) × (after : List Token) × (tokens ≡ before ++ t ∷ after)
  unfolding token_by_address
  listed none e = cc
  listed (some a) {t} e = elim (Bool-cases (is_empty a)) [
    | inl b ↦ absurd (none≢some (rw b at e))
    | inr b ↦
        let (before, after, split, fails, here) =
          find-eq-some (address_is (lower a)) tokens (rw b at e) in
        (before, after, split)
  ]
    where
      none≢some : ¬ (none ≡ some t)
      none≢some k = cc

  -- An amount that is shown is that of a listed token, written with the decimals of the list.
  pub leg-listed :
      (address symbol amount : Option Text)
      → (leg format_units big_int tokens address symbol amount).amount ≢ dash
      → (t : Token) × (n : ℤ) × ((before : List Token) × (after : List Token) × (tokens
            ≡ before ++ t ∷ after))
        × ((leg format_units big_int tokens address symbol amount).amount
            ≡ format_signed format_units n t.decimals 4)
  unfolding leg
  leg-listed address symbol amount h =
      let (t, n, known, same) = shown (leg_token format_units big_int tokens address) amount h in
      (t, n, listed address known, same)
