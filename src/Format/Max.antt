-- ===== src/Format/Max.antt =====
-- What the form reads of the text that the Max button types.
use native.Mathlib.Decide.{dec_lt}
use ark_swap.Prelude.{
  ◌⊎◌, inl, inr, ℕ, ◌/◌, ◌^◌, ◌≤◌, ◌<◌, ◌≡◌, refl, true, false, none, some, Bool, ◌∷◌, ◌++◌, Text,
  All, arith, if◌then◌else◌, length, is_empty, is_space, sym, Option, refl, ◌||◌, trim, trim_id,
  All-append, All-mono,
}
use ark_swap.Prelude.Decimal.{
  decimal, grouped, IsDigit, value_from-decimal, decimal-IsDigit, grouped-IsGrouped, grouped_small,
  grouped_large, decimal-cons,
}
use mathlib.Core.List.{append_assoc}
use ark_swap.Prelude.Int.{ℤ, pos}
use ark_swap.Tokens.{Token}
use ark_swap.Format.{
  max_fill, natural, is_amount, strip_zeros, format_amount, parse_amount, max_text,
}
use ark_swap.Format.Pieces.{
  is_amount_comma, point, take_all, until_dot-point, past_dot-point, is_amount-point,
  until_dot_digits, point-NoSpace, joined-point,
}

-- What viem documents at one amount: the whole part, a dot only before a fraction without trailing zeros,
-- and a text that is read back.
pub record PrintsUnits (format_units : ℕ → ℕ → Text) (parse_units : Text → ℕ → Option ℤ)
    (value decimals : ℕ) : Type 0 where
  pub fraction : Text
  pub printed : format_units value decimals ≡ decimal (value / 10 ^ decimals) ++ point fraction
  pub digits : All IsDigit fraction
  pub stripped : strip_zeros fraction ≡ fraction
  pub short : length fraction ≤ decimals
  pub read : parse_units (format_units value decimals) decimals ≡ some (pos value)

module _ (fu : ℕ → ℕ → Text) (pu : Text → ℕ → Option ℤ) (v d : ℕ)
    (law : PrintsUnits fu pu v d) where
  abbrev shown : Text
  shown = grouped (v / 10 ^ d) ++ point law.fraction

  -- The text has the grouped whole part and the fraction.
  format_amount-point : format_amount fu v d d ≡ shown
  unfolding format_amount
  format_amount-point =
      let whole = decimal-IsDigit (v / 10 ^ d) in
      rw
        (
          law.printed,
          until_dot-point _ law.fraction whole,
          past_dot-point _ law.fraction whole,
          value_from-decimal,
          until_dot_digits law.fraction law.digits,
          take_all d law.fraction law.short,
          law.stripped,
        )
        (joined-point _ law.fraction)

  trim-shown : trim shown ≡ shown
  trim-shown = trim_id shown (
      All-append (λ c. is_space c ≡ false) _ _
        (All-mono (λ c. is_space c ≡ false) (λ c k. ground arith) _
          (grouped-IsGrouped (v / 10 ^ d)))
        (point-NoSpace law.fraction law.digits))

  parse_amount-small : v / 10 ^ d < 1_000 → parse_amount pu (format_amount fu v d d) d ≡ some v
  unfolding parse_amount
  parse_amount-small h =
      let same : shown ≡ fu v d = rw (grouped_small (v / 10 ^ d) h) (sym law.printed) in
      let full : is_empty shown ≡ false = rw (grouped_small (v / 10 ^ d) h) (decimal-cons _ _) in
      let amount : is_amount shown ≡ true =
        rw (grouped_small (v / 10 ^ d) h) (is_amount-point _ _ (decimal-IsDigit _) law.digits) in
      rw (format_amount-point, trim-shown, full, amount, same, law.read) refl

  parse_amount-large : 1_000 ≤ v / 10 ^ d → parse_amount pu (format_amount fu v d d) d ≡ none
  unfolding parse_amount
  parse_amount-large h =
      let (high, low, e) = grouped_large (v / 10 ^ d) h in
      let refused : is_amount shown ≡ false =
        rw (e, append_assoc high (b',' ∷ low) _) (is_amount_comma high _) in
      rw (format_amount-point, trim-shown, refused) (either (is_empty shown))
    where
      either : (b : Bool) → (if b || true then none else natural (pu shown d)) ≡ none
      either true = refl
      either false = refl

-- What Max types of an amount whose whole part is below a thousand is read as that amount; from a thousand
-- on the text has a comma and is read as no amount at all. The amount is all of a token, and all but a
-- hundredth of native KASH; viem prints and reads it as documented.
pub max_text-parse_amount :
    (format_units : ℕ → ℕ → Text) (parse_units : Text → ℕ → Option ℤ) (token : Token) (balance : ℕ)
    → PrintsUnits format_units parse_units (max_fill token balance) token.decimals
    → ((max_fill token balance / 10 ^ token.decimals < 1_000)
        × (parse_amount parse_units (max_text format_units token balance) token.decimals
            ≡ some (max_fill token balance)))
      ⊎ ((1_000 ≤ max_fill token balance / 10 ^ token.decimals)
          × (parse_amount parse_units (max_text format_units token balance) token.decimals ≡ none))
unfolding max_text
max_text-parse_amount format_units parse_units token balance law =
    elim (dec_lt (max_fill token balance / 10 ^ token.decimals) 1_000) [
      | yes h ↦ inl (h, parse_amount-small format_units parse_units _ token.decimals law h)
      | no h ↦
          let large : 1_000 ≤ max_fill token balance / 10 ^ token.decimals = omega (arith, h) in
          inr (large, parse_amount-large format_units parse_units _ token.decimals law large)
    ]
