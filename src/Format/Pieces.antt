-- ===== src/Format/Pieces.antt =====
-- The pieces of an amount's text: digits, and a fraction behind a dot.
use ark_swap.Prelude.{
  ℕ, ◌≤◌, ◌≡◌, refl, true, false, [], ◌∷◌, ◌++◌, Text, All, arith, all, ◌==◌, if◌then◌else◌, length,
  take, is_empty, is_space, ap, sym, not, zero, suc, All-mono,
}
use ark_swap.Prelude.Decimal.{is_digit, IsDigit}
use mathlib.Core.List.{append-nil}
use ark_swap.Format.{is_amount, until_dot, past_dot}

all_comma : (high low : Text) → all is_digit (high ++ (b',' ∷ low)) ≡ false
all_comma [] low = refl
all_comma (c ∷ high) low = ground (arith, all_comma high low)

-- Text with a comma is no amount.
pub is_amount_comma : (high low : Text) → is_amount (high ++ (b',' ∷ low)) ≡ false
unfolding is_amount
is_amount_comma [] low = refl
is_amount_comma (c ∷ high) low = ground (arith, all_comma high low, is_amount_comma high low)

until_dot-digits : (s rest : Text) → All IsDigit s → until_dot (s ++ (b'.' ∷ rest)) ≡ s
unfolding until_dot
until_dot-digits [] rest h = refl
until_dot-digits (c ∷ s) rest (d, ds) =
    let other : (c == b'.') ≡ false = ground arith in rw (other, until_dot-digits s rest ds) refl

abbrev pub point : Text → Text
point [] = []
point (c ∷ f) = b'.' ∷ c ∷ f

pub take_all : (n : ℕ) (s : Text) → length s ≤ n → take n s ≡ s
take_all zero [] h = refl
take_all (suc n) [] h = refl
take_all (suc n) (c ∷ s) h = ap (◌∷◌ c) (take_all n s (omega arith))
take_all zero (c ∷ s) h = absurd (omega arith)

pub until_dot-point : (s f : Text) → All IsDigit s → until_dot (s ++ point f) ≡ s
unfolding until_dot
until_dot-point [] [] h = refl
until_dot-point (c ∷ s) [] (d, ds) =
    let other : (c == b'.') ≡ false = ground arith in rw (other, until_dot-point s [] ds) refl
until_dot-point s (c ∷ f) h = until_dot-digits s (c ∷ f) h

pub past_dot-point : (s f : Text) → All IsDigit s → past_dot (s ++ point f) ≡ f
unfolding past_dot
past_dot-point [] [] h = refl
past_dot-point [] (c ∷ f) h = refl
past_dot-point (c ∷ s) f (d, ds) =
    let other : (c == b'.') ≡ false = ground arith in rw (other) (past_dot-point s f ds)

all_digit-IsDigit : (s : Text) → All IsDigit s → all is_digit s ≡ true
all_digit-IsDigit [] h = refl
all_digit-IsDigit (c ∷ s) (d, ds) = rw (all, d) (all_digit-IsDigit s ds)

-- Digits with a fraction of digits are an amount.
pub is_amount-point : (s f : Text) → All IsDigit s → All IsDigit f → is_amount (s ++ point f) ≡ true
unfolding is_amount
is_amount-point [] [] hs hf = refl
is_amount-point [] (c ∷ f) hs hf = all_digit-IsDigit (c ∷ f) hf
is_amount-point (c ∷ s) f (d, ds) hf = rw (is_amount, d) (is_amount-point s f ds hf)

pub until_dot_digits : (s : Text) → All IsDigit s → until_dot s ≡ s
unfolding until_dot
until_dot_digits [] h = refl
until_dot_digits (c ∷ s) (d, ds) =
    let other : (c == b'.') ≡ false = ground arith in rw (other, until_dot_digits s ds) refl

pub point-NoSpace : (f : Text) → All IsDigit f → All (λ c. is_space c ≡ false) (point f)
point-NoSpace [] h = tt
point-NoSpace (c ∷ f) h = (refl, All-mono (λ x. is_space x ≡ false) (λ x d. ground arith) (c ∷ f) h)

pub joined-point :
    (whole f : Text) → (if not (is_empty f) then whole ++ (b'.' ∷ f) else whole) ≡ whole ++ point f
joined-point whole [] = sym (append-nil whole)
joined-point whole (c ∷ f) = refl
