-- ===== src/Prelude/Decimal.antt =====
-- The decimal text of a natural number, plain and in groups of three, and its value.
use Prim.Native.Nat.{ℕ, zero, suc, ◌+◌, ◌-◌, ◌*◌, ◌/◌, ◌%◌, ◌≤◌, ◌<◌}
use mathlib.Core.Path.{◌≡◌, refl}
use mathlib.Core.Logic.{inl, inr}
use mathlib.Core.Bool.{Bool, true, false, ◌&&◌, ◌||◌}
use mathlib.Core.List.{[], ◌∷◌, ◌++◌}
use native.Mathlib.Omega.{arith}
use ark_swap.Prelude.Tests.{ltb, leb, ◌==◌, Bool-cases}
use ark_swap.Prelude.Texts.{Text, is_empty}
use ark_swap.Prelude.Lists.{All, All-append, All-mono}

abbrev pub is_digit : ℕ → Bool
is_digit c = leb b'0' c && leb c b'9'

digits : (fuel n : ℕ) → Text
digits zero n = []
digits (suc fuel) n = elim (ltb n 10) [
  | true ↦ (b'0' + n) ∷ []
  | false ↦ digits fuel (n / 10) ++ ((b'0' + n % 10) ∷ [])
]

-- `n.toString()`: a number has no more digits than its successor.
unfoldable pub decimal : ℕ → Text
unfolding digits
decimal n = digits (suc n) n

three_digits : ℕ → Text
three_digits n = (b'0' + n / 100) ∷ (b'0' + n / 10 % 10) ∷ (b'0' + n % 10) ∷ []

groups : (fuel n : ℕ) → Text
groups zero n = []
groups (suc fuel) n = elim (ltb n 1_000) [
  | true ↦ decimal n
  | false ↦ groups fuel (n / 1_000) ++ (b',' ∷ three_digits (n % 1_000))
]

-- `n.toLocaleString('en-US')`.
unfoldable pub grouped : ℕ → Text
unfolding groups three_digits
grouped n = groups (suc n) n

-- The value of digits that follow those of `acc`.
abbrev pub value_from : ℕ → Text → ℕ
value_from acc [] = acc
value_from acc (c ∷ s) = value_from (acc * 10 + (c - b'0')) s

value_from-append :
    (acc : ℕ) (s : Text) (c : ℕ)
    → value_from acc (s ++ (c ∷ [])) ≡ value_from acc s * 10 + (c - b'0')
value_from-append acc [] c = refl
value_from-append acc (d ∷ s) c = value_from-append (acc * 10 + (d - b'0')) s c

value_from-digits : (fuel n : ℕ) → n < fuel → value_from 0 (digits fuel n) ≡ n
unfolding digits
value_from-digits zero n h = absurd (omega arith)
value_from-digits (suc fuel) n h = ground (
  arith,
  value_from-append 0 (digits fuel (n / 10)) (b'0' + n % 10),
  value_from-digits fuel (n / 10),
)

-- The text of a number has its value.
pub value_from-decimal : (n : ℕ) → value_from 0 (decimal n) ≡ n
unfolding decimal
value_from-decimal n = value_from-digits (suc n) n (omega arith)

abbrev pub IsDigit : ℕ → Type 0
IsDigit c = is_digit c ≡ true

digits-IsDigit : (fuel n : ℕ) → All IsDigit (digits fuel n)
unfolding digits
digits-IsDigit zero n = tt
digits-IsDigit (suc fuel) n = elim (Bool-cases (ltb n 10)) [
  | inl e ↦ rw (e, digits) (ground arith, tt)
  | inr e ↦
      let last : is_digit (b'0' + n % 10) ≡ true = ground arith in
      rw (e, digits)
        (All-append IsDigit (digits fuel (n / 10)) _ (digits-IsDigit fuel (n / 10)) (last, tt))
]

pub decimal-IsDigit : (n : ℕ) → All IsDigit (decimal n)
unfolding decimal
decimal-IsDigit n = digits-IsDigit (suc n) n

-- A group of three digits is printed as such.
IsGrouped : ℕ → Type 0
IsGrouped c = (is_digit c || c == b',') ≡ true

three_digits-IsDigit : (n : ℕ) → n < 1_000 → All IsDigit (three_digits n)
unfolding three_digits
three_digits-IsDigit n h = (ground arith, (ground arith, (ground arith, tt)))

groups-IsGrouped : (fuel n : ℕ) → All IsGrouped (groups fuel n)
unfolding groups IsGrouped
groups-IsGrouped zero n = tt
groups-IsGrouped (suc fuel) n = elim (Bool-cases (ltb n 1_000)) [
  | inl e ↦ rw (e, groups) (All-mono IsGrouped single (decimal n) (decimal-IsDigit n))
  | inr e ↦
      let tail =
        All-mono IsGrouped single (three_digits (n % 1_000))
          (three_digits-IsDigit (n % 1_000) (omega arith)) in
      rw (e, groups)
        (All-append IsGrouped (groups fuel (n / 1_000)) _ (groups-IsGrouped fuel (n / 1_000))
          (refl, tail))
]
  where
    single : (c : ℕ) → IsDigit c → IsGrouped c
    single c h = ground arith

pub grouped-IsGrouped : (n : ℕ) → All (λ c. (is_digit c || c == b',') ≡ true) (grouped n)
unfolding grouped IsGrouped
grouped-IsGrouped n = groups-IsGrouped (suc n) n

-- Below a thousand there is one group.
pub grouped_small : (n : ℕ) → n < 1_000 → grouped n ≡ decimal n
unfolding grouped
grouped_small n h = let e : ltb n 1_000 ≡ true = ground arith in rw (groups, e) refl

-- From a thousand on a comma parts the last group.
pub grouped_large :
    (n : ℕ) → 1_000 ≤ n → (high : Text) × (low : Text) × (grouped n ≡ high ++ (b',' ∷ low))
unfolding grouped
grouped_large n h =
    let e : ltb n 1_000 ≡ false = ground arith in
    (groups n (n / 1_000), three_digits (n % 1_000), rw (groups, e) refl)

-- There is a first digit.
pub decimal-cons : (n : ℕ) (rest : Text) → is_empty (decimal n ++ rest) ≡ false
unfolding decimal digits
decimal-cons n rest = elim (Bool-cases (ltb n 10)) [
  | inl e ↦ rw (digits, e) refl
  | inr e ↦ rw (digits, e) (middle (digits n (n / 10)))
]
  where
    middle : (s : Text) → is_empty ((s ++ ((b'0' + n % 10) ∷ [])) ++ rest) ≡ false
    middle [] = refl
    middle (c ∷ s) = refl
