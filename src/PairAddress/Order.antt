-- ===== src/PairAddress/Order.antt =====
-- Sorting by the lower-case text is sorting by the number that the address is, which
-- packages/contracts/contracts/periphery/libraries/ArkSwapLibrary.sol sorts by.
use native.Mathlib.Nat.{mul-le-mul_right, pow-suc}
use ark_swap.Prelude.{
  ℕ, ◌+◌, ◌-◌, ◌*◌, ◌^◌, ◌<◌, ◌≡◌, true, ◌&&◌, ◌||◌, [], ◌∷◌, Text, text_lt, refl, arith, ltb, leb,
  if◌then◌else◌, length, All,
}

-- The value of a lower-case hexadecimal digit.
pub digit : ℕ → ℕ
digit c = if leb b'a' c then c - 87 else c - 48

abbrev pub IsLowerHex : ℕ → Type 0
IsLowerHex c = (leb b'0' c && leb c b'9' || leb b'a' c && leb c b'f') ≡ true

pub hex_value : Text → ℕ
hex_value [] = 0
hex_value (c ∷ s) = digit c * 16 ^ length s + hex_value s

digit-lt : (c : ℕ) → IsLowerHex c → digit c < 16
unfolding digit
digit-lt c h = ground arith

digit_mono : (a b : ℕ) → IsLowerHex a → IsLowerHex b → ltb (digit a) (digit b) ≡ ltb a b
unfolding digit
digit_mono a b h k = ground arith

hex_value-lt : (s : Text) → All IsLowerHex s → hex_value s < 16 ^ length s
unfolding hex_value
hex_value-lt [] h = omega arith
hex_value-lt (c ∷ s) (e, h) =
    let rest = hex_value-lt s h in
    let top = mul-le-mul_right (16 ^ length s) (digit-lt c e) in
    rw pow-suc (omega (arith, rest, top))

-- The comparison of two numbers by their leading digits.
lead_lt : (a b p x y : ℕ) → x < p → y < p → a < b → a * p + x < b * p + y
lead_lt a b p x y hx hy h = let k = mul-le-mul_right p h in omega arith

-- Texts of one length compare as the numbers that they write.
pub text_lt-eq-value :
    (s t : Text)
    → All IsLowerHex s
    → All IsLowerHex t
    → length s ≡ length t
    → text_lt s t ≡ ltb (hex_value s) (hex_value t)
unfolding text_lt hex_value
text_lt-eq-value [] [] h k e = refl
text_lt-eq-value [] (b ∷ t) h k e = absurd (omega arith)
text_lt-eq-value (a ∷ s) [] h k e = absurd (omega arith)
text_lt-eq-value (a ∷ s) (b ∷ t) (ha, h) (kb, k) e =
    let same : length s ≡ length t = omega arith in
    let x : hex_value s < 16 ^ length t = rw (← same) (hex_value-lt s h) in
    let y = hex_value-lt t k in
    rw same (
      ground (
        arith,
        text_lt-eq-value s t h k same,
        digit_mono a b ha kb,
        digit_mono b a kb ha,
        λ (q : digit a < digit b). lead_lt (digit a) (digit b) (16 ^ length t) _ _ x y q,
        λ (q : digit b < digit a). lead_lt (digit b) (digit a) (16 ^ length t) _ _ y x q,
      ))
