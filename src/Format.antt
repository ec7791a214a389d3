-- ===== src/Format.antt =====
-- apps/web/src/lib/format.ts and the Max button of apps/web/src/components/AmountField.tsx. `formatUnits`
-- and `parseUnits` of viem are parameters; the second gives `none` where it throws.
pub mod Pieces
pub mod Max
use ark_swap.Prelude.{
  ℕ, suc, ◌+◌, ◌*◌, ◌/◌, ◌%◌, Bool, true, false, not, ◌&&◌, ◌||◌, Option, none, some, List, [], ◌∷◌,
  ◌++◌, reverse, Text, codes, leb, ◌==◌, if◌then◌else◌, all, take, trim, is_empty,
}
use ark_swap.Prelude.Int.{ℤ, pos, negsuc}
use ark_swap.Prelude.Decimal.{is_digit, decimal, grouped, value_from}
use ark_swap.PairAddress.{slice_last}
use ark_swap.Tokens.{Token}

-- `/^\d*\.?\d*$/.test(s)`.
unfoldable pub is_amount : Text → Bool
is_amount [] = true
is_amount (c ∷ s) =
    let rest = is_amount s in if is_digit c then rest else c == b'.' && all is_digit s

-- What `split('.')` gives first, and the text after that dot.
unfoldable pub until_dot : Text → Text
until_dot [] = []
until_dot (c ∷ s) = let rest = until_dot s in if c == b'.' then [] else c ∷ rest

unfoldable pub past_dot : Text → Text
past_dot [] = []
past_dot (c ∷ s) = let rest = past_dot s in if c == b'.' then s else rest

abbrev pub drop_zeros : Text → Text
drop_zeros [] = []
drop_zeros (c ∷ s) = if c == b'0' then drop_zeros s else c ∷ s

-- `replace(/0+$/, '')`.
abbrev pub strip_zeros : Text → Text
strip_zeros s = reverse (drop_zeros (reverse s))

-- The whole part is digits, of which `BigInt` is the value.
unfoldable pub format_amount : (ℕ → ℕ → Text) → ℕ → ℕ → ℕ → Text
format_amount format_units value decimals max_fraction_digits =
    let raw = format_units value decimals in
    let trimmed = strip_zeros (take max_fraction_digits (until_dot (past_dot raw))) in
    let whole = grouped (value_from 0 (until_dot raw)) in
    if not (is_empty trimmed) then whole ++ (b'.' ∷ trimmed) else whole

-- `formatAmount` of an integer. The text of a negative number is that of its absolute value after a sign,
-- which `BigInt` drops from a whole part of zero.
abbrev pub format_signed : (ℕ → ℕ → Text) → ℤ → ℕ → ℕ → Text
format_signed format_units (pos n) decimals digits = format_amount format_units n decimals digits
format_signed format_units (negsuc n) decimals digits =
    let text = format_amount format_units (suc n) decimals digits in
    if value_from 0 (until_dot (format_units (suc n) decimals)) == 0 then text else b'-' ∷ text

abbrev pub natural : Option ℤ → Option ℕ
natural none = none
natural (some (pos n)) = some n
natural (some (negsuc n)) = none

unfoldable pub parse_amount : (Text → ℕ → Option ℤ) → Text → ℕ → Option ℕ
unfolding is_amount
parse_amount parse_units input decimals =
    let trimmed = trim input in
    if is_empty trimmed || not (is_amount trimmed)
    then none
    else natural (parse_units trimmed decimals)

-- `frac.toString().padStart(2, '0')`, of less than a hundred.
abbrev pub padded : ℕ → Text
padded n = if leb 10 n then decimal n else b'0' ∷ decimal n

unfoldable pub format_bps : ℕ → Text
format_bps bps =
    if bps % 100 == 0
    then decimal (bps / 100) ++ codes "%"
    else decimal (bps / 100) ++ (b'.' ∷ padded (bps % 100)) ++ codes "%"

abbrev pub shorten_address : Text → Text
shorten_address address = take 6 address ++ codes "…" ++ slice_last 4 address

-- What a click on Max fills in: all but a hundredth of native KASH, and all of a token.
abbrev pub max_fill : Token → ℕ → ℕ
max_fill token balance = if token.is_native then (balance * 99) / 100 else balance

-- The text that the click gives to the field.
unfoldable pub max_text : (ℕ → ℕ → Text) → Token → ℕ → Text
unfolding format_amount
max_text format_units token balance =
    format_amount format_units (max_fill token balance) token.decimals token.decimals
