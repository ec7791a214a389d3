-- ===== src/Settings.antt =====
-- apps/web/src/state/settings.tsx, its controls in
-- apps/web/src/components/{SlippageControl,SettingsPopover}.tsx, apps/web/src/lib/storage.ts, and
-- deadlineFromNow of packages/sdk/amm.ts. Storage, the clock, `JSON.parse`, `BigInt` and `Number` are
-- arguments; a number is the exact value of a double.
pub mod Range
pub mod Doubles
pub mod Deadline
pub mod Protection
use ark_swap.Prelude.{
  ℕ, suc, ◌+◌, ◌-◌, ◌*◌, ◌/◌, ◌%◌, Bool, true, false, not, ◌&&◌, Option, none, some, List, [], ◌∷◌,
  Text, is_empty, leb, ltb, ◌==◌, if◌then◌else◌, option_map,
}
use ark_swap.Prelude.Int.{ℤ, pos, negsuc, sub_ℕ}
use ark_swap.Settings.Doubles.{round_double, whole}
use ark_swap.Analytics.{Number, not_finite, ratio}

-- What asking storage for an entry gives.
pub data StorageRead : Type 0 where
  no_window : StorageRead
  unavailable : StorageRead
  item : Option Text → StorageRead

-- `readJson`; `parse` gives `none` where `JSON.parse` throws.
unfoldable pub read_json {ℓ} : {A : Type ℓ} → (Text → Option A) → StorageRead → A → A
read_json parse no_window fallback = fallback
read_json parse unavailable fallback = fallback
read_json parse (item none) fallback = fallback
read_json parse (item (some raw)) fallback =
    if is_empty raw then fallback else elim (parse raw) [ none ↦ fallback | some a ↦ a ]

-- `readString`.
abbrev pub read_string : StorageRead → Option Text
read_string no_window = none
read_string unavailable = none
read_string (item raw) = raw

pub record Settings : Type 0 where
  pub slippage_bps : ℤ
  pub deadline_minutes : Number
  pub fee_on_transfer : Bool

-- A whole number.
abbrev pub minutes : ℕ → Number
minutes n = ratio (pos n) 0

abbrev pub default_slippage : ℤ
default_slippage = pos 50

abbrev pub default_deadline : Number
default_deadline = minutes 20

abbrev pub default_settings : Settings
default_settings = record {
  slippage_bps = default_slippage;
  deadline_minutes = default_deadline;
  fee_on_transfer = false;
}

-- A JSON value, or `undefined`; the only number that is not finite is an overflowing literal.
pub data Json : Type 0 where
  undefined : Json
  null : Json
  boolean : Bool → Json
  numeric : Number → Json
  string : Text → Json
  composite : Json

-- `Boolean(value)`.
abbrev pub truth : Json → Bool
truth undefined = false
truth null = false
truth (boolean b) = b
truth (numeric not_finite) = true
truth (numeric (ratio (pos n) den)) = not (n == 0)
truth (numeric (ratio (negsuc n) den)) = true
truth (string s) = not (is_empty s)
truth composite = true

-- The entry's fields; an entry that is no object has none of them.
pub record Entry : Type 0 where
  pub slippage_bps : Json
  pub deadline_minutes : Json
  pub fee_on_transfer : Json

-- `bps > 0n && bps <= 5000n`.
abbrev pub slippage_ok : ℤ → Bool
slippage_ok (pos n) = ltb 0 n && leb n 5_000
slippage_ok (negsuc n) = false

-- `Number.isFinite(m) && m > 0 && m <= 180`.
abbrev pub deadline_ok : Number → Bool
deadline_ok not_finite = false
deadline_ok (ratio (negsuc n) den) = false
deadline_ok (ratio (pos n) den) = ltb 0 n && leb n (180 * suc den)

abbrev pub kept_slippage : ℤ → ℤ
kept_slippage bps = if slippage_ok bps then bps else default_slippage

abbrev pub kept_deadline : Json → Number
kept_deadline (numeric m) = if deadline_ok m then m else default_deadline
kept_deadline undefined = default_deadline
kept_deadline null = default_deadline
kept_deadline (boolean b) = default_deadline
kept_deadline (string s) = default_deadline
kept_deadline composite = default_deadline

-- What the first effect makes of the entry that it reads, which is `none` when it is not truthy. `big_int`
-- gives `none` where `BigInt` throws.
unfoldable pub hydrate : (Json → Option ℤ) → Option Entry → Settings → Settings
hydrate big_int none s = s
hydrate big_int (some e) s = elim (big_int e.slippage_bps) [
  | none ↦ s
  | some bps ↦ record {
    slippage_bps = kept_slippage bps;
    deadline_minutes = kept_deadline e.deadline_minutes;
    fee_on_transfer = truth e.fee_on_transfer;
  }
]

-- What the second effect stores, where `to_text` is `toString`.
unfoldable pub stored : (ℤ → Text) → Settings → Entry
stored to_text s = record {
  slippage_bps = string (to_text s.slippage_bps);
  deadline_minutes = numeric s.deadline_minutes;
  fee_on_transfer = boolean s.fee_on_transfer;
}

abbrev pub set_slippage_bps : ℤ → Settings → Settings
set_slippage_bps bps s = record s { slippage_bps = bps }

abbrev pub set_deadline_minutes : Number → Settings → Settings
set_deadline_minutes m s = record s { deadline_minutes = m }

abbrev pub set_fee_on_transfer : Bool → Settings → Settings
set_fee_on_transfer on s = record s { fee_on_transfer = on }

abbrev pub reset : Settings → Settings
reset s = default_settings

abbrev pub int_eq : ℤ → ℤ → Bool
int_eq (pos a) (pos b) = a == b
int_eq (negsuc a) (negsuc b) = a == b
int_eq (pos a) (negsuc b) = false
int_eq (negsuc a) (pos b) = false

-- `=== n`, of a whole number.
abbrev pub is_number : Number → ℕ → Bool
is_number not_finite n = false
is_number (ratio (negsuc a) den) n = false
is_number (ratio (pos a) den) n = a == n * suc den

abbrev pub is_default : Settings → Bool
is_default s =
    int_eq s.slippage_bps default_slippage
    && is_number s.deadline_minutes 20
    && not s.fee_on_transfer

abbrev pub presets : List ℕ
presets = 10 ∷ 50 ∷ 100 ∷ []

-- Minus the quotient, rounded up.
abbrev pub neg_ceil : ℕ → ℕ → ℤ
neg_ceil a d = let k = (a + (d - 1)) / d in if k == 0 then pos 0 else negsuc (k - 1)

-- `BigInt(Math.round(percent * 100))`, which rounds halves up.
abbrev pub percent_to_bps : ℤ → ℕ → ℤ
percent_to_bps (pos n) den = pos ((200 * n + suc den) / (2 * suc den))
percent_to_bps (negsuc n) den = neg_ceil (200 * suc n - suc den) (2 * suc den)

-- What typing a slippage does, where the text's `Number` is `parsed`.
unfoldable pub type_slippage : Number → Settings → Settings
type_slippage not_finite s = s
type_slippage (ratio num den) s =
    let bps = percent_to_bps num den in if slippage_ok bps then set_slippage_bps bps s else s

-- What typing a deadline does.
unfoldable pub type_deadline : Number → Settings → Settings
type_deadline parsed s = if deadline_ok parsed then set_deadline_minutes parsed s else s

-- `BigInt` of a number over a power of two, as the double next to it.
abbrev pub big_int_of : ℤ → ℕ → Option ℤ
big_int_of (pos n) b = option_map (λ t. pos t) (whole (round_double n b))
big_int_of (negsuc n) b = option_map (λ t. sub_ℕ 0 t) (whole (round_double (suc n) b))

-- `deadlineFromNow`, where `now` is `Date.now()` and the minutes are a double: the product and the sum are
-- rounded to doubles. `none` is the exception of `BigInt`, for a sum that is not whole.
unfoldable pub deadline_from_now : ℕ → Number → Option ℤ
deadline_from_now now not_finite = none
deadline_from_now now (ratio (pos n) den) =
    let seconds = round_double (60 * n) (suc den) in
    big_int_of (pos (now / 1_000 * seconds.1 + seconds.0)) seconds.1
deadline_from_now now (ratio (negsuc n) den) =
    let seconds = round_double (60 * suc n) (suc den) in
    big_int_of (sub_ℕ (now / 1_000 * seconds.1) seconds.0) seconds.1
