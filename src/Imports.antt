-- ===== src/Imports.antt =====
-- apps/web/src/state/tokens.tsx: the tokens that the user imported by address. viem's `isAddress` and
-- `getAddress` and the list of the manifest's tokens are parameters; storage is an argument.
pub mod Invariant
use ark_swap.Prelude.{
  ℕ, Bool, true, false, not, ◌&&◌, Option, none, some, List, [], ◌∷◌, ◌++◌, Text, codes, text_eq,
  lower, leb, is_empty, if◌then◌else◌, Result, ok, err, ◌>>=◌, ◌>>=?◌, filter, filter_map, any,
}
use ark_swap.Prelude.Int.{ℤ, pos, negsuc}
use ark_swap.PairAddress.{Viem, AddressError, checked}
use ark_swap.Tokens.{Token, token_by_address, address_is}

pub record Stored : Type 0 where
  pub address : Text
  pub symbol : Text
  pub name : Text
  pub decimals : ℕ

abbrev pub imported_warning : Text
imported_warning = codes "Imported by address — not reviewed by ArkSwap."

-- What a JSON value at `decimals` can be: an integer, or anything else.
pub data RawNumber : Type 0 where
  whole : ℤ → RawNumber
  other : RawNumber

-- A stored object, with `none` for a field that is no string; `none` stands for an entry that is no
-- object.
pub record RawEntry : Type 0 where
  pub address : Option Text
  pub symbol : Option Text
  pub name : Option Text
  pub decimals : RawNumber

abbrev pub valid_decimals : RawNumber → Option ℕ
valid_decimals (whole (pos n)) = if leb n 36 then some n else none
valid_decimals (whole (negsuc n)) = none
valid_decimals other = none

abbrev pub is_some_token : Option Token → Bool
is_some_token none = false
is_some_token (some t) = true

abbrev pub same_address : Text → Stored → Bool
same_address a s = text_eq (lower s.address) (lower a)

-- `removeToken`.
unfoldable pub remove_token : Text → List Stored → List Stored
remove_token a prev = filter (λ s. not (same_address a s)) prev

module _ (v : Viem) (is_address : Text → Bool) (listed : List Token) where
  -- `valid`, which gives the entry the type of its fields.
  unfoldable pub valid : RawEntry → Option Stored
  valid r = r.address >>=? λ a. r.symbol >>=? λ symbol. r.name >>=? λ name.
      valid_decimals r.decimals >>=? λ decimals.
      if not (is_address a)
      then none
      else some (record { address = a; symbol = symbol; name = name; decimals = decimals })

  abbrev pub is_listed : Stored → Bool
  is_listed s = is_some_token (token_by_address listed (some s.address))

  -- What the app takes from storage; `none` is a value that is no array.
  unfoldable pub load : Option (List (Option RawEntry)) → List Stored
  load none = []
  load (some raw) = filter (λ s. not (is_listed s)) (filter_map valid (filter_map (λ r. r) raw))

  unfoldable pub to_token : Stored → Result AddressError Token
  to_token s = do
    address ← checked v s.address
    ok (record {
      address = some address;
      symbol = s.symbol;
      name = s.name;
      decimals = s.decimals;
      is_native = false;
      is_devnet_mock = false;
      is_stable = false;
      is_wkash = false;
      is_imported = true;
      warning = some imported_warning;
    })

  unfoldable pub add_stored : Stored → List Stored → Result AddressError (List Stored)
  add_stored s prev =
      if any (same_address s.address) prev
      then ok prev
      else do address ← checked v s.address; ok (prev ++ (record s { address = address } ∷ []))

  -- `importToken`: the token that it returns and the list after it.
  unfoldable pub import_token : Stored → List Stored → Result AddressError (Token × List Stored)
  import_token s prev = elim (token_by_address listed (some s.address)) [
    | some t ↦ ok (t, prev)
    | none ↦ do next ← add_stored s prev; token ← to_token s; ok (token, next)
  ]

  unfoldable pub imported : List Stored → Result AddressError (List Token)
  imported [] = ok []
  imported (s ∷ stored) = do token ← to_token s; rest ← imported stored; ok (token ∷ rest)

  -- `tokens`.
  unfoldable pub tokens : List Stored → Result AddressError (List Token)
  tokens stored = do imports ← imported stored; ok (listed ++ imports)
