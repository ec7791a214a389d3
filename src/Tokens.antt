-- ===== src/Tokens.antt =====
-- packages/config/index.ts, the types of packages/addresses/index.ts, and
-- apps/web/src/config/{contracts,tokens}.ts: which tokens and contracts the app knows. What the
-- environment and the deployment manifest hold are arguments.
pub mod Identity
pub mod Listed
pub mod Resolve
use ark_swap.Prelude.{
  ℕ, ◌+◌, Bool, true, false, not, ◌&&◌, ◌||◌, Option, none, some, List, [], ◌∷◌, ◌++◌, map, Text,
  codes, text_eq, lower, trim, is_set, is_empty, option_map, get_or, ◌>>=?◌, leb, ◌==◌,
  if◌then◌else◌, filter, find, length, all, filter_map,
}

-- An optional flag is read for its truth only: `undefined` is `false`.
pub record Token : Type 0 where
  pub address : Option Text
  pub symbol : Text
  pub name : Text
  pub decimals : ℕ
  pub is_native : Bool
  pub is_devnet_mock : Bool
  pub is_stable : Bool
  pub is_wkash : Bool
  pub is_imported : Bool
  pub warning : Option Text

pub record TokenEntry : Type 0 where
  pub address : Text
  pub name : Text
  pub decimals : ℕ
  pub is_devnet_mock : Bool
  pub is_stable : Bool

-- The fields of a deployment record that the app reads.
pub record Deployment : Type 0 where
  pub wkash : Text
  pub factory : Text
  pub router02 : Text
  pub tokens : List (Text × TokenEntry)
  pub routing_hubs : Option (List Text)

abbrev pub devnet_warning : Text
devnet_warning = codes "DEVNET TEST TOKEN — NO REAL VALUE"

abbrev pub kash : Token
kash = record {
  address = none;
  symbol = codes "KASH";
  name = codes "Ark Constellation";
  decimals = 18;
  is_native = true;
  is_devnet_mock = false;
  is_stable = false;
  is_wkash = false;
  is_imported = false;
  warning = none;
}

abbrev pub wkash_token : Text → Token
wkash_token address = record {
  address = some address;
  symbol = codes "WKASH";
  name = codes "Wrapped KASH";
  decimals = 18;
  is_native = false;
  is_devnet_mock = false;
  is_stable = false;
  is_wkash = true;
  is_imported = false;
  warning = none;
}

abbrev pub listed_token : Text × TokenEntry → Token
listed_token (symbol, t) = record {
  address = some t.address;
  symbol = symbol;
  name = t.name;
  decimals = t.decimals;
  is_native = false;
  is_devnet_mock = t.is_devnet_mock;
  is_stable = t.is_stable;
  is_wkash = false;
  is_imported = false;
  warning = if t.is_devnet_mock then some devnet_warning else none;
}

unfoldable pub token_registry : Option Deployment → List Token
token_registry none = []
token_registry (some d) = kash ∷ wkash_token d.wkash ∷ map listed_token d.tokens

-- `d?.routingHubs?.length ? d.routingHubs : ['WKASH']`.
abbrev pub hub_names : Option Deployment → List Text
hub_names none = codes "WKASH" ∷ []
hub_names (some d) = elim d.routing_hubs [
  | none ↦ codes "WKASH" ∷ []
  | some names ↦ if length names == 0 then codes "WKASH" ∷ [] else names
]

abbrev pub by_symbol : List Token → Text → Option Token
by_symbol registry symbol = find (λ t. text_eq t.symbol symbol) registry

unfoldable pub routing_hubs : Option Deployment → List Token
routing_hubs d = filter_map (by_symbol (token_registry d)) (hub_names d)

-- `TOKEN_LIST`.
unfoldable pub token_list : Option Deployment → List Token
token_list d = filter (λ t. t.is_native || is_set t.address) (token_registry d)

-- `none` is the exception that `undefined.toLowerCase()` throws, of a token that is neither native nor
-- has an address.
unfoldable pub token_key : Token → Option Text
token_key t = if t.is_native then some (codes "NATIVE") else option_map lower t.address

unfoldable pub same_token : Token → Token → Option Bool
unfolding token_key
same_token a b = token_key a >>=? λ key_a. token_key b >>=? λ key_b. some (text_eq key_a key_b)

-- The address that a token is routed through, where `wkash` is `WKASH_ADDRESS`.
unfoldable pub routed_address : Option Text → Token → Option Text
routed_address wkash t = if t.is_native then wkash else t.address

-- `t.address?.toLowerCase() === a`.
abbrev pub address_is : Text → Token → Bool
address_is a t = elim t.address [ none ↦ false | some b ↦ text_eq (lower b) a ]

unfoldable pub token_by_address : List Token → Option Text → Option Token
token_by_address tokens address = elim address [
  | none ↦ none
  | some a ↦ if is_empty a then none else find (address_is (lower a)) tokens
]

abbrev pub is_hex_digit : ℕ → Bool
is_hex_digit c = leb b'0' c && leb c b'9' || leb b'a' c && leb c b'f' || leb b'A' c && leb c b'F'

-- `/^0x[0-9a-fA-F]{40}$/.test(q)`.
unfoldable pub is_hex_address : Text → Bool
is_hex_address [] = false
is_hex_address (z ∷ []) = false
is_hex_address (z ∷ x ∷ digits) =
    z == b'0' && x == b'x' && length digits == 40 && all is_hex_digit digits

-- `t.symbol.toLowerCase() === s`, where `to_lower` is `toLowerCase` on all of Unicode, which symbols may hold.
abbrev pub symbol_is : (Text → Text) → Text → Token → Bool
symbol_is to_lower s t = text_eq (to_lower t.symbol) s

unfoldable pub resolve_token : (Text → Text) → List Token → Option Text → Option Token
resolve_token to_lower tokens none = none
resolve_token to_lower tokens (some id) =
    let q = trim id in
    if is_empty q
    then none
    else if is_hex_address q
    then token_by_address tokens (some q)
    else find (symbol_is to_lower (to_lower q)) tokens

unfoldable pub token_param : Token → Text
token_param t =
    if t.is_native
    then t.symbol
    else if t.is_imported && is_set t.address
    then get_or t.address []
    else t.symbol

-- apps/web/src/config/contracts.ts: an address from the environment, if it is one.
unfoldable pub override : Option Text → Option Text
override none = none
override (some value) =
    if is_empty value then none else if is_hex_address value then some value else none

-- `override(process.env.…) ?? deployment?.field`.
unfoldable pub configured_address :
    Option Text → (Deployment → Text) → Option Deployment → Option Text
unfolding override
configured_address env field d = elim (override env) [ some a ↦ some a | none ↦ option_map field d ]

-- A missing address and what it should be.
pub record ConfigProblem : Type 0 where
  pub key : Text
  pub hint : Text

abbrev pub problem_of : Option Text → ConfigProblem → List ConfigProblem
problem_of address problem = if is_set address then [] else problem ∷ []

-- `contractConfigProblems`, for the three configured addresses.
unfoldable pub contract_config_problems :
    Option Text → Option Text → Option Text → List ConfigProblem
contract_config_problems wkash factory router =
    problem_of wkash (record {
      key = codes "NEXT_PUBLIC_WKASH_ADDRESS";
      hint = codes "Canonical WKASH address for this chain.";
    })
    ++ problem_of factory (record {
      key = codes "NEXT_PUBLIC_ARKSWAP_FACTORY_ADDRESS";
      hint = codes "ArkSwapFactory address.";
    })
    ++ problem_of router (record {
      key = codes "NEXT_PUBLIC_ARKSWAP_ROUTER_ADDRESS";
      hint = codes "ArkSwapRouter02 address.";
    })
