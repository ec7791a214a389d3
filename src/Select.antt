-- ===== src/Select.antt =====
-- apps/web/src/components/TokenSelectModal.tsx and apps/web/src/hooks/useTokenMetadata.ts, the picking and the
-- importing of a token, and apps/web/src/components/PositionsCard.tsx, which points the liquidity form at a
-- position. viem's `isAddress` and what the contract answers are arguments.
pub mod Offered
pub mod Picked
pub mod Managed
use ark_swap.Prelude.{
  ℕ, Bool, true, false, not, ◌&&◌, ◌||◌, Option, none, some, List, [], ◌∷◌, Text, codes, lower,
  trim, is_empty, is_set, get_or, length, ◌==◌, if◌then◌else◌, filter, any, ◌>>=?◌,
}
use ark_swap.Prelude.Search.{includes}
use ark_swap.Tokens.{Token, kash, same_token, token_by_address}
use ark_swap.Imports.{Stored}
use ark_swap.Valuation.{PoolToken}
use ark_swap.PoolList.{Position}
use ark_swap.PoolTable.{is_wkash_side}
use ark_swap.Url.{PoolMode, PoolSelection, select}

-- The results of `name`, `symbol` and `decimals`; `none` is a failed read.
pub record MetadataRead : Type 0 where
  pub name : Option Text
  pub symbol : Option Text
  pub decimals : Option ℕ

pub record MetadataQuery : Type 0 where
  pub data_of : Option MetadataRead
  pub is_loading : Bool
  pub is_fetched : Bool

-- What `useTokenMetadata` returns; `TokenMetadata` has the fields of a stored token.
pub record Candidate : Type 0 where
  pub address : Option Text
  pub metadata : Option Stored
  pub is_loading : Bool
  pub not_a_token : Bool

abbrev pub text_or : Option Text → Text → Text
text_or t default = if is_set t then get_or t [] else default

abbrev pub metadata_of : Text → MetadataRead → Option Stored
metadata_of address r = r.decimals >>=? λ decimals. some (record {
  address = address;
  symbol = text_or r.symbol (codes "UNKNOWN");
  name = text_or r.name (codes "Unknown token");
  decimals = decimals;
})

abbrev pub is_some_stored : Option Stored → Bool
is_some_stored none = false
is_some_stored (some s) = true

-- The query is not sent, and so has no data, without an address.
unfoldable pub use_token_metadata : (Text → Bool) → Text → MetadataQuery → Candidate
use_token_metadata is_address candidate q =
    let valid = is_address candidate in
    let metadata = if valid then q.data_of >>=? metadata_of candidate else none in
    record {
      address = if valid then some candidate else none;
      metadata = metadata;
      is_loading = valid && q.is_loading;
      not_a_token = valid && q.is_fetched && not (is_some_stored metadata);
    }

-- The texts are folded as ASCII ones.
abbrev pub matches : Text → Token → Bool
matches q t =
    includes (lower t.symbol) q
    || includes (lower t.name) q
    || includes (lower (get_or t.address [])) q

-- `results`.
unfoldable pub results : Text → List Token → List Token
results query tokens =
    let q = lower (trim query) in if is_empty q then tokens else filter (matches q) tokens

abbrev pub searching : Text → Bool
searching query = not (is_empty (trim query))

-- `pastedAddress`.
unfoldable pub pasted_address : (Text → Bool) → Text → List Token → Bool
unfolding results
pasted_address is_address query tokens =
    is_address (trim query) && length (results query tokens) == 0

unfoldable pub candidate : (Text → Bool) → Text → List Token → MetadataQuery → Candidate
unfolding pasted_address use_token_metadata
candidate is_address query tokens q =
    use_token_metadata is_address
      (if pasted_address is_address query tokens then trim query else []) q

-- A button of a token; `none` is the exception of `sameToken`.
unfoldable pub is_disabled : Option Token → Token → Option Bool
is_disabled none token = some false
is_disabled (some exclude) token = same_token token exclude

-- What the body of the dialog shows.
pub data Body : Type 0 where
  import_card : Candidate → Body
  no_match : Body
  listed : List Token → Body

unfoldable pub body_of : (Text → Bool) → Text → List Token → MetadataQuery → Body
unfolding pasted_address candidate results
body_of is_address query tokens q =
    if pasted_address is_address query tokens
    then import_card (candidate is_address query tokens q)
    else if length (results query tokens) == 0
    then no_match
    else listed (results query tokens)

-- Whether the note on imported tokens is shown under the list.
abbrev pub has_imported : Body → Bool
has_imported (import_card c) = false
has_imported no_match = false
has_imported (listed tokens) = any (λ t. t.is_imported) tokens

-- A click on the button of a token that the dialog lists: `none` when the button is disabled.
abbrev pub pick : Option Token → Token → Option Token
pick exclude token =
    is_disabled exclude token >>=? λ disabled. if disabled then none else some token

-- `asToken`, where `wkash` is `WKASH_ADDRESS`.
unfoldable pub as_token : Option Text → List Token → PoolToken → Token
as_token wkash tokens t =
    if is_wkash_side wkash t
    then kash
    else get_or (token_by_address tokens (some t.address)) (record {
      address = some t.address;
      symbol = t.symbol;
      name = t.name;
      decimals = t.decimals;
      is_native = false;
      is_devnet_mock = false;
      is_stable = false;
      is_wkash = false;
      is_imported = true;
      warning = none;
    })

-- `onManage`.
unfoldable pub manage :
    Option Text → List Token → Position → PoolMode → PoolSelection → PoolSelection
unfolding as_token select
manage wkash tokens p mode =
    let pool = (p.row).priced in
    select (as_token wkash tokens pool.token0) (as_token wkash tokens pool.token1) (some mode)
