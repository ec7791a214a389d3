-- ===== src/Tests/Select.antt =====
-- The links of a pool with an imported look-alike, pasting its address, and the position of a pool with WKASH.
use ark_swap.Prelude.{
  ◌≡◌, refl, true, false, some, none, List, [], ◌∷◌, Text, codes, text_eq, lower, trim,
}
use ark_swap.Tokens.{Token, is_hex_address, token_by_address, resolve_token}
use ark_swap.Imports.{Stored}
use ark_swap.PoolList.{resolve_address}
use ark_swap.PoolTable.{link_param}
use ark_swap.PoolTable.Links.{resolve_token-link_param}
use ark_swap.Select.{MetadataRead, MetadataQuery, candidate, results}
use ark_swap.Select.Offered.{candidate-unlisted}
use ark_swap.Tests.Amm.{wkash, factory}
use ark_swap.Tests.Tokens.{usdc_token, imported_token}

abbrev tokens : List Token
tokens = usdc_token ∷ imported_token ∷ []

-- The link of the pool of the imported token opens the listed one.
resolve_token-link_param_example :
    resolve_token lower tokens
      (some (link_param (some wkash) (resolve_address tokens [] [] factory)))
    ≡ some usdc_token
unfolding resolve_address token_by_address text_eq lower trim is_hex_address
resolve_token-link_param_example =
    resolve_token-link_param lower (some wkash) tokens [] [] factory [] (imported_token ∷ [])
      usdc_token imported_token refl refl refl refl refl refl refl tt refl

abbrev pasted : Text
pasted = codes "0x1111111111111111111111111111111111111111"

abbrev answered : MetadataQuery
answered = record {
  data_of = some (record { name = none; symbol = some (codes "ABC"); decimals = some 6 });
  is_loading = false;
  is_fetched = true;
}

abbrev found : Stored
found = record {
  address = pasted;
  symbol = codes "ABC";
  name = codes "Unknown token";
  decimals = 6;
}

candidate-unlisted_example :
    (found.address ≡ pasted)
    × (is_hex_address pasted ≡ true)
    × (token_by_address tokens (some pasted) ≡ none)
    × ((r : MetadataRead) × (answered.data_of ≡ some r) × (r.decimals ≡ some 6))
unfolding candidate results is_hex_address trim lower
candidate-unlisted_example =
    candidate-unlisted is_hex_address pasted tokens answered {s = found} refl refl
