-- ===== src/Tests/Tokens.antt =====
-- The token registry and the lookups on a small manifest.
use ark_swap.Prelude.{◌≡◌, refl, true, false, none, some, [], ◌∷◌, codes, text_eq, lower, trim}
use ark_swap.Tokens.{
  Token, Deployment, kash, wkash_token, token_registry, routing_hubs, resolve_token, is_hex_address,
  override,
}
use ark_swap.Tokens.Listed.{IsFilled, routing_hubs_default}
use ark_swap.Tests.Amm.{usdc, wkash, factory}

abbrev pub manifest : Deployment
manifest = record {
  wkash = wkash;
  factory = factory;
  router02 = factory;
  tokens =
      (
        codes "mUSDC",
        record {
          address = usdc;
          name = codes "Mock USDC";
          decimals = 6;
          is_devnet_mock = true;
          is_stable = true;
        },
      )
      ∷ [];
  routing_hubs = none;
}

abbrev pub usdc_token : Token
usdc_token = record {
  address = some usdc;
  symbol = codes "mUSDC";
  name = codes "Mock USDC";
  decimals = 6;
  is_native = false;
  is_devnet_mock = true;
  is_stable = true;
  is_wkash = false;
  is_imported = false;
  warning = some (codes "DEVNET TEST TOKEN — NO REAL VALUE");
}

abbrev pub imported_token : Token
imported_token = record {
  address = some factory;
  symbol = codes "mUSDC";
  name = codes "Not USDC";
  decimals = 6;
  is_native = false;
  is_devnet_mock = false;
  is_stable = false;
  is_wkash = false;
  is_imported = true;
  warning = none;
}

registry_runs :
    (token_registry (some manifest) ≡ kash ∷ wkash_token wkash ∷ usdc_token ∷ [])
    × (override (some (codes "0x12")) ≡ none)
    × (override (some wkash) ≡ some wkash)
    × (resolve_token lower (token_registry (some manifest)) (some (codes " musdc "))
        ≡ some usdc_token)
unfolding token_registry override is_hex_address resolve_token trim text_eq lower
registry_runs = (refl, refl, refl, refl)

manifest-IsFilled : IsFilled manifest
manifest-IsFilled = record { wkash_set = refl; tokens_set = (refl, tt) }

routing_hubs_default_example : routing_hubs (some manifest) ≡ wkash_token wkash ∷ []
routing_hubs_default_example = routing_hubs_default manifest refl
