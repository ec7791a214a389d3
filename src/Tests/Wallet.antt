-- ===== src/Tests/Wallet.antt =====
-- A mint of the faucet, a permit that the wallet is asked for, and the menu of transactions.
use ark_swap.Prelude.{ℕ, ◌≡◌, ◌⊎◌, false, none, Text, ◌*◌, ◌^◌, true, some, codes}
use ark_swap.Wallet.{Account, MintCall, PermitInput, permit_request, permit_ready}
use ark_swap.Wallet.Signing.{wallet_digest, permit_request-IsExact}
use ark_swap.Permit.{PermitTypedData, contract_digest}
use ark_swap.Activity.{mint}
use ark_swap.Tests.Amm.{usdc, wkash, factory}

abbrev wallet : Account
wallet = record { address = some wkash; is_connected = true; wallet_chain = some 7 }

abbrev minted : MintCall
minted = record {
  token = usdc;
  recipient = wkash;
  amount = 1_000 * 10 ^ 6;
  tracked = λ hash. record { hash = hash; kind = mint; summary = codes "Mint 1000 mUSDC" };
}

abbrev permit : PermitInput
permit = record {
  chain = 7;
  pair = some factory;
  address = some wkash;
  router = some usdc;
  nonce = some 0;
  name = some (codes "ArkSwap LP");
}

permit_request-IsExact_example :
    ((permit_ready permit ≡ false) × (permit_request permit 25 1200 ≡ none))
    ⊎ ((pair name owner router : Text) × (nonce : ℕ) × (some factory ≡ some pair)
        × (some (codes "ArkSwap LP") ≡ some name)
        × (some wkash ≡ some owner)
        × (some usdc ≡ some router)
        × (some 0 ≡ some nonce)
        × ((d : PermitTypedData) × (permit_request permit 25 1200 ≡ some d)
            × (wallet_digest d ≡ some (contract_digest 7 name pair owner router 25 nonce 1200))))
permit_request-IsExact_example = permit_request-IsExact permit 25 1200
