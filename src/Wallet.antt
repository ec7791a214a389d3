-- ===== src/Wallet.antt =====
-- What the app knows of the chain and the wallet: apps/web/src/config/{chain,devnet}.ts and
-- apps/web/src/lib/wagmi.ts, apps/web/src/hooks/{useTokenBalance,useLpPermit}.ts, and
-- apps/web/src/components/{ConfigGate,ConnectButton,FaucetModal,AddToWallet}.tsx. The environment, the
-- deployment, `Number` and what the wallet library returns are arguments.
pub mod Connect
pub mod Faucet
pub mod Signing
use ark_swap.Prelude.{
  is_known, ℕ, ◌*◌, ◌^◌, Bool, true, false, not, ◌&&◌, ◌||◌, Option, none, some, List, [], ◌∷◌,
  ◌++◌, Text, codes, text_eq, is_empty, is_set, get_or, option_map, filter, any, take, length, ◌==◌,
  if◌then◌else◌, ◌>>=?◌, Result, ok, err,
}
use ark_swap.Prelude.Decimal.{decimal}
use ark_swap.Tokens.{Token, Deployment, ConfigProblem, contract_config_problems}
use ark_swap.Activity.{Tracked, mint}
use ark_swap.Liquidity.{Signature}
use ark_swap.Permit.{
  PermitArgs, PermitTypedData, ParsedSignature, permit_typed_data, split_signature,
}

-- `clean`.
unfoldable pub clean : Option Text → Option Text
clean none = none
clean (some value) = if is_empty value then none else some value

-- `ARK_CHAIN_ID`, where `number_of` gives 0 for what `Number` makes of a text that is no number.
unfoldable pub chain_id : (Text → ℕ) → Option Text → ℕ → ℕ
unfolding clean
chain_id number_of env devnet_id =
    let id = get_or (option_map number_of (clean env)) 0 in if id == 0 then devnet_id else id

-- `ARK_BLOCKSCOUT_URL`.
unfoldable pub blockscout_url : Option Text → Option Text → Option Text
unfolding clean
blockscout_url env explorer = elim (clean env) [ some url ↦ some url | none ↦ explorer ]

unfoldable pub explorer_tx_url : Option Text → Text → Option Text
explorer_tx_url base hash =
    if is_set base then some (get_or base [] ++ codes "/tx/" ++ hash) else none

unfoldable pub explorer_address_url : Option Text → Text → Option Text
explorer_address_url base address =
    if is_set base then some (get_or base [] ++ codes "/address/" ++ address) else none

-- `chainConfigProblems`.
unfoldable pub chain_config_problems : Option Text → ℕ → Option Deployment → List ConfigProblem
chain_config_problems rpc_url id deployment =
    (if is_set rpc_url
      then []
      else record {
        key = codes "NEXT_PUBLIC_ARK_RPC_URL";
        hint = codes "HTTPS JSON-RPC endpoint for Ark Constellation.";
      }
        ∷ [])
    ++ elim deployment [
      | some d ↦ []
      | none ↦
          record {
            key = codes "NEXT_PUBLIC_ARK_EVM_CHAIN_ID";
            hint =
                codes "No deployment recorded for chain "
                ++ decimal id
                ++ codes " in packages/addresses.";
          }
          ∷ []
    ]

-- `ConfigGate`: the app is shown when there is no problem.
unfoldable pub gate_opens : List ConfigProblem → List ConfigProblem → Bool
gate_opens chain contracts = length (chain ++ contracts) == 0

pub data ConnectorType : Type 0 where
  injected : ConnectorType
  wallet_connect : ConnectorType
  other_type : ConnectorType

pub record Connector : Type 0 where
  pub id : Text
  pub connector_type : ConnectorType

-- The connectors of apps/web/src/lib/wagmi.ts.
abbrev pub configured_connectors : Option Text → List ConnectorType
configured_connectors project_id =
    if is_set project_id then injected ∷ wallet_connect ∷ [] else injected ∷ []

abbrev pub is_injected : ConnectorType → Bool
is_injected injected = true
is_injected wallet_connect = false
is_injected other_type = false

abbrev pub is_generic : Connector → Bool
is_generic c = text_eq c.id (codes "injected")

abbrev pub is_named_injected : Connector → Bool
is_named_injected c = is_injected c.connector_type && not (is_generic c)

-- `offered`.
unfoldable pub offered : List Connector → List Connector
offered connectors =
    if any is_named_injected connectors
    then filter (λ c. not (is_generic c)) connectors
    else connectors

-- What the connect button is.
pub data ConnectView : Type 0 where
  wallets : List Connector → ConnectView
  wrong_network : ConnectView
  account : Option Text → ConnectView

pub record Account : Type 0 where
  pub address : Option Text
  pub is_connected : Bool
  pub wallet_chain : Option ℕ

abbrev pub is_on : ℕ → Option ℕ → Bool
is_on id none = false
is_on id (some chain) = chain == id

unfoldable pub connect_view : ℕ → Account → List Connector → ConnectView
unfolding offered
connect_view id a connectors =
    if not a.is_connected
    then wallets (offered connectors)
    else if not (is_on id a.wallet_chain)
    then wrong_network
    else account a.address

abbrev pub faucet_units : ℕ
faucet_units = 1_000

-- `FAUCET_ENABLED`.
abbrev pub faucet_enabled : ℕ → ℕ → Bool
faucet_enabled id devnet_id = id == devnet_id

-- `disabled` of the rows of the faucet.
unfoldable pub faucet_disabled : ℕ → ℕ → Account → Bool
faucet_disabled id devnet_id a =
    not (faucet_enabled id devnet_id)
    || not a.is_connected
    || (a.is_connected && not (is_on id a.wallet_chain))

-- The call of `mint`, and what the activity list gets when it is sent.
pub record MintCall : Type 0 where
  pub token : Text
  pub recipient : Text
  pub amount : ℕ
  pub tracked : Text → Tracked

-- `mint`.
unfoldable pub mint_call : Account → Token → Option MintCall
mint_call a token =
    if not (is_set a.address) || not (is_set token.address)
    then none
    else some (record {
      token = get_or token.address [];
      recipient = get_or a.address [];
      amount = faucet_units * 10 ^ token.decimals;
      tracked = λ hash. record {
        hash = hash;
        kind = mint;
        summary = codes "Mint " ++ decimal faucet_units ++ codes " " ++ token.symbol;
      };
    })

-- A click on a row's button.
unfoldable pub click_mint : ℕ → ℕ → Account → Bool → Token → Option MintCall
unfolding faucet_disabled mint_call
click_mint id devnet_id a is_pending token =
    if faucet_disabled id devnet_id a || is_pending then none else mint_call a token

-- The request of `wallet_watchAsset`; `none` where the button is not shown.
pub record WatchAsset : Type 0 where
  pub address : Text
  pub symbol : Text
  pub decimals : ℕ

unfoldable pub watch_asset : Bool → Bool → Token → Option WatchAsset
watch_asset is_connected has_connector token =
    if not is_connected || token.is_native || not (is_set token.address) || not has_connector
    then none
    else some (record {
      address = get_or token.address [];
      symbol = take 11 token.symbol;
      decimals = token.decimals;
    })

-- What a read through the wallet library returns.
pub record BalanceRead : Type 0 where
  pub value : Option ℕ
  pub is_loading : Bool

-- `useTokenBalance`, of the account's KASH and of the token's contract.
unfoldable pub use_token_balance :
    Option Text → Option Token → BalanceRead → BalanceRead → BalanceRead
use_token_balance address none native erc20 = record { value = none; is_loading = false }
use_token_balance address (some token) native erc20 =
    if not (is_set address)
    then record { value = none; is_loading = false }
    else if token.is_native
    then native
    else erc20

-- What `useLpPermit` reads and is given.
pub record PermitInput : Type 0 where
  pub chain : ℕ
  pub pair : Option Text
  pub address : Option Text
  pub router : Option Text
  pub nonce : Option ℕ
  pub name : Option Text

-- `ready`.
unfoldable pub permit_ready : PermitInput → Bool
permit_ready i =
    is_set i.pair && is_set i.address && is_set i.router && is_known i.nonce && is_set i.name

-- The data that `sign` asks the wallet to sign.
unfoldable pub permit_request : PermitInput → ℕ → ℕ → Option PermitTypedData
unfolding permit_ready permit_typed_data
permit_request i value deadline =
    if not (permit_ready i)
    then none
    else some (
        permit_typed_data (record {
          chain_id = i.chain;
          pair = get_or i.pair [];
          name = get_or i.name [];
          owner = get_or i.address [];
          spender = get_or i.router [];
          value = value;
          nonce = get_or i.nonce 0;
          deadline = deadline;
        }))

-- `sign`, where `wallet` gives `none` for a signature that was refused.
unfoldable pub sign :
    (PermitTypedData → Option ParsedSignature) → PermitInput → ℕ → ℕ → Option Signature
unfolding permit_request split_signature
sign wallet i value deadline = permit_request i value deadline >>=? λ request.
    wallet request >>=? λ s. some (split_signature s)
