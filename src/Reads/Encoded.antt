-- ===== src/Reads/Encoded.antt =====
-- The functions of packages/abis that the batched reads of apps/web/src/hooks name, with their arguments.
use ark_swap.Prelude.{Option, List, [], ◌∷◌, Text, codes, text_eq, find}
use ark_swap.Prelude.Int.{pos}
use ark_swap.Abi.{AbiType, address_type, uint, string_type, AbiValue, integer, ViewFunction}
use ark_swap.Abi
use ark_swap.Abi.Pair.{pair_abi}
use ark_swap.Abi.Factory.{factory_abi}
use ark_swap.Abi.Erc20.{erc20_abi}
use ark_swap.Reads.{
  Reading, all_pairs_length, all_pairs, get_pair, token0, token1, get_reserves, total_supply,
  balance_of, symbol, decimals, name,
}

-- `abi`.
unfoldable pub abi_of : Reading → List ViewFunction
abi_of all_pairs_length = factory_abi
abi_of (all_pairs i) = factory_abi
abi_of (get_pair a b) = factory_abi
abi_of token0 = pair_abi
abi_of token1 = pair_abi
abi_of get_reserves = pair_abi
abi_of total_supply = pair_abi
abi_of (balance_of a) = pair_abi
abi_of symbol = erc20_abi
abi_of decimals = erc20_abi
abi_of name = erc20_abi

-- `functionName`.
unfoldable pub function_name : Reading → Text
function_name all_pairs_length = codes "allPairsLength"
function_name (all_pairs i) = codes "allPairs"
function_name (get_pair a b) = codes "getPair"
function_name token0 = codes "token0"
function_name token1 = codes "token1"
function_name get_reserves = codes "getReserves"
function_name total_supply = codes "totalSupply"
function_name (balance_of a) = codes "balanceOf"
function_name symbol = codes "symbol"
function_name decimals = codes "decimals"
function_name name = codes "name"

-- `args`.
unfoldable pub arguments : Reading → List AbiValue
arguments (all_pairs i) = integer (pos i) ∷ []
arguments (get_pair a b) = Abi.address a ∷ Abi.address b ∷ []
arguments (balance_of a) = Abi.address a ∷ []
arguments _ = []

-- The function of the ABI that a read names.
abbrev pub function_of : Reading → Option ViewFunction
function_of r = find (λ f. text_eq f.name (function_name r)) (abi_of r)
