-- ===== src/Abi/Pair.antt =====
-- packages/abis/ArkSwapPair.ts: the functions that the app reads.
use ark_swap.Prelude.{true, List, [], ◌∷◌, codes}
use ark_swap.Abi.{ViewFunction, address_type, string_type, uint}

abbrev pub balance_of : ViewFunction
balance_of = record {
  name = codes "balanceOf";
  inputs = address_type ∷ [];
  outputs = uint 256 ∷ [];
  is_view = true;
}

abbrev pub get_reserves : ViewFunction
get_reserves = record {
  name = codes "getReserves";
  inputs = [];
  outputs = uint 112 ∷ uint 112 ∷ uint 32 ∷ [];
  is_view = true;
}

abbrev pub name : ViewFunction
name = record { name = codes "name"; inputs = []; outputs = string_type ∷ []; is_view = true }

abbrev pub nonces : ViewFunction
nonces = record {
  name = codes "nonces";
  inputs = address_type ∷ [];
  outputs = uint 256 ∷ [];
  is_view = true;
}

abbrev pub token0 : ViewFunction
token0 = record { name = codes "token0"; inputs = []; outputs = address_type ∷ []; is_view = true }

abbrev pub token1 : ViewFunction
token1 = record { name = codes "token1"; inputs = []; outputs = address_type ∷ []; is_view = true }

abbrev pub total_supply : ViewFunction
total_supply = record {
  name = codes "totalSupply";
  inputs = [];
  outputs = uint 256 ∷ [];
  is_view = true;
}

unfoldable pub pair_abi : List ViewFunction
pair_abi = balance_of ∷ get_reserves ∷ name ∷ nonces ∷ token0 ∷ token1 ∷ total_supply ∷ []
