-- ===== src/Abi/Erc20.antt =====
-- packages/abis/ERC20.ts: the functions that the app reads.
use ark_swap.Prelude.{true, List, [], ◌∷◌, codes}
use ark_swap.Abi.{ViewFunction, address_type, string_type, uint}

abbrev pub allowance : ViewFunction
allowance = record {
  name = codes "allowance";
  inputs = address_type ∷ address_type ∷ [];
  outputs = uint 256 ∷ [];
  is_view = true;
}

abbrev pub balance_of : ViewFunction
balance_of = record {
  name = codes "balanceOf";
  inputs = address_type ∷ [];
  outputs = uint 256 ∷ [];
  is_view = true;
}

abbrev pub decimals : ViewFunction
decimals = record { name = codes "decimals"; inputs = []; outputs = uint 8 ∷ []; is_view = true }

abbrev pub name : ViewFunction
name = record { name = codes "name"; inputs = []; outputs = string_type ∷ []; is_view = true }

abbrev pub symbol : ViewFunction
symbol = record { name = codes "symbol"; inputs = []; outputs = string_type ∷ []; is_view = true }

unfoldable pub erc20_abi : List ViewFunction
erc20_abi = allowance ∷ balance_of ∷ decimals ∷ name ∷ symbol ∷ []
