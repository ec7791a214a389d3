-- ===== src/Abi/Factory.antt =====
-- packages/abis/ArkSwapFactory.ts: the functions that the app reads.
use ark_swap.Prelude.{true, List, [], ◌∷◌, codes}
use ark_swap.Abi.{ViewFunction, address_type, uint}

abbrev pub all_pairs : ViewFunction
all_pairs = record {
  name = codes "allPairs";
  inputs = uint 256 ∷ [];
  outputs = address_type ∷ [];
  is_view = true;
}

abbrev pub all_pairs_length : ViewFunction
all_pairs_length = record {
  name = codes "allPairsLength";
  inputs = [];
  outputs = uint 256 ∷ [];
  is_view = true;
}

abbrev pub get_pair : ViewFunction
get_pair = record {
  name = codes "getPair";
  inputs = address_type ∷ address_type ∷ [];
  outputs = address_type ∷ [];
  is_view = true;
}

unfoldable pub factory_abi : List ViewFunction
factory_abi = all_pairs ∷ all_pairs_length ∷ get_pair ∷ []
