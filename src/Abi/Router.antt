-- ===== src/Abi/Router.antt =====
-- packages/abis/ArkSwapRouter02.ts: the functions of the router that the forms call.
use ark_swap.Prelude.{true, false, List, [], ◌∷◌, codes}
use ark_swap.Abi.{AbiFunction, address_type, address_list, uint, bool_type, bytes32_type}

abbrev pub add_liquidity : AbiFunction
add_liquidity = record {
  name = codes "addLiquidity";
  inputs =
      (codes "tokenA", address_type)
      ∷ (codes "tokenB", address_type)
      ∷ (codes "amountADesired", uint 256)
      ∷ (codes "amountBDesired", uint 256)
      ∷ (codes "amountAMin", uint 256)
      ∷ (codes "amountBMin", uint 256)
      ∷ (codes "to", address_type)
      ∷ (codes "deadline", uint 256)
      ∷ [];
  payable = false;
}

abbrev pub add_liquidity_eth : AbiFunction
add_liquidity_eth = record {
  name = codes "addLiquidityETH";
  inputs =
      (codes "token", address_type)
      ∷ (codes "amountTokenDesired", uint 256)
      ∷ (codes "amountTokenMin", uint 256)
      ∷ (codes "amountETHMin", uint 256)
      ∷ (codes "to", address_type)
      ∷ (codes "deadline", uint 256)
      ∷ [];
  payable = true;
}

abbrev pub remove_liquidity : AbiFunction
remove_liquidity = record {
  name = codes "removeLiquidity";
  inputs =
      (codes "tokenA", address_type)
      ∷ (codes "tokenB", address_type)
      ∷ (codes "liquidity", uint 256)
      ∷ (codes "amountAMin", uint 256)
      ∷ (codes "amountBMin", uint 256)
      ∷ (codes "to", address_type)
      ∷ (codes "deadline", uint 256)
      ∷ [];
  payable = false;
}

abbrev pub remove_liquidity_eth : AbiFunction
remove_liquidity_eth = record {
  name = codes "removeLiquidityETH";
  inputs =
      (codes "token", address_type)
      ∷ (codes "liquidity", uint 256)
      ∷ (codes "amountTokenMin", uint 256)
      ∷ (codes "amountETHMin", uint 256)
      ∷ (codes "to", address_type)
      ∷ (codes "deadline", uint 256)
      ∷ [];
  payable = false;
}

abbrev pub remove_liquidity_eth_supporting_fee_on_transfer_tokens : AbiFunction
remove_liquidity_eth_supporting_fee_on_transfer_tokens = record {
  name = codes "removeLiquidityETHSupportingFeeOnTransferTokens";
  inputs =
      (codes "token", address_type)
      ∷ (codes "liquidity", uint 256)
      ∷ (codes "amountTokenMin", uint 256)
      ∷ (codes "amountETHMin", uint 256)
      ∷ (codes "to", address_type)
      ∷ (codes "deadline", uint 256)
      ∷ [];
  payable = false;
}

abbrev pub remove_liquidity_eth_with_permit : AbiFunction
remove_liquidity_eth_with_permit = record {
  name = codes "removeLiquidityETHWithPermit";
  inputs =
      (codes "token", address_type)
      ∷ (codes "liquidity", uint 256)
      ∷ (codes "amountTokenMin", uint 256)
      ∷ (codes "amountETHMin", uint 256)
      ∷ (codes "to", address_type)
      ∷ (codes "deadline", uint 256)
      ∷ (codes "approveMax", bool_type)
      ∷ (codes "v", uint 8)
      ∷ (codes "r", bytes32_type)
      ∷ (codes "s", bytes32_type)
      ∷ [];
  payable = false;
}

abbrev pub remove_liquidity_eth_with_permit_supporting_fee_on_transfer_tokens : AbiFunction
remove_liquidity_eth_with_permit_supporting_fee_on_transfer_tokens = record {
  name = codes "removeLiquidityETHWithPermitSupportingFeeOnTransferTokens";
  inputs =
      (codes "token", address_type)
      ∷ (codes "liquidity", uint 256)
      ∷ (codes "amountTokenMin", uint 256)
      ∷ (codes "amountETHMin", uint 256)
      ∷ (codes "to", address_type)
      ∷ (codes "deadline", uint 256)
      ∷ (codes "approveMax", bool_type)
      ∷ (codes "v", uint 8)
      ∷ (codes "r", bytes32_type)
      ∷ (codes "s", bytes32_type)
      ∷ [];
  payable = false;
}

abbrev pub remove_liquidity_with_permit : AbiFunction
remove_liquidity_with_permit = record {
  name = codes "removeLiquidityWithPermit";
  inputs =
      (codes "tokenA", address_type)
      ∷ (codes "tokenB", address_type)
      ∷ (codes "liquidity", uint 256)
      ∷ (codes "amountAMin", uint 256)
      ∷ (codes "amountBMin", uint 256)
      ∷ (codes "to", address_type)
      ∷ (codes "deadline", uint 256)
      ∷ (codes "approveMax", bool_type)
      ∷ (codes "v", uint 8)
      ∷ (codes "r", bytes32_type)
      ∷ (codes "s", bytes32_type)
      ∷ [];
  payable = false;
}

abbrev pub swap_eth_for_exact_tokens : AbiFunction
swap_eth_for_exact_tokens = record {
  name = codes "swapETHForExactTokens";
  inputs =
      (codes "amountOut", uint 256)
      ∷ (codes "path", address_list)
      ∷ (codes "to", address_type)
      ∷ (codes "deadline", uint 256)
      ∷ [];
  payable = true;
}

abbrev pub swap_exact_eth_for_tokens : AbiFunction
swap_exact_eth_for_tokens = record {
  name = codes "swapExactETHForTokens";
  inputs =
      (codes "amountOutMin", uint 256)
      ∷ (codes "path", address_list)
      ∷ (codes "to", address_type)
      ∷ (codes "deadline", uint 256)
      ∷ [];
  payable = true;
}

abbrev pub swap_exact_eth_for_tokens_supporting_fee_on_transfer_tokens : AbiFunction
swap_exact_eth_for_tokens_supporting_fee_on_transfer_tokens = record {
  name = codes "swapExactETHForTokensSupportingFeeOnTransferTokens";
  inputs =
      (codes "amountOutMin", uint 256)
      ∷ (codes "path", address_list)
      ∷ (codes "to", address_type)
      ∷ (codes "deadline", uint 256)
      ∷ [];
  payable = true;
}

abbrev pub swap_exact_tokens_for_eth : AbiFunction
swap_exact_tokens_for_eth = record {
  name = codes "swapExactTokensForETH";
  inputs =
      (codes "amountIn", uint 256)
      ∷ (codes "amountOutMin", uint 256)
      ∷ (codes "path", address_list)
      ∷ (codes "to", address_type)
      ∷ (codes "deadline", uint 256)
      ∷ [];
  payable = false;
}

abbrev pub swap_exact_tokens_for_eth_supporting_fee_on_transfer_tokens : AbiFunction
swap_exact_tokens_for_eth_supporting_fee_on_transfer_tokens = record {
  name = codes "swapExactTokensForETHSupportingFeeOnTransferTokens";
  inputs =
      (codes "amountIn", uint 256)
      ∷ (codes "amountOutMin", uint 256)
      ∷ (codes "path", address_list)
      ∷ (codes "to", address_type)
      ∷ (codes "deadline", uint 256)
      ∷ [];
  payable = false;
}

abbrev pub swap_exact_tokens_for_tokens : AbiFunction
swap_exact_tokens_for_tokens = record {
  name = codes "swapExactTokensForTokens";
  inputs =
      (codes "amountIn", uint 256)
      ∷ (codes "amountOutMin", uint 256)
      ∷ (codes "path", address_list)
      ∷ (codes "to", address_type)
      ∷ (codes "deadline", uint 256)
      ∷ [];
  payable = false;
}

abbrev pub swap_exact_tokens_for_tokens_supporting_fee_on_transfer_tokens : AbiFunction
swap_exact_tokens_for_tokens_supporting_fee_on_transfer_tokens = record {
  name = codes "swapExactTokensForTokensSupportingFeeOnTransferTokens";
  inputs =
      (codes "amountIn", uint 256)
      ∷ (codes "amountOutMin", uint 256)
      ∷ (codes "path", address_list)
      ∷ (codes "to", address_type)
      ∷ (codes "deadline", uint 256)
      ∷ [];
  payable = false;
}

abbrev pub swap_tokens_for_exact_eth : AbiFunction
swap_tokens_for_exact_eth = record {
  name = codes "swapTokensForExactETH";
  inputs =
      (codes "amountOut", uint 256)
      ∷ (codes "amountInMax", uint 256)
      ∷ (codes "path", address_list)
      ∷ (codes "to", address_type)
      ∷ (codes "deadline", uint 256)
      ∷ [];
  payable = false;
}

abbrev pub swap_tokens_for_exact_tokens : AbiFunction
swap_tokens_for_exact_tokens = record {
  name = codes "swapTokensForExactTokens";
  inputs =
      (codes "amountOut", uint 256)
      ∷ (codes "amountInMax", uint 256)
      ∷ (codes "path", address_list)
      ∷ (codes "to", address_type)
      ∷ (codes "deadline", uint 256)
      ∷ [];
  payable = false;
}

unfoldable pub router_abi : List AbiFunction
router_abi =
    add_liquidity ∷ add_liquidity_eth ∷ remove_liquidity ∷ remove_liquidity_eth
    ∷ remove_liquidity_eth_supporting_fee_on_transfer_tokens ∷ remove_liquidity_eth_with_permit
    ∷ remove_liquidity_eth_with_permit_supporting_fee_on_transfer_tokens
    ∷ remove_liquidity_with_permit ∷ swap_eth_for_exact_tokens ∷ swap_exact_eth_for_tokens
    ∷ swap_exact_eth_for_tokens_supporting_fee_on_transfer_tokens ∷ swap_exact_tokens_for_eth
    ∷ swap_exact_tokens_for_eth_supporting_fee_on_transfer_tokens ∷ swap_exact_tokens_for_tokens
    ∷ swap_exact_tokens_for_tokens_supporting_fee_on_transfer_tokens ∷ swap_tokens_for_exact_eth
    ∷ swap_tokens_for_exact_tokens ∷ []
