-- ===== src/Abi/Calls.antt =====
-- The arguments of `writeContract` in apps/web/src/components/SwapCard.tsx and LiquidityCard.tsx.
use ark_swap.Prelude.{false, none, some, List, [], ◌∷◌, codes, if◌then◌else◌}
use ark_swap.Prelude.Int.{pos}
use ark_swap.Abi.{AbiValue, address, addresses, integer, flag, bytes, ContractCall}
use ark_swap.SwapForm.Calls.{
  SwapCall, swap_exact_eth_for_tokens, swap_exact_tokens_for_eth, swap_exact_tokens_for_tokens,
  swap_eth_for_exact_tokens, swap_tokens_for_exact_eth, swap_tokens_for_exact_tokens,
}
use ark_swap.Liquidity.{
  LiquidityCall, Signature, add_liquidity_eth, add_liquidity, remove_liquidity_eth,
  remove_liquidity,
}

unfoldable pub swap_arguments : SwapCall → ContractCall
swap_arguments (swap_exact_eth_for_tokens fee m path to deadline value) = record {
  function_name =
      if fee
      then codes "swapExactETHForTokensSupportingFeeOnTransferTokens"
      else codes "swapExactETHForTokens";
  args = integer m ∷ addresses path ∷ address to ∷ integer (pos deadline) ∷ [];
  value = some value;
}
swap_arguments (swap_exact_tokens_for_eth fee a m path to deadline) = record {
  function_name =
      if fee
      then codes "swapExactTokensForETHSupportingFeeOnTransferTokens"
      else codes "swapExactTokensForETH";
  args = integer (pos a) ∷ integer m ∷ addresses path ∷ address to ∷ integer (pos deadline) ∷ [];
  value = none;
}
swap_arguments (swap_exact_tokens_for_tokens fee a m path to deadline) = record {
  function_name =
      if fee
      then codes "swapExactTokensForTokensSupportingFeeOnTransferTokens"
      else codes "swapExactTokensForTokens";
  args = integer (pos a) ∷ integer m ∷ addresses path ∷ address to ∷ integer (pos deadline) ∷ [];
  value = none;
}
swap_arguments (swap_eth_for_exact_tokens out path to deadline value) = record {
  function_name = codes "swapETHForExactTokens";
  args = integer (pos out) ∷ addresses path ∷ address to ∷ integer (pos deadline) ∷ [];
  value = some value;
}
swap_arguments (swap_tokens_for_exact_eth out most path to deadline) = record {
  function_name = codes "swapTokensForExactETH";
  args =
      integer (pos out)
      ∷ integer (pos most)
      ∷ addresses path
      ∷ address to
      ∷ integer (pos deadline)
      ∷ [];
  value = none;
}
swap_arguments (swap_tokens_for_exact_tokens out most path to deadline) = record {
  function_name = codes "swapTokensForExactTokens";
  args =
      integer (pos out)
      ∷ integer (pos most)
      ∷ addresses path
      ∷ address to
      ∷ integer (pos deadline)
      ∷ [];
  value = none;
}

abbrev pub permit_args : Signature → List AbiValue
permit_args s = flag false ∷ integer (pos s.v) ∷ bytes s.r ∷ bytes s.s ∷ []

unfoldable pub liquidity_arguments : LiquidityCall → ContractCall
liquidity_arguments (add_liquidity_eth token amount min_t min_k to deadline value) = record {
  function_name = codes "addLiquidityETH";
  args =
      address token
      ∷ integer (pos amount)
      ∷ integer min_t
      ∷ integer min_k
      ∷ address to
      ∷ integer (pos deadline)
      ∷ [];
  value = some value;
}
liquidity_arguments (add_liquidity a b amount_a amount_b min_a min_b to deadline) = record {
  function_name = codes "addLiquidity";
  args =
      address a
      ∷ address b
      ∷ integer (pos amount_a)
      ∷ integer (pos amount_b)
      ∷ integer min_a
      ∷ integer min_b
      ∷ address to
      ∷ integer (pos deadline)
      ∷ [];
  value = none;
}
liquidity_arguments (remove_liquidity_eth fee token amount min_t min_k to deadline none) = record {
  function_name =
      if fee
      then codes "removeLiquidityETHSupportingFeeOnTransferTokens"
      else codes "removeLiquidityETH";
  args =
      address token
      ∷ integer (pos amount)
      ∷ integer min_t
      ∷ integer min_k
      ∷ address to
      ∷ integer (pos deadline)
      ∷ [];
  value = none;
}
liquidity_arguments (remove_liquidity_eth fee token amount min_t min_k to deadline (some s)) =
    record {
      function_name =
          if fee
          then codes "removeLiquidityETHWithPermitSupportingFeeOnTransferTokens"
          else codes "removeLiquidityETHWithPermit";
      args =
          address token
          ∷ integer (pos amount)
          ∷ integer min_t
          ∷ integer min_k
          ∷ address to
          ∷ integer (pos deadline)
          ∷ permit_args s;
      value = none;
    }
liquidity_arguments (remove_liquidity a b amount min_a min_b to deadline none) = record {
  function_name = codes "removeLiquidity";
  args =
      address a
      ∷ address b
      ∷ integer (pos amount)
      ∷ integer min_a
      ∷ integer min_b
      ∷ address to
      ∷ integer (pos deadline)
      ∷ [];
  value = none;
}
liquidity_arguments (remove_liquidity a b amount min_a min_b to deadline (some s)) = record {
  function_name = codes "removeLiquidityWithPermit";
  args =
      address a
      ∷ address b
      ∷ integer (pos amount)
      ∷ integer min_a
      ∷ integer min_b
      ∷ address to
      ∷ integer (pos deadline)
      ∷ permit_args s;
  value = none;
}
