-- ===== src/Lib.antt =====
-- The client-side code of ArkSwap, a constant-product exchange: the TypeScript packages and the web
-- app that compute quotes, routes and values, and keep the state of the forms in the browser.
--
-- Parts and files:
--   Prelude: texts as lists of code units, results with errors, lists, integers.
--   Amm: packages/sdk/amm.ts, the formulas of the pair (getAmountOut is get_amount_out, and so on);
--     Amm/Contract holds the Solidity formulas of ArkSwapLibrary over 256-bit words.
--   PairAddress: sortTokens and computePairAddress of packages/sdk/amm.ts.
--   Tokens: packages/config/index.ts, packages/addresses/index.ts and
--     apps/web/src/config/{tokens,contracts}.ts, the registry and the lookup of tokens.
--   Route: apps/web/src/hooks/useSwapRoute.ts, which quotes candidate paths with Amm over pools at the
--     addresses of PairAddress; Route/Search holds the hook, Route/Quoting the quotes along a path.
--   Valuation: apps/web/src/lib/valuation.ts, values in stablecoins from reserves.
--   Activity: apps/web/src/state/activity.tsx, the list of sent transactions as a state with steps.
--   Sent: what SwapCard.tsx, LiquidityCard.tsx and useAllowance.ts track in Activity once a call is sent.
--   Pools: apps/web/src/lib/pools.ts and apps/web/src/hooks/usePoolState.ts, the state of one pool.
--   PoolList: apps/web/src/hooks/usePools.ts and usePositions.ts, all pools and the positions.
--   Stats: apps/web/src/hooks/useProtocolStats.ts, the figures of the landing page.
--   Reads: the batched reads of usePools.ts, usePositions.ts, useProtocolStats.ts, usePoolState.ts and
--     useSwapRoute.ts, over PoolList, Stats, Pools and Route: the requests, the positions of the
--     answers, and the hooks from the read to their result. What the query library returns is an argument.
--   Allowance: apps/web/src/hooks/useAllowance.ts, the approval of the router.
--   SwapForm: apps/web/src/state/swap.tsx and apps/web/src/components/SwapCard.tsx; SwapForm/Calls
--     holds the calls of the router that a click sends, quoted by Route, and SwapForm/View what is shown.
--   Liquidity: apps/web/src/components/LiquidityCard.tsx; Liquidity/Removal holds removeLiquidity
--     and Liquidity/View what is shown.
--   Permit: apps/web/src/lib/permit.ts, the permit of a removal, and the digest that permit of
--     packages/contracts/contracts/core/ArkSwapERC20.sol checks.
--   Imports: apps/web/src/state/tokens.tsx, the tokens imported by address.
--   Analytics: packages/sdk/analytics.ts; Analytics/Types holds packages/types/index.ts.
--   Url: apps/web/src/components/{SwapUrlSync,PoolUrlSync}.tsx and apps/web/src/state/pool.tsx, the
--     forms in the address bar; Url/Params holds the parameters of an address.
--   Settings: apps/web/src/state/settings.tsx with its controls, and deadlineFromNow of
--     packages/sdk/amm.ts over the doubles of Settings/Doubles, which hold numbers below 2^1024; Settings/Protection joins them with
--     SwapForm.
--   Format: apps/web/src/lib/format.ts and the Max button of AmountField.tsx.
--   Trades: apps/web/src/hooks/{useRecentTrades,useAnalytics}.ts, queries through Analytics.
--   PoolTable: apps/web/src/components/PoolsTable.tsx, over PoolList; its links are read by Url.
--   Select: apps/web/src/components/{TokenSelectModal,PositionsCard}.tsx and
--     apps/web/src/hooks/useTokenMetadata.ts.
--   Wallet: apps/web/src/config/{chain,devnet}.ts, apps/web/src/lib/wagmi.ts, the hooks of balances and
--     permits, the connect button and the faucet.
--   Panels: apps/web/src/components/{PoolChart,ActivityMenu}.tsx.
--   Landing: apps/web/src/components/landing/{RecentTrades,TokenPrices}.tsx, over Trades and Stats.
--   Router: packages/contracts/contracts/periphery, the loops of ArkSwapLibrary.sol and the checks of
--     the swaps of ArkSwapRouter02.sol; Router/Accepted joins them with Route and SwapForm.
--   Abi: the functions of packages/abis that the app calls and reads, and the arguments of
--     writeContract in SwapCard.tsx and LiquidityCard.tsx; Reads/Encoded names them for the reads.
--   Theme: apps/web/src/state/theme.tsx and apps/web/src/config/theme.ts.
--   Tests: the theorems at concrete inputs.
--
-- Amounts are the source's `bigint` values. They come from `uint` reads and from parsed amounts, so
-- they are natural numbers; a difference that the code does not guard is an integer. A hook is the
-- function of one rendering: what the chain, the wallet, the clock, the environment and the storage
-- return are arguments. Loops are recursion on the list, and the depth of the valuation is the number
-- of levels left, two at the call. Only the loop of getAmountsOut has fuel, the length of the path,
-- which Router/Outputs shows to be enough.
--
-- Addresses are folded as ASCII text. A token named by its symbol in an address bar is looked up with
-- `toLowerCase` as an argument, any function of texts; the searches of the dialog and of the table of
-- pools fold ASCII only, so a search there by another capital is outside the model.
--
-- Not modelled: rendering, floating-point formatting, the query and wallet libraries, the
-- contracts beyond the pricing formulas, and the Go services.
pub mod Prelude
pub mod Amm
pub mod Tokens
pub mod PairAddress
pub mod Route
pub mod Valuation
pub mod Activity
pub mod Allowance
pub mod SwapForm
pub mod Pools
pub mod Liquidity
pub mod Imports
pub mod PoolList
pub mod Stats
pub mod Analytics
pub mod Permit
pub mod Format
pub mod Url
pub mod Settings
pub mod Trades
pub mod PoolTable
pub mod Select
pub mod Wallet
pub mod Panels
mod Tests
pub mod Landing
pub mod Theme
pub mod Router
pub mod Abi
pub mod Reads
pub mod Sent
