-- ===== src/Tests.antt =====
-- The theorems at concrete inputs, and runs of the code.
mod Amm
mod Tokens
mod Route
mod Valuation
mod Activity
mod SwapForm
mod Liquidity
mod PoolList
mod Analytics
mod Url
mod Settings
mod Router
mod Reads
mod Format
mod Trades
mod Select
mod Wallet
