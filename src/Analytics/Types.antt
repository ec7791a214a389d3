-- ===== src/Analytics/Types.antt =====
-- packages/types/index.ts: what the analytics API returns. Amounts and prices are texts; `null` is `none`.
use ark_swap.Prelude.{ℕ, Bool, Option, Text}

pub record Pagination : Type 0 where
  pub limit : ℕ
  pub offset : ℕ
  pub total : ℕ

pub data HealthStatus : Type 0 where
  healthy : HealthStatus
  degraded : HealthStatus

pub record Health : Type 0 where
  pub status : HealthStatus
  pub chain_id : Text
  pub latest_chain_block : ℕ
  pub last_indexed_block : ℕ
  pub lag : ℕ

pub record ProtocolStats : Type 0 where
  pub tvl_usd : Text
  pub volume_24h_usd : Text
  pub volume_7d_usd : Text
  pub estimated_fees_24h_usd : Text
  pub total_pairs : ℕ
  pub transactions_24h : ℕ

pub record TokenSummary : Type 0 where
  pub address : Text
  pub symbol : Option Text
  pub name : Option Text
  pub decimals : Option ℕ
  pub metadata_complete : Bool
  pub is_whitelisted : Bool
  pub is_stable : Bool
  pub is_wkash : Bool
  pub price_usd : Option Text

pub record PairSummary : Type 0 where
  pub address : Text
  pub token0 : TokenSummary
  pub token1 : TokenSummary
  pub reserve0 : Text
  pub reserve1 : Text
  pub total_supply : Text
  pub tvl_usd : Option Text
  pub volume_24h_usd : Text
  pub fees_24h_usd : Text
  pub tx_count_24h : ℕ

pub record PairDetail : Type 0 where
  pub summary : PairSummary
  pub created_block : ℕ
  pub created_tx_hash : Text
  pub created_timestamp : ℕ
  pub last_sync_block : Option ℕ
  pub estimated_apr_percent : Option Text

pub record SwapRecord : Type 0 where
  pub tx_hash : Text
  pub log_index : ℕ
  pub block_number : ℕ
  pub timestamp : ℕ
  pub pair_address : Text
  pub sender : Text
  pub recipient : Text
  pub token_in : Option Text
  pub token_out : Option Text
  pub token_in_symbol : Option Text
  pub token_out_symbol : Option Text
  pub amount_in : Option Text
  pub amount_out : Option Text
  pub amount_usd : Option Text

pub data LiquidityEventType : Type 0 where
  mint : LiquidityEventType
  burn : LiquidityEventType

pub record LiquidityEventRecord : Type 0 where
  pub tx_hash : Text
  pub log_index : ℕ
  pub block_number : ℕ
  pub timestamp : ℕ
  pub pair_address : Text
  pub event_type : LiquidityEventType
  pub sender : Option Text
  pub recipient : Option Text
  pub amount0 : Text
  pub amount1 : Text
  pub amount_usd : Option Text

pub data ChartInterval : Type 0 where
  hourly : ChartInterval
  daily : ChartInterval

pub record ChartPoint : Type 0 where
  pub timestamp : ℕ
  pub token0_price_usd : Option Text
  pub token1_price_usd : Option Text
  pub tvl_usd : Option Text
  pub volume_usd : Text
  pub tx_count : ℕ

pub record AccountPosition : Type 0 where
  pub pair_address : Text
  pub token0 : TokenSummary
  pub token1 : TokenSummary
  pub lp_balance : Text
  pub lp_total_supply : Text
  pub share_bps : ℕ
  pub token0_amount : Text
  pub token1_amount : Text
  pub value_usd : Option Text
