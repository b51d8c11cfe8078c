-- ===== src/Instruction/Defs.antt =====
-- The enum `PoolInstruction`. A number's width stands beside it; `NonZero…` is a number that is
-- not 0.
use bonfida_bot.Prelude.{ℕ, List}
use bonfida_bot.Bytes.{Bytes}
use bonfida_bot.State.{Pubkey}

pub data Side : Type 0 where
  bid ask : Side

pub data OrderType : Type 0 where
  limit immediate_or_cancel post_only : OrderType

pub data SelfTradeBehavior : Type 0 where
  decrement_take cancel_provide abort_transaction : SelfTradeBehavior

-- The fields of the variant `CreateOrder`.
pub record Order : Type 0 where
  pub pool_seed : Bytes
  pub side : Side
  pub limit_price : ℕ
  pub ratio_of_pool_assets_to_trade : ℕ
  pub order_type : OrderType
  pub client_id : ℕ
  pub self_trade_behavior : SelfTradeBehavior
  pub source_index : ℕ
  pub target_index : ℕ
  pub market_index : ℕ
  pub coin_lot_size : ℕ
  pub pc_lot_size : ℕ
  pub target_mint : Pubkey
  pub serum_limit : ℕ

-- The fields of the variant `Create`.
pub record Creation : Type 0 where
  pub pool_seed : Bytes
  pub fee_collection_period : ℕ
  pub fee_ratio : ℕ
  pub deposit_amounts : List ℕ
  pub markets : List Pubkey

pub data PoolInstruction : Type 0 where
  init : (pool_seed : Bytes) (max_number_of_assets number_of_markets : ℕ) → PoolInstruction
  create : Creation → PoolInstruction
  deposit : (pool_seed : Bytes) (pool_token_amount : ℕ) → PoolInstruction
  create_order : Order → PoolInstruction
  cancel_order : (pool_seed : Bytes) (side : Side) (order_id : ℕ) → PoolInstruction
  settle_funds : (pool_seed : Bytes) (pc_index coin_index : ℕ) → PoolInstruction
  redeem : (pool_seed : Bytes) (pool_token_amount : ℕ) → PoolInstruction
  collect_fees : (pool_seed : Bytes) → PoolInstruction
