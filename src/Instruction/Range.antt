-- ===== src/Instruction/Range.antt =====
-- The range of an instruction's fields: the width that Rust's type gives each.
use bonfida_bot.Prelude.{length, All, ◌^◌, ◌<◌, ◌≡◌}
use bonfida_bot.Instruction.Defs.{
  Order, Creation, PoolInstruction, init, create, deposit, create_order, cancel_order, settle_funds,
  redeem, collect_fees,
}
use bonfida_bot.Assets.Markets.{AreKeys}

-- The range of an `Order`'s fields.
pub record IsOrder (o : Order) : Type 0 where
  pub pool_seed : length o.pool_seed ≡ 32
  pub limit_price : (0 < o.limit_price) × (o.limit_price < 2 ^ 64)
  pub ratio : (0 < o.ratio_of_pool_assets_to_trade) × (o.ratio_of_pool_assets_to_trade < 2 ^ 16)
  pub client_id : o.client_id < 2 ^ 64
  pub source_index : o.source_index < 2 ^ 64
  pub target_index : o.target_index < 2 ^ 64
  pub market_index : o.market_index < 2 ^ 16
  pub coin_lot_size : o.coin_lot_size < 2 ^ 64
  pub pc_lot_size : o.pc_lot_size < 2 ^ 64
  pub target_mint : length o.target_mint ≡ 32
  pub serum_limit : o.serum_limit < 2 ^ 16

pub record IsCreation (c : Creation) : Type 0 where
  pub pool_seed : length c.pool_seed ≡ 32
  pub fee_collection_period : c.fee_collection_period < 2 ^ 64
  pub fee_ratio : c.fee_ratio < 2 ^ 16
  pub deposit_amounts : All (λ a. a < 2 ^ 64) c.deposit_amounts
  pub markets : AreKeys c.markets
  pub number_of_markets : length c.markets < 2 ^ 16

-- Every field has the width that its Rust type gives it, and at most 2 ^ 16 - 1 markets are named.
abbrev pub IsInstruction : PoolInstruction → Type 0
IsInstruction (init seed assets markets) =
    (length seed ≡ 32) × (assets < 2 ^ 32) × (markets < 2 ^ 16)
IsInstruction (create c) = IsCreation c
IsInstruction (deposit seed amount) = (length seed ≡ 32) × (amount < 2 ^ 64)
IsInstruction (create_order o) = IsOrder o
IsInstruction (cancel_order seed side order_id) = (length seed ≡ 32) × (order_id < 2 ^ 128)
IsInstruction (settle_funds seed pc coin) = (length seed ≡ 32) × (pc < 2 ^ 64) × (coin < 2 ^ 64)
IsInstruction (redeem seed amount) = (length seed ≡ 32) × (amount < 2 ^ 64)
IsInstruction (collect_fees seed) = length seed ≡ 32
