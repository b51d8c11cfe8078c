-- ===== src/Instruction/Format.antt =====
-- `PoolInstruction::pack`: the tag, and the fields in order, each at its width.
use bonfida_bot.Prelude.{ℕ, length, ◌%◌, ◌^◌, List, [], ◌∷◌, ◌++◌}
use bonfida_bot.Bytes.{Bytes, to_le_bytes, concat}
use bonfida_bot.Instruction.Defs.{
  Side, bid, ask, OrderType, limit, immediate_or_cancel, post_only, SelfTradeBehavior,
  decrement_take, cancel_provide, abort_transaction, Order, Creation, PoolInstruction, init, create,
  deposit, create_order, cancel_order, settle_funds, redeem, collect_fees,
}

unfoldable pub side_byte : Side → ℕ
side_byte bid = 0
side_byte ask = 1

unfoldable pub order_type_byte : OrderType → ℕ
order_type_byte limit = 0
order_type_byte immediate_or_cancel = 1
order_type_byte post_only = 2

unfoldable pub self_trade_behavior_byte : SelfTradeBehavior → ℕ
self_trade_behavior_byte decrement_take = 0
self_trade_behavior_byte cancel_provide = 1
self_trade_behavior_byte abort_transaction = 2

-- What is appended to the buffer behind the tag, field by field.
abbrev pub order_parts : Order → List Bytes
order_parts o =
    o.pool_seed
    ∷ (side_byte o.side ∷ [])
    ∷ to_le_bytes 8 o.limit_price
    ∷ to_le_bytes 2 o.ratio_of_pool_assets_to_trade
    ∷ (order_type_byte o.order_type ∷ [])
    ∷ to_le_bytes 8 o.client_id
    ∷ (self_trade_behavior_byte o.self_trade_behavior ∷ [])
    ∷ to_le_bytes 8 o.source_index
    ∷ to_le_bytes 8 o.target_index
    ∷ to_le_bytes 2 o.market_index
    ∷ to_le_bytes 8 o.coin_lot_size
    ∷ to_le_bytes 8 o.pc_lot_size
    ∷ o.target_mint
    ∷ to_le_bytes 2 o.serum_limit
    ∷ []

abbrev pub amount_parts : List ℕ → List Bytes
amount_parts [] = []
amount_parts (a ∷ amounts) = to_le_bytes 8 a ∷ amount_parts amounts

-- `markets.len() as u16` keeps the low 16 bits.
abbrev pub creation_parts : Creation → List Bytes
creation_parts c =
    c.pool_seed
    ∷ to_le_bytes 2 (length c.markets % 2 ^ 16)
    ∷ to_le_bytes 8 c.fee_collection_period
    ∷ to_le_bytes 2 c.fee_ratio
    ∷ (c.markets ++ amount_parts c.deposit_amounts)

abbrev pub parts : PoolInstruction → List Bytes
parts (init seed max_assets markets) = seed ∷ to_le_bytes 4 max_assets ∷ to_le_bytes 2 markets ∷ []
parts (create c) = creation_parts c
parts (deposit seed amount) = seed ∷ to_le_bytes 8 amount ∷ []
parts (create_order o) = order_parts o
parts (cancel_order seed side order_id) =
    seed ∷ (side_byte side ∷ []) ∷ to_le_bytes 16 order_id ∷ []
parts (settle_funds seed pc_index coin_index) =
    seed ∷ to_le_bytes 8 pc_index ∷ to_le_bytes 8 coin_index ∷ []
parts (redeem seed amount) = seed ∷ to_le_bytes 8 amount ∷ []
parts (collect_fees seed) = seed ∷ []

abbrev pub tag : PoolInstruction → ℕ
tag (init _ _ _) = 0
tag (create _) = 1
tag (deposit _ _) = 2
tag (create_order _) = 3
tag (cancel_order _ _ _) = 4
tag (settle_funds _ _ _) = 5
tag (redeem _ _) = 6
tag (collect_fees _) = 7

unfoldable pub pack : PoolInstruction → Bytes
pack i = tag i ∷ concat (parts i) []
