-- ===== src/Instruction/RoundTrip.antt =====
-- `PoolInstruction::unpack` after `PoolInstruction::pack`, for every instruction.
mod Reads
mod Create
use bonfida_bot.Prelude.{ℕ, length, ◌≡◌, refl, [], ◌∷◌, arith}
use bonfida_bot.Outcome.{ok}
use bonfida_bot.Bytes.{Bytes, to_le_bytes, length-to_le_bytes, concat, slice-concat}
use bonfida_bot.Instruction.Defs.{
  Side, Order, PoolInstruction, init, create, deposit, create_order, cancel_order, settle_funds,
  redeem, collect_fees,
}
use bonfida_bot.Instruction.Format.{pack, parts, side_byte, order_parts}
use bonfida_bot.Instruction.Unpack.{
  unpack, unpack, unpack_init, unpack_deposit, unpack_create_order, unpack_cancel_order,
  unpack_settle_funds, unpack_redeem, unpack_collect_fees,
}
use bonfida_bot.Instruction.Range.{IsInstruction}
use bonfida_bot.Instruction.RoundTrip.Create.{create_lem}
use bonfida_bot.Instruction.RoundTrip.Reads.{
  read_seed-concat, read_le-concat, read_key-concat, read_side-concat, read_order_type-concat,
  read_self_trade_behavior-concat, read_non_zero-concat,
}

init_lem :
    (seed : Bytes) (assets markets : ℕ) (v : IsInstruction (init seed assets markets))
    → unpack_init (concat (parts (init seed assets markets)) []) ≡ ok (init seed assets markets)
unfolding unpack_init
init_lem seed assets markets v =
    let ps = parts (init seed assets markets) in
    let four = length-to_le_bytes 4 assets in
    rw (
      read_seed-concat seed (to_le_bytes 4 assets ∷ to_le_bytes 2 markets ∷ []) [] v.0,
      read_le-concat ps [] 1 32 36 4 assets refl (omega arith) refl v.1,
      read_le-concat ps [] 2 36 38 2 markets refl (omega arith) refl v.2,
    )

deposit_lem :
    (seed : Bytes) (amount : ℕ) (v : IsInstruction (deposit seed amount))
    → unpack_deposit (concat (parts (deposit seed amount)) []) ≡ ok (deposit seed amount)
unfolding unpack_deposit
deposit_lem seed amount v =
    let ps = parts (deposit seed amount) in
    rw (
      read_seed-concat seed (to_le_bytes 8 amount ∷ []) [] v.0,
      read_le-concat ps [] 1 32 40 8 amount refl (omega arith) refl v.1,
    )

redeem_lem :
    (seed : Bytes) (amount : ℕ) (v : IsInstruction (redeem seed amount))
    → unpack_redeem (concat (parts (redeem seed amount)) []) ≡ ok (redeem seed amount)
unfolding unpack_redeem
redeem_lem seed amount v =
    let ps = parts (redeem seed amount) in
    rw (
      read_seed-concat seed (to_le_bytes 8 amount ∷ []) [] v.0,
      read_le-concat ps [] 1 32 40 8 amount refl (omega arith) refl v.1,
    )

cancel_order_lem :
    (seed : Bytes) (side : Side) (order_id : ℕ)
    (v : IsInstruction (cancel_order seed side order_id))
    → unpack_cancel_order (concat (parts (cancel_order seed side order_id)) [])
      ≡ ok (cancel_order seed side order_id)
unfolding unpack_cancel_order
cancel_order_lem seed side order_id v =
    let ps = parts (cancel_order seed side order_id) in
    rw (
      read_seed-concat seed ((side_byte side ∷ []) ∷ to_le_bytes 16 order_id ∷ []) [] v.0,
      read_side-concat ps [] 1 32 side refl (omega arith),
      read_le-concat ps [] 2 33 49 16 order_id refl (omega arith) refl v.1,
    )

settle_funds_lem :
    (seed : Bytes) (pc coin : ℕ) (v : IsInstruction (settle_funds seed pc coin))
    → unpack_settle_funds (concat (parts (settle_funds seed pc coin)) [])
      ≡ ok (settle_funds seed pc coin)
unfolding unpack_settle_funds
settle_funds_lem seed pc coin v =
    let ps = parts (settle_funds seed pc coin) in
    let eight = length-to_le_bytes 8 pc in
    rw (
      read_seed-concat seed (to_le_bytes 8 pc ∷ to_le_bytes 8 coin ∷ []) [] v.0,
      read_le-concat ps [] 1 32 40 8 pc refl (omega arith) refl v.1,
      read_le-concat ps [] 2 40 48 8 coin refl (omega arith) refl v.2,
    )

collect_fees_lem :
    (seed : Bytes) (v : IsInstruction (collect_fees seed))
    → unpack_collect_fees (concat (parts (collect_fees seed)) []) ≡ ok (collect_fees seed)
unfolding unpack_collect_fees
collect_fees_lem seed v = rw (read_seed-concat seed [] [] v)

-- The widths of an order's integers, which determine the offsets.
abbrev OrderWidths : Order → Type 0
OrderWidths o =
    (length (to_le_bytes 8 o.limit_price) ≡ 8)
    × (length (to_le_bytes 2 o.ratio_of_pool_assets_to_trade) ≡ 2)
    × (length (to_le_bytes 8 o.client_id) ≡ 8)
    × (length (to_le_bytes 8 o.source_index) ≡ 8)
    × (length (to_le_bytes 8 o.target_index) ≡ 8)
    × (length (to_le_bytes 2 o.market_index) ≡ 2)
    × (length (to_le_bytes 8 o.coin_lot_size) ≡ 8)
    × (length (to_le_bytes 8 o.pc_lot_size) ≡ 8)

order_widths : (o : Order) → OrderWidths o
order_widths o = (
  length-to_le_bytes 8 _,
  length-to_le_bytes 2 _,
  length-to_le_bytes 8 _,
  length-to_le_bytes 8 _,
  length-to_le_bytes 8 _,
  length-to_le_bytes 2 _,
  length-to_le_bytes 8 _,
  length-to_le_bytes 8 _,
)

create_order_lem :
    (o : Order) (v : IsInstruction (create_order o))
    → unpack_create_order (concat (order_parts o) []) ≡ ok (create_order o)
unfolding unpack_create_order
create_order_lem o v =
    let ps = order_parts o in
    let w = order_widths o in
    rw (
      slice-concat ps [] 0 0 32 o.pool_seed refl refl (omega arith),
      read_side-concat ps [] 1 32 o.side refl (omega arith),
      read_non_zero-concat ps [] 2 33 41 8 o.limit_price refl (omega arith) refl v.limit_price,
      read_non_zero-concat ps [] 3 41 43 2 o.ratio_of_pool_assets_to_trade refl (omega arith) refl
          v.ratio,
      read_order_type-concat ps [] 4 43 o.order_type refl (omega arith),
      read_le-concat ps [] 5 44 52 8 o.client_id refl (omega arith) refl v.client_id,
      read_self_trade_behavior-concat ps [] 6 52 o.self_trade_behavior refl (omega arith),
      read_le-concat ps [] 7 53 61 8 o.source_index refl (omega arith) refl v.source_index,
      read_le-concat ps [] 8 61 69 8 o.target_index refl (omega arith) refl v.target_index,
      read_le-concat ps [] 9 69 71 2 o.market_index refl (omega arith) refl v.market_index,
      read_le-concat ps [] 10 71 79 8 o.coin_lot_size refl (omega arith) refl v.coin_lot_size,
      read_le-concat ps [] 11 79 87 8 o.pc_lot_size refl (omega arith) refl v.pc_lot_size,
      read_key-concat ps [] 12 87 119 o.target_mint refl (omega arith) (omega arith),
      read_le-concat ps [] 13 119 121 2 o.serum_limit refl (omega arith) refl v.serum_limit,
    )

-- Every instruction whose fields are in range is unpacked as it was packed.
pub unpack-pack : (i : PoolInstruction) → IsInstruction i → unpack (pack i) ≡ ok i
unfolding unpack pack
unpack-pack (init seed assets markets) v = init_lem seed assets markets v
unpack-pack (create c) v = create_lem c v
unpack-pack (deposit seed amount) v = deposit_lem seed amount v
unpack-pack (create_order o) v = create_order_lem o v
unpack-pack (cancel_order seed side order_id) v = cancel_order_lem seed side order_id v
unpack-pack (settle_funds seed pc coin) v = settle_funds_lem seed pc coin v
unpack-pack (redeem seed amount) v = redeem_lem seed amount v
unpack-pack (collect_fees seed) v = collect_fees_lem seed v
