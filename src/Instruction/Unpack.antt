-- ===== src/Instruction/Unpack.antt =====
-- `PoolInstruction::unpack`, one function for each arm of its match. `rest` is the input behind
-- the tag.
use bonfida_bot.Prelude.{
  ℕ, ◌==◌, if◌then◌else◌, length, get_elem?, zero, suc, ◌+◌, true, false, Option, none, some, List,
  [], ◌∷◌,
}
use mathlib.Core.Option
use bonfida_bot.Outcome.{
  ok, invalid_instruction, ProgramError, to_program_error, Result, err, ◌>>=◌, ok_or, unwrap,
}
use bonfida_bot.Bytes.{Bytes, slice, from_le_bytes, offset}
use bonfida_bot.State.{Pubkey, non_zero}
use bonfida_bot.Instruction.Defs.{
  Side, bid, ask, OrderType, limit, immediate_or_cancel, post_only, SelfTradeBehavior,
  decrement_take, cancel_provide, abort_transaction, PoolInstruction, init, create, deposit,
  create_order, cancel_order, settle_funds, redeem, collect_fees,
}

abbrev pub bad : ProgramError
bad = to_program_error invalid_instruction

-- `.get(lo..hi).and_then(|slice| slice.try_into().ok()).map(uN::from_le_bytes).ok_or(…)?`: the
-- range has the width of the integer, so `try_into` succeeds.
unfoldable pub read_le : ℕ → ℕ → Bytes → Result ℕ
read_le lo hi rest = do bytes ← ok_or (slice lo hi rest) bad; ok (from_le_bytes bytes)

-- The same for a public key.
unfoldable pub read_key : ℕ → ℕ → Bytes → Result Pubkey
read_key lo hi rest = ok_or (slice lo hi rest) bad

-- `rest.get(..32).and_then(…).unwrap()`
unfoldable pub read_seed : Bytes → Result Bytes
read_seed rest = unwrap (slice 0 32 rest)

-- `match rest.get(i).ok_or(InvalidInstruction)? { 0 => …, 1 => …, _ => return Err(…) }`
unfoldable pub read_side : ℕ → Bytes → Result Side
read_side i rest = do
  b ← ok_or (get_elem? rest i) bad
  if b == 0 then ok bid else if b == 1 then ok ask else err bad

unfoldable pub order_type_of_byte : ℕ → Result OrderType
order_type_of_byte b =
    if b == 0
    then ok limit
    else if b == 1
    then ok immediate_or_cancel
    else if b == 2
    then ok post_only
    else err bad

unfoldable pub read_order_type : ℕ → Bytes → Result OrderType
read_order_type i rest = do b ← ok_or (get_elem? rest i) bad; order_type_of_byte b

unfoldable pub self_trade_behavior_of_byte : ℕ → Result SelfTradeBehavior
self_trade_behavior_of_byte b =
    if b == 0
    then ok decrement_take
    else if b == 1
    then ok cancel_provide
    else if b == 2
    then ok abort_transaction
    else err bad

unfoldable pub read_self_trade_behavior : ℕ → Bytes → Result SelfTradeBehavior
read_self_trade_behavior i rest = do b ← ok_or (get_elem? rest i) bad; self_trade_behavior_of_byte b

-- `NonZero…::new(…).ok_or(InvalidInstruction)?`
unfoldable pub read_non_zero : ℕ → ℕ → Bytes → Result ℕ
read_non_zero lo hi rest = do v ← read_le lo hi rest; ok_or (non_zero v) bad

unfoldable pub unpack_init : Bytes → Result PoolInstruction
unpack_init rest = do
  pool_seed ← read_seed rest
  max_number_of_assets ← read_le 32 36 rest
  number_of_markets ← read_le 36 38 rest
  ok (init pool_seed max_number_of_assets number_of_markets)

-- `for _ in 0..number_of_markets`: the markets read, and the offset behind them.
unfoldable pub read_markets : ℕ → ℕ → Bytes → Result (List Pubkey × ℕ)
read_markets zero offset rest = ok ([], offset)
read_markets (suc n) offset rest = do
  market ← read_key offset (offset + 32) rest
  (markets, end) ← read_markets n (offset + 32) rest
  ok (market ∷ markets, end)

-- `while k != 0`: each round takes 8 bytes, or sets `k` to 0. `none` means that the fuel ran out.
unfoldable pub read_amounts : ℕ → ℕ → Bytes → Option (List ℕ)
read_amounts zero k rest = none
read_amounts (suc fuel) k rest = elim (k == 0) [
  | true ↦ some []
  | false ↦ elim (slice k (k + 8) rest) [
    | none ↦ read_amounts fuel 0 rest
    | some bytes ↦ Option.map (λ l. from_le_bytes bytes ∷ l) (read_amounts fuel (k + 8) rest)
  ]
]

unfoldable pub unpack_create : Bytes → Result PoolInstruction
unpack_create rest = do
  pool_seed ← read_seed rest
  number_of_markets ← read_le 32 34 rest
  fee_collection_period ← read_le 34 42 rest
  fee_ratio ← read_le 42 44 rest
  (markets, offset) ← read_markets number_of_markets 44 rest
  deposit_amounts ← unwrap (read_amounts (length rest + 2) offset rest)
  ok (
      create (record {
        pool_seed = pool_seed;
        fee_collection_period = fee_collection_period;
        fee_ratio = fee_ratio;
        deposit_amounts = deposit_amounts;
        markets = markets;
      }))

unfoldable pub unpack_deposit : Bytes → Result PoolInstruction
unpack_deposit rest = do
  pool_seed ← read_seed rest
  pool_token_amount ← read_le 32 40 rest
  ok (deposit pool_seed pool_token_amount)

-- Here a short seed is an error, and not a panic.
unfoldable pub unpack_create_order : Bytes → Result PoolInstruction
unpack_create_order rest = do
  pool_seed ← ok_or (slice 0 32 rest) bad
  side ← read_side 32 rest
  limit_price ← read_non_zero 33 41 rest
  ratio_of_pool_assets_to_trade ← read_non_zero 41 43 rest
  order_type ← read_order_type 43 rest
  client_id ← read_le 44 52 rest
  self_trade_behavior ← read_self_trade_behavior 52 rest
  source_index ← read_le 53 61 rest
  target_index ← read_le 61 69 rest
  market_index ← read_le 69 71 rest
  coin_lot_size ← read_le 71 79 rest
  pc_lot_size ← read_le 79 87 rest
  target_mint ← read_key 87 119 rest
  serum_limit ← read_le 119 121 rest
  ok (
      create_order (record {
        pool_seed = pool_seed;
        side = side;
        limit_price = limit_price;
        ratio_of_pool_assets_to_trade = ratio_of_pool_assets_to_trade;
        order_type = order_type;
        client_id = client_id;
        self_trade_behavior = self_trade_behavior;
        source_index = source_index;
        target_index = target_index;
        market_index = market_index;
        coin_lot_size = coin_lot_size;
        pc_lot_size = pc_lot_size;
        target_mint = target_mint;
        serum_limit = serum_limit;
      }))

unfoldable pub unpack_cancel_order : Bytes → Result PoolInstruction
unpack_cancel_order rest = do
  pool_seed ← read_seed rest
  side ← read_side 32 rest
  order_id ← read_le 33 49 rest
  ok (cancel_order pool_seed side order_id)

unfoldable pub unpack_settle_funds : Bytes → Result PoolInstruction
unpack_settle_funds rest = do
  pool_seed ← read_seed rest
  pc_index ← read_le 32 40 rest
  coin_index ← read_le 40 48 rest
  ok (settle_funds pool_seed pc_index coin_index)

unfoldable pub unpack_redeem : Bytes → Result PoolInstruction
unpack_redeem rest = do
  pool_seed ← read_seed rest
  pool_token_amount ← read_le 32 40 rest
  ok (redeem pool_seed pool_token_amount)

unfoldable pub unpack_collect_fees : Bytes → Result PoolInstruction
unpack_collect_fees rest = do pool_seed ← read_seed rest; ok (collect_fees pool_seed)

unfoldable pub unpack : Bytes → Result PoolInstruction
unpack [] = err bad
unpack (tag ∷ rest) =
    if tag == 0
    then unpack_init rest
    else if tag == 1
    then unpack_create rest
    else if tag == 2
    then unpack_deposit rest
    else if tag == 3
    then unpack_create_order rest
    else if tag == 4
    then unpack_cancel_order rest
    else if tag == 5
    then unpack_settle_funds rest
    else if tag == 6
    then unpack_redeem rest
    else if tag == 7
    then unpack_collect_fees rest
    else err bad
