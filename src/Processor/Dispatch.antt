-- ===== src/Processor/Dispatch.antt =====
-- `Processor::process_instruction`: unpack the instruction and call its handler. The entrypoint
-- (entrypoint.rs) calls it and prints an error that it returns.
use bonfida_bot.Prelude.{List}
use bonfida_bot.Bytes.{Bytes}
use bonfida_bot.State.{Pubkey}
use bonfida_bot.Instruction.{
  PoolInstruction, init, create, deposit, create_order, cancel_order, settle_funds, redeem,
  collect_fees,
}
use bonfida_bot.Instruction.Unpack.{unpack}
use bonfida_bot.Runtime.{Runtime, ◌>>=◌, AccountInfo, Action, lift}
use bonfida_bot.Processor.CollectFees.{process_collect_fees}
use bonfida_bot.Processor.Redeem.{process_redeem}
use bonfida_bot.Processor.Deposit.{process_deposit}
use bonfida_bot.Processor.Settle.{process_settle}
use bonfida_bot.Processor.Cancel.{process_cancel, process_create_order}
use bonfida_bot.Processor.Create.{process_create, process_init}

module _ (rt : Runtime) (program_id : Pubkey) where
  unfoldable pub dispatch : List AccountInfo → PoolInstruction → Action (Unit {0})
  dispatch accounts (init seed max_number_of_assets number_of_markets) =
      process_init rt program_id accounts seed max_number_of_assets number_of_markets
  dispatch accounts (create c) =
      process_create rt program_id accounts c.pool_seed c.deposit_amounts c.markets
        c.fee_collection_period c.fee_ratio
  dispatch accounts (deposit seed amount) = process_deposit rt program_id accounts seed amount
  dispatch accounts (create_order order) = process_create_order accounts order
  dispatch accounts (cancel_order seed side order_id) =
      process_cancel rt program_id accounts seed side order_id
  dispatch accounts (settle_funds seed pc_index coin_index) =
      process_settle rt program_id accounts seed pc_index coin_index
  dispatch accounts (redeem seed amount) = process_redeem rt program_id accounts seed amount
  dispatch accounts (collect_fees seed) = process_collect_fees rt program_id accounts seed

  unfoldable pub process_instruction : List AccountInfo → Bytes → Action (Unit {0})
  process_instruction accounts instruction_data = do
    instruction ← lift (unpack instruction_data)
    dispatch accounts instruction
