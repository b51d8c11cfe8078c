-- ===== src/Processor/Cancel.antt =====
-- `Processor::process_cancel`, and `Processor::process_create_order`, which is disabled.
pub mod Gates
use bonfida_bot.Prelude.{ℕ, true, List, [], ◌∷◌}
use bonfida_bot.Outcome.{custom, err}
use bonfida_bot.Bytes.{Bytes}
use bonfida_bot.State.{Pubkey}
use bonfida_bot.Instruction.{Side, Order}
use bonfida_bot.Runtime.{
  Runtime, ◌>>=◌, ◌>>◌, AccountInfo, Action, lift, next_account_info, invoke_signed,
}
use bonfida_bot.Utils.{check_pool_key, check_signal_provider}
use bonfida_bot.Processor.Common.{read_header}

module _ (rt : Runtime) (program_id : Pubkey) where
  unfoldable pub process_cancel : List AccountInfo → Bytes → Side → ℕ → Action (Unit {0})
  process_cancel accounts pool_seed side order_id = do
    (signal_provider, accounts) ← lift (next_account_info accounts)
    (market, accounts) ← lift (next_account_info accounts)
    (openorders, accounts) ← lift (next_account_info accounts)
    (bids, accounts) ← lift (next_account_info accounts)
    (asks, accounts) ← lift (next_account_info accounts)
    (event_queue, accounts) ← lift (next_account_info accounts)
    (pool, accounts) ← lift (next_account_info accounts)
    (dex_program, accounts) ← lift (next_account_info accounts)
    lift (check_pool_key rt program_id pool.key pool_seed)
    header ← read_header pool
    lift (check_signal_provider header signal_provider true)
    instruction ← lift (
        rt.cancel_order
          (dex_program.key ∷ market.key ∷ bids.key ∷ asks.key ∷ openorders.key ∷ pool.key
            ∷ event_queue.key ∷ [])
          side order_id)
    invoke_signed rt instruction
        (dex_program ∷ market ∷ bids ∷ asks ∷ openorders ∷ pool ∷ event_queue ∷ [])
        ((pool_seed ∷ []) ∷ [])

unfoldable pub process_create_order : List AccountInfo → Order → Action (Unit {0})
process_create_order accounts order = lift (err (custom 0))
