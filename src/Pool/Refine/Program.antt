-- ===== src/Pool/Refine/Program.antt =====
-- The whole program refines the abstract pool.
use bonfida_bot.Pool.Step.{Pool, Step}
use bonfida_bot.Instruction.Unpack.{unpack}
use bonfida_bot.Instruction.Total.{unpack-IsInstruction}
use bonfida_bot.Runtime.Inversion.{lift-then}
use bonfida_bot.Bytes.{IsByte, Bytes}
use bonfida_bot.Prelude.{List, All, inl, inr, subst, ◌≡◌}
use bonfida_bot.Outcome.{err, custom, ok}
use bonfida_bot.State.{Pubkey}
use bonfida_bot.Instruction.{
  PoolInstruction, init, create, deposit, create_order, cancel_order, settle_funds, redeem,
  collect_fees, Order,
}
use bonfida_bot.Instruction.Range.{IsInstruction}
use bonfida_bot.Runtime.{Runtime, AccountInfo, World}
use bonfida_bot.Processor.Dispatch.{dispatch, process_instruction}
use bonfida_bot.Processor.Cancel.{process_create_order}
use bonfida_bot.Pool.Frame.{IsRuntime, Keeps, Keeps-lift}
use bonfida_bot.Pool.Keeps.{process_init-Keeps, process_deposit-Keeps, process_cancel-Keeps}
use bonfida_bot.Pool.Moves.{Refines, Keeps-Refines, HoldsPool}
use bonfida_bot.Pool.Refine.Create.{process_create-Refines}
use bonfida_bot.Pool.Refine.Settle.{process_settle-Refines}
use bonfida_bot.Pool.Refine.Redeem.{process_redeem-Refines}
use bonfida_bot.Pool.Refine.Collect.{process_collect_fees-Refines}

module _ {rt : Runtime} {program_id key : Pubkey} (laws : IsRuntime rt program_id) where
  process_create_order-Keeps :
      (accounts : List AccountInfo) (order : Order)
      → Keeps program_id key (process_create_order accounts order)
  unfolding process_create_order
  process_create_order-Keeps accounts order = Keeps-lift (err (custom 0))

  pub dispatch-Refines :
      (accounts : List AccountInfo) (i : PoolInstruction)
      → IsInstruction i
      → Refines program_id key (dispatch rt program_id accounts i)
  unfolding dispatch
  dispatch-Refines accounts (init seed n m) v =
      Keeps-Refines _ (process_init-Keeps laws accounts seed n m)
  dispatch-Refines accounts (create c) v = process_create-Refines laws accounts c v
  dispatch-Refines accounts (deposit seed amount) v =
      Keeps-Refines _ (process_deposit-Keeps laws accounts seed amount)
  dispatch-Refines accounts (create_order order) v =
      Keeps-Refines _ (process_create_order-Keeps accounts order)
  dispatch-Refines accounts (cancel_order seed side id) v =
      Keeps-Refines _ (process_cancel-Keeps laws accounts seed side id)
  dispatch-Refines accounts (settle_funds seed pc coin) v =
      process_settle-Refines laws accounts seed pc coin
  dispatch-Refines accounts (redeem seed amount) v =
      process_redeem-Refines laws accounts seed amount
  dispatch-Refines accounts (collect_fees seed) v = process_collect_fees-Refines laws accounts seed

-- For a runtime that keeps its promises and makes no call of this program itself: if an account holds a pool and an instruction's bytes
-- succeed, with any accounts, then the account holds a pool that one step of the abstract pool
-- leads to.
pub process_instruction-Step :
    (rt : Runtime) (program_id key : Pubkey) (accounts : List AccountInfo)
    (instruction_data : Bytes) (p : Pool) (w w' : World)
    → IsRuntime rt program_id
    → All IsByte instruction_data
    → HoldsPool program_id key p w
    → process_instruction rt program_id accounts instruction_data w ≡ ok (tt, w')
    → (p' : Pool) × Step p p' × HoldsPool program_id key p' w'
unfolding process_instruction
process_instruction-Step rt program_id key accounts instruction_data p w w' laws bytes h e =
    lift-then (unpack instruction_data) _ w e λ i unpacked e.
      elim (unpack-IsInstruction instruction_data bytes) [
        | inr (inl refusal) ↦ cc
        | inr (inr (panic, _)) ↦ cc
        | inl (j, unpacked', ranged) ↦
            let same : j ≡ i = cc in
            (dispatch-Refines laws accounts i (subst IsInstruction same ranged)).at p w w' tt h e
      ]
