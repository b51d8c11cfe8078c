-- ===== src/Processor/Instructions.antt =====
-- From the bytes of an instruction to its handler.
use bonfida_bot.Prelude.{◌≡◌, refl, List}
use bonfida_bot.State.{Pubkey}
use bonfida_bot.Instruction.{PoolInstruction}
use bonfida_bot.Runtime.{Runtime, AccountInfo, World}
use bonfida_bot.Instruction.Format.{pack}
use bonfida_bot.Instruction.Range.{IsInstruction}
use bonfida_bot.Instruction.RoundTrip.{unpack-pack}
use bonfida_bot.Processor.Dispatch.{dispatch, process_instruction}

module _ (rt : Runtime) (program_id : Pubkey) where
  -- Given the bytes of an instruction whose fields are in range, the program runs the
  -- instruction's handler on its arguments.
  pub process_instruction-pack :
      (accounts : List AccountInfo) (i : PoolInstruction) (w : World)
      → IsInstruction i
      → (process_instruction rt program_id accounts (pack i) w
          ≡ dispatch rt program_id accounts i w)
  unfolding process_instruction
  process_instruction-pack accounts i w v = rw (unpack-pack i v) refl
