-- ===== src/Entrypoint.antt =====
-- program/src/entrypoint.rs: the function that the runtime calls, and the messages for the
-- program's errors. `ProgramError::print::<BonfidaBotError>` of solana_program, which decodes the
-- code of an error and calls `BonfidaBotError::print`, is a parameter.
use bonfida_bot.Instruction.Total.{unpack_unknown}
use bonfida_bot.Processor.Dispatch
use Prim.Native.String.{String}
use bonfida_bot.Prelude.{List, [], ◌∷◌, ℕ, ◌<◌, ◌∙◌, All, ◌≡◌, refl, ap}
use bonfida_bot.Outcome.{
  Result, ok, err, panicked, BonfidaBotError, ProgramError, invalid_instruction, overflow,
  locked_operation, not_enough_fida, operation_too_small, custom, to_program_error,
}
use bonfida_bot.Bytes.{Bytes, IsByte}
use bonfida_bot.State.{Pubkey}
use bonfida_bot.Runtime.{Runtime, World, AccountInfo}

-- `BonfidaBotError::print`: the messages that it logs.
unfoldable pub print : BonfidaBotError → List String
print invalid_instruction = "Error: Invalid instruction!" ∷ []
print overflow = "Error: Arithmetic operation overflow!" ∷ []
print locked_operation = "Error: Operation is locked in the current pool state!" ∷ []
print not_enough_fida = "Error: Pool must contain a minimum amount of FIDA tokens" ∷ []
print operation_too_small = "Error: Operation was too small" ∷ []

-- What a program gives back to the runtime, with the messages that the entrypoint logs itself.
pub record Exit : Type 0 where
  pub messages : List String
  pub result : Result (Unit {0} × World)

module _ (print_program_error : (BonfidaBotError → List String) → ProgramError → List String) where
  -- `if let Err(error) = … { error.print::<BonfidaBotError>(); return Err(error); } Ok(())`
  abbrev pub exit_of : Result (Unit {0} × World) → Exit
  exit_of (ok done) = record { messages = "Entrypoint" ∷ []; result = ok done }
  exit_of (err error) = record {
    messages = "Entrypoint" ∷ print_program_error print error;
    result = err error;
  }
  exit_of panicked = record { messages = "Entrypoint" ∷ []; result = panicked }

  unfoldable pub process_instruction : Runtime → Pubkey → List AccountInfo → Bytes → World → Exit
  process_instruction rt program_id accounts instruction_data w =
      exit_of (Dispatch.process_instruction rt program_id accounts instruction_data w)

  -- If printing one of the program's errors prints its message: whatever the accounts are, an
  -- instruction with a tag above 7 is answered with the error Custom(0), and the messages that the
  -- entrypoint logs are `Entrypoint` and `Error: Invalid instruction!`.
  pub process_instruction_unknown :
      (rt : Runtime) (program_id : Pubkey) (accounts : List AccountInfo) (tag : ℕ) (rest : Bytes)
      (w : World)
      → ((e : BonfidaBotError) → print_program_error print (to_program_error e) ≡ print e)
      → All IsByte rest
      → 7 < tag
      → process_instruction rt program_id accounts (tag ∷ rest) w ≡ record {
        messages = "Entrypoint" ∷ "Error: Invalid instruction!" ∷ [];
        result = err (custom 0);
      }
  unfolding process_instruction Dispatch.process_instruction print
  process_instruction_unknown rt program_id accounts tag rest w law bytes unknown =
      let refusal : Dispatch.process_instruction rt program_id accounts (tag ∷ rest) w
          ≡ err (custom 0) =
        rw (unpack_unknown rest bytes tag unknown) refl in
      ap exit_of refusal
      ∙ ap (λ l. record { messages = "Entrypoint" ∷ l; result = err (custom 0) })
          (law invalid_instruction)
