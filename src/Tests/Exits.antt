-- ===== src/Tests/Exits.antt =====
-- The entrypoint on the fixtures.
use bonfida_bot.Entrypoint
use Prim.Native.String.{String}
use bonfida_bot.Prelude.{List, [], ◌∷◌, ◌≡◌, refl, if◌then◌else◌, ◌==◌, arith}
use bonfida_bot.Outcome.{
  err, ProgramError, custom, BonfidaBotError, invalid_instruction, overflow, locked_operation,
  not_enough_fida, operation_too_small, to_program_error,
}
use bonfida_bot.Entrypoint.{print, process_instruction_unknown, process_instruction}
use bonfida_bot.Tests.Fixtures.{program_key, runtime, start}

-- The code of an error, decoded and printed.
abbrev decoded : (BonfidaBotError → List String) → ProgramError → List String
decoded show (custom n) =
    if n == 0
    then show invalid_instruction
    else if n == 1
    then show overflow
    else if n == 2
    then show locked_operation
    else if n == 3
    then show not_enough_fida
    else if n == 4
    then show operation_too_small
    else "Error: Unknown" ∷ []
decoded show _ = []

decoded-print : (e : BonfidaBotError) → decoded print (to_program_error e) ≡ print e
decoded-print invalid_instruction = refl
decoded-print overflow = refl
decoded-print locked_operation = refl
decoded-print not_enough_fida = refl
decoded-print operation_too_small = refl

process_instruction_unknown_example :
    Entrypoint.process_instruction decoded runtime program_key [] (9 ∷ 1 ∷ []) (start 0) ≡ record {
      messages = "Entrypoint" ∷ "Error: Invalid instruction!" ∷ [];
      result = err (custom 0);
    }
process_instruction_unknown_example =
    process_instruction_unknown decoded runtime program_key [] 9 (1 ∷ []) (start 0) decoded-print
      (omega arith, tt) (omega arith)
