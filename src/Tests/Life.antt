-- ===== src/Tests/Life.antt =====
-- A run of the program on the pool of the fixtures, and the invariants at it.
use bonfida_bot.Pool.Front.{ok-inj}
use bonfida_bot.Runtime.{Instruction, AccountInfo, Ledger}
use bonfida_bot.Prelude.{
  ◌≡◌, refl, All, ◌∷◌, ◌⊎◌, true, length, arith, ◌^◌, ◌%◌, ◌∙◌, ◌++◌, ap, sym, Bool-cases, inl, inr,
  ◌≢◌, List,
}
use bonfida_bot.Outcome.{ok}
use bonfida_bot.Bytes.{Bytes, IsByte, from_le_bytes, eq_bytes, eq_bytes_iff}
use bonfida_bot.State.{is_initialized}
use bonfida_bot.State.Header.{IsHeader-IsSized}
use bonfida_bot.Instruction.{collect_fees}
use bonfida_bot.Instruction.Format.{pack}
use bonfida_bot.Processor.Dispatch.{process_instruction, dispatch}
use bonfida_bot.Processor.Instructions.{process_instruction-pack}
use bonfida_bot.Tests.Fixtures.{key, program_key, pool_key, runtime, header, start}
use bonfida_bot.Tests.Ranges.{key_IsArray, header-IsHeader}
use bonfida_bot.Tests.Collect.{collect_infos, collected_world, collected_runs}
use bonfida_bot.Pool.Frame.{IsRuntime}
use bonfida_bot.Pool.Step.{Pool, Step}
use bonfida_bot.Pool.Moves.{HoldsPool}
use bonfida_bot.Pool.Terms.{SameTerms, IsFree}
use bonfida_bot.Pool.Life.{Run, WasEmptied, Run-SameTerms, Run-IsFree}
use bonfida_bot.Pool.Refine.Program.{process_instruction-Step}

-- Its calls of other programs succeed and change nothing.
call-cases :
    (i : Instruction) (infos : List AccountInfo) (seeds : List (List Bytes))
    (ledger ledger' : Ledger)
    → runtime.invoke_signed i infos seeds ledger ≡ ok ledger'
    → (i.program_id ≢ program_key) × (ledger ≡ ledger')
call-cases i infos seeds ledger ledger' e = elim (Bool-cases (eq_bytes i.program_id program_key)) [
  | inl own ↦ let e' = rw own at e in cc
  | inr apart ↦
      let e' = rw apart at e in
      (λ same. let yes = (eq_bytes_iff i.program_id program_key).1 same in cc, ok-inj e')
]

pub runtime-IsRuntime : IsRuntime runtime program_key
runtime-IsRuntime = record {
  calls_others = λ i infos seeds ledger ledger' e. (call-cases i infos seeds ledger ledger' e).0;
  keeps_accounts = λ i infos seeds ledger ledger' k other e owner.
      let same = (call-cases i infos seeds ledger ledger' e).1 in
      (ap (λ l. (l k).owner) (sym same) ∙ owner, ap (λ l. (l k).bytes) (sym same));
  time_fits =
      λ info state now e. let same : from_le_bytes state.bytes % 2 ^ 64 ≡ now = cc in omega arith;
}

abbrev pool : Pool
pool = record { header = header; rest = key 8 ++ key 7 }

pool-HoldsPool : HoldsPool program_key pool_key pool (start 1900000)
pool-HoldsPool = record {
  sized = IsHeader-IsSized header header-IsHeader;
  held = record { owner = refl; content = refl };
}

abbrev input : Bytes
input = 7 ∷ pool_key

input-All : All IsByte input
input-All = (omega arith, (key_IsArray 2 (omega arith)).bytes)

input_runs :
    process_instruction runtime program_key collect_infos input (start 1900000)
    ≡ ok (tt, collected_world)
unfolding dispatch pack
input_runs =
    process_instruction-pack runtime program_key collect_infos (collect_fees pool_key)
      (start 1900000) refl
    ∙ collected_runs

process_instruction-Step_example :
    (p' : Pool) × Step pool p' × HoldsPool program_key pool_key p' collected_world
process_instruction-Step_example =
    process_instruction-Step runtime program_key pool_key collect_infos input pool (start 1900000)
      collected_world runtime-IsRuntime input-All pool-HoldsPool input_runs

-- Other programs do something else first.
run : Run runtime program_key (start 1900000) collected_world
run =
    Run.other (start 1900000) (start 1900000) collected_world (λ k owner. (owner, refl))
      (Run.instruction collect_infos input (start 1900000) collected_world collected_world input-All
        input_runs (Run.done collected_world))

Run-SameTerms_example :
    (p' : Pool) × HoldsPool program_key pool_key p' collected_world
    × (length pool.rest ≡ length p'.rest)
    × ((SameTerms pool p' × (is_initialized p'.header ≡ true))
        ⊎ WasEmptied program_key pool_key pool run)
unfolding is_initialized
Run-SameTerms_example =
    Run-SameTerms runtime program_key pool_key pool (start 1900000) collected_world
      runtime-IsRuntime run pool-HoldsPool refl

Run-IsFree_example :
    (p' : Pool) × HoldsPool program_key pool_key p' collected_world × IsFree p'.header.status
Run-IsFree_example =
    Run-IsFree runtime program_key pool_key pool (start 1900000) collected_world runtime-IsRuntime
      run pool-HoldsPool (IsFree.open_to_all refl)
