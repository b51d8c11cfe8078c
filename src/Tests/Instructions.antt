-- ===== src/Tests/Instructions.antt =====
-- The bytes of instructions, read back.
use bonfida_bot.Tests.Ranges.{All-append, key_bytes, All-replicate}
use bonfida_bot.Prelude.{
  ℕ, ◌≡◌, ◌≢◌, ◌⊎◌, ◌↔◌, ◌≤◌, ◌<◌, ◌^◌, refl, All, List, [], ◌∷◌, ◌++◌, some, length, arith,
  replicate,
}
use bonfida_bot.Outcome.{ok, err, panicked}
use bonfida_bot.Bytes.{Bytes, IsByte, slice, from_le_bytes}
use bonfida_bot.Instruction.{PoolInstruction, deposit}
use bonfida_bot.Instruction.Range.{IsInstruction}
use bonfida_bot.Instruction.Amounts.{read_amounts_ends}
use bonfida_bot.Instruction.Total.{unpack-eq-panicked, unpack-IsInstruction, IsCutShort}
use bonfida_bot.Instruction.Unpack.{bad, read_amounts, unpack, unpack_deposit, read_seed, read_le}
use bonfida_bot.Tests.Fixtures.{key}

-- A seed, and then 20 bytes.
abbrev two_amounts : Bytes
two_amounts = key 2 ++ replicate 20 1

two_amounts-All : All IsByte two_amounts
two_amounts-All =
    All-append (key 2) (replicate 20 1) (key_bytes 2 (omega arith))
      (All-replicate 20 1 (omega arith))

read_amounts_ends_example :
    (amounts : List ℕ) × All (λ a. a < 2 ^ 64) amounts
    × ((fuel : ℕ) → 22 ≤ fuel → 2 ≤ fuel → read_amounts fuel 32 two_amounts ≡ some amounts)
read_amounts_ends_example =
    read_amounts_ends 22 32 two_amounts two_amounts-All (omega arith) (omega arith)

abbrev cut_short : Bytes
cut_short = 5 ∷ []

abbrev deposit_tag : ℕ
deposit_tag = 2

unpack-eq-panicked_example :
    (unpack (deposit_tag ∷ cut_short) ≡ panicked)
    ↔ ((length cut_short < 32) × (deposit_tag ≤ 7) × (deposit_tag ≢ 3))
unpack-eq-panicked_example = unpack-eq-panicked deposit_tag cut_short (omega arith, tt)

abbrev deposit_input : Bytes
deposit_input = 2 ∷ (key 2 ++ (100 ∷ 0 ∷ 0 ∷ 0 ∷ 0 ∷ 0 ∷ 0 ∷ 0 ∷ []))

deposit_input-All : All IsByte deposit_input
deposit_input-All = (
  omega arith,
  All-append (key 2) (100 ∷ replicate 7 0) (key_bytes 2 (omega arith))
      (omega arith, All-replicate 7 0 (omega arith)),
)

deposit_input-unpacks : unpack deposit_input ≡ ok (deposit (key 2) 100)
unfolding unpack unpack_deposit read_seed read_le slice from_le_bytes
deposit_input-unpacks = refl

unpack-IsInstruction_example :
    ((i : PoolInstruction) × (unpack deposit_input ≡ ok i) × IsInstruction i)
    ⊎ (unpack deposit_input ≡ err bad)
    ⊎ ((unpack deposit_input ≡ panicked) × IsCutShort deposit_input)
unpack-IsInstruction_example = unpack-IsInstruction deposit_input deposit_input-All
