-- ===== src/Instruction/Amounts.antt =====
-- The loop over the deposit amounts in `PoolInstruction::unpack` ends.
use mathlib.Core.Option
use bonfida_bot.Prelude.{
  ℕ, ◌+◌, ◌^◌, ◌≤◌, ◌<◌, ◌≡◌, some, List, [], arith, length, All, Option-cases, inl, inr, ◌∙◌, ◌∷◌,
  zero, suc, refl, none, ap, sym,
}
use bonfida_bot.Bytes.{
  Bytes, IsByte, slice, from_le_bytes, from_le_bytes-lt, slice_in_range, slice_out_of_range,
}
use bonfida_bot.Instruction.Unpack.{read_amounts}

slice-bound : (lo hi : ℕ) (xs part : Bytes) → slice lo hi xs ≡ some part → hi ≤ length xs
unfolding slice
slice-bound lo hi xs part e = ground arith

-- A range that is read has its width.
pub length-slice :
    (lo hi k : ℕ) (xs part : Bytes)
    → All IsByte xs
    → lo + k ≡ hi
    → slice lo hi xs ≡ some part
    → length part ≡ k
length-slice lo hi k xs part bytes width e =
    let (part', e', a) =
      slice_in_range lo hi xs (omega arith) (slice-bound lo hi xs part e) bytes in
    let same : part' ≡ part = cc in ap length (sym same) ∙ omega (arith, a.size)

-- A range of known width holds an integer of that width.
pub from_le_bytes-slice :
    (lo hi k : ℕ) (xs part : Bytes)
    → All IsByte xs
    → lo + k ≡ hi
    → slice lo hi xs ≡ some part
    → from_le_bytes part < 256 ^ k
from_le_bytes-slice lo hi k xs part bytes width e =
    let (part', e', a) =
      slice_in_range lo hi xs (omega arith) (slice-bound lo hi xs part e) bytes in
    let same : part' ≡ part = cc in
    let size : length part' ≡ k = omega (arith, a.size) in
    rw (size, same) at (from_le_bytes-lt part' a.bytes)

pub read_amounts_more :
    (fuel k : ℕ) (rest part : Bytes)
    → 0 < k
    → slice k (k + 8) rest ≡ some part
    → read_amounts (suc fuel) k rest
      ≡ Option.map (λ l. from_le_bytes part ∷ l) (read_amounts fuel (k + 8) rest)
unfolding read_amounts
read_amounts_more fuel k rest part pos e = ground arith

pub read_amounts_end :
    (fuel k : ℕ) (rest : Bytes)
    → 0 < k
    → slice k (k + 8) rest ≡ none
    → read_amounts (suc (suc fuel)) k rest ≡ some []
unfolding read_amounts
read_amounts_end fuel k rest pos e = ground arith

past_end :
    (fuel k : ℕ) (rest : Bytes)
    → 0 < k
    → 2 ≤ fuel
    → slice k (k + 8) rest ≡ none
    → read_amounts fuel k rest ≡ some []
past_end zero k rest pos two e = absurd (omega arith)
past_end (suc zero) k rest pos two e = absurd (omega arith)
past_end (suc (suc fuel)) k rest pos two e = read_amounts_end fuel k rest pos e

one_more :
    (fuel k : ℕ) (rest part : Bytes) (amounts : List ℕ)
    → 0 < k
    → 1 ≤ fuel
    → slice k (k + 8) rest ≡ some part
    → ((less : ℕ) → less + 1 ≡ fuel → read_amounts less (k + 8) rest ≡ some amounts)
    → read_amounts fuel k rest ≡ some (from_le_bytes part ∷ amounts)
one_more zero k rest part amounts pos one e h = absurd (omega arith)
one_more (suc fuel) k rest part amounts pos one e h =
    read_amounts_more fuel k rest part pos e ∙ rw (h fuel (omega arith)) refl

-- From an offset that is not 0, the loop over the deposit amounts ends after at most as many
-- rounds as there are bytes left, and two: with any fuel from there on it reads the same amounts,
-- which are in range.
pub read_amounts_ends :
    (n k : ℕ) (rest : Bytes)
    → All IsByte rest
    → 0 < k
    → length rest + 2 ≤ k + n
    → (amounts : List ℕ) × All (λ a. a < 2 ^ 64) amounts
      × ((fuel : ℕ) → n ≤ fuel → 2 ≤ fuel → read_amounts fuel k rest ≡ some amounts)
read_amounts_ends zero k rest bytes pos enough = (
  [],
  tt,
  λ fuel more two. past_end fuel k rest pos two (slice_out_of_range k (k + 8) rest (omega arith)),
)
read_amounts_ends (suc n) k rest bytes pos enough = elim (Option-cases (slice k (k + 8) rest)) [
  | inl past ↦ ([], tt, λ fuel more two. past_end fuel k rest pos two past)
  | inr (part, there) ↦
      let (amounts, ranged, reads) =
        read_amounts_ends n (k + 8) rest bytes (omega arith) (omega arith) in
      (
        from_le_bytes part ∷ amounts,
        (from_le_bytes-slice k (k + 8) 8 rest part bytes refl there, ranged),
        λ fuel more two. one_more fuel k rest part amounts pos (omega arith) there (λ less e.
            reads less (omega arith) (omega (arith, slice-bound k (k + 8) rest part there))),
      )
]
