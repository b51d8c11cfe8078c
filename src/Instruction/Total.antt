-- ===== src/Instruction/Total.antt =====
-- `PoolInstruction::unpack` on any bytes: what it returns is an instruction whose fields are in
-- range, or an error, and it panics only where `unwrap` meets a seed that is too short.
use bonfida_bot.Instruction.Arms.{
  unpack_create_order-Reads, unpack_init-Reads, unpack_create-Reads, unpack_deposit-Reads,
  unpack_cancel_order-Reads, unpack_settle_funds-Reads, unpack_redeem-Reads,
  unpack_collect_fees-Reads,
}
use bonfida_bot.Prelude.{
  ◌≤◌, refl, arith, length, All, ◌==◌, ◌<◌, ◌≢◌, ◌⊎◌, ℕ, ◌≡◌, ◌∷◌, ◌↔◌, sym, subst, [], inl, inr,
}
use bonfida_bot.Outcome.{panicked, Result, err, ok}
use bonfida_bot.Bytes.{Bytes, IsByte, slice_out_of_range}
use bonfida_bot.Instruction.Defs.{PoolInstruction}
use bonfida_bot.Instruction.Range.{IsInstruction}
use bonfida_bot.Instruction.Readers.{Reads, value, Reads-if, refused}
use bonfida_bot.Instruction.Unpack.{
  read_seed, unpack_init, unpack_create, unpack_deposit, unpack_create_order, unpack_cancel_order,
  unpack_settle_funds, unpack_redeem, unpack_collect_fees, unpack, bad,
}

module _ (rest : Bytes) (bytes : All IsByte rest) where
  unpack-Reads : (tag : ℕ) → 32 ≤ length rest → Reads IsInstruction (unpack (tag ∷ rest))
  unfolding unpack
  unpack-Reads tag long = Reads-if (tag == 0) _ _ (unpack_init-Reads rest bytes long) (
      Reads-if (tag == 1) _ _ (unpack_create-Reads rest bytes long) (
        Reads-if (tag == 2) _ _ (unpack_deposit-Reads rest bytes long) (
          Reads-if (tag == 3) _ _ (unpack_create_order-Reads rest bytes) (
            Reads-if (tag == 4) _ _ (unpack_cancel_order-Reads rest bytes long) (
              Reads-if (tag == 5) _ _ (unpack_settle_funds-Reads rest bytes long) (
                Reads-if (tag == 6) _ _ (unpack_redeem-Reads rest bytes long) (
                  Reads-if (tag == 7) _ _ (unpack_collect_fees-Reads rest bytes long)
                    (refused refl))))))))

  read_seed_short : length rest < 32 → read_seed rest ≡ panicked
  unfolding read_seed
  read_seed_short short = rw (slice_out_of_range 0 32 rest short) refl

  -- The tags of the instructions that begin with a seed that is unwrapped.
  abbrev UnwrapsSeed : ℕ → Type 0
  UnwrapsSeed tag = (tag ≤ 7) × (tag ≢ 3)

  unpack_short : (tag : ℕ) → UnwrapsSeed tag → length rest < 32 → unpack (tag ∷ rest) ≡ panicked
  unfolding unpack unpack_init unpack_create unpack_deposit unpack_cancel_order unpack_settle_funds
      unpack_redeem unpack_collect_fees
  unpack_short tag (small, other) short = let seed = read_seed_short short in ground arith

  pub unpack_unknown : (tag : ℕ) → 7 < tag → unpack (tag ∷ rest) ≡ err bad
  unfolding unpack
  unpack_unknown tag big = ground arith

  unpack_order : unpack (3 ∷ rest) ≡ unpack_create_order rest
  unfolding unpack
  unpack_order = refl

seed-cases : (tag n : ℕ) → (32 ≤ n) ⊎ (tag ≡ 3) ⊎ (7 < tag) ⊎ ((n < 32) × (tag ≤ 7) × (tag ≢ 3))
seed-cases tag n = grind arith

-- Either the seed is cut short, or the bytes are unpacked without a panic.
unpack-cases :
    (tag : ℕ) (rest : Bytes)
    → All IsByte rest
    → Reads IsInstruction (unpack (tag ∷ rest)) ⊎ ((length rest < 32) × (tag ≤ 7) × (tag ≢ 3))
unpack-cases tag rest bytes = elim (seed-cases tag (length rest)) [
  | inl long ↦ inl (unpack-Reads rest bytes tag long)
  | inr (inl three) ↦ inl (
      subst (λ t. Reads IsInstruction (unpack (t ∷ rest))) (sym three)
        (subst (Reads IsInstruction) (sym (unpack_order rest bytes))
          (unpack_create_order-Reads rest bytes)))
  | inr (inr (inl unknown)) ↦ inl (refused (unpack_unknown rest bytes tag unknown))
  | inr (inr (inr cut_short)) ↦ inr cut_short
]

Reads-panicked : {A : Type 0} {P : A → Type 0} (r : Result A) → Reads P r → r ≢ panicked
Reads-panicked r (refused e) h = cc
Reads-panicked r (value a e p) h = cc

as_sum :
    {A : Type 0} {P : A → Type 0} (r : Result A)
    → Reads P r
    → ((a : A) × (r ≡ ok a) × P a) ⊎ (r ≡ err bad)
as_sum r (value a e p) = inl (a, e, p)
as_sum r (refused e) = inr e

-- Unpacking a tag and bytes behind it panics exactly when the instruction is one of the seven
-- whose seed is unwrapped, and fewer than 32 bytes stand behind the tag.
pub unpack-eq-panicked :
    (tag : ℕ) (rest : Bytes)
    → All IsByte rest
    → (unpack (tag ∷ rest) ≡ panicked) ↔ ((length rest < 32) × (tag ≤ 7) × (tag ≢ 3))
unpack-eq-panicked tag rest bytes = (
  λ h. elim (unpack-cases tag rest bytes) [
    | inl reads ↦ absurd (Reads-panicked (unpack (tag ∷ rest)) reads h)
    | inr cut_short ↦ cut_short
  ],
  λ (short, small, other). unpack_short rest bytes tag (small, other) short,
)

-- The bytes are those of one of the seven instructions whose seed is unwrapped, but fewer than 32
-- bytes stand behind the tag.
pub record IsCutShort (input : Bytes) : Type 0 where
  pub tag : ℕ
  pub rest : Bytes
  pub input_is : input ≡ tag ∷ rest
  pub seed_is_unwrapped : (tag ≤ 7) × (tag ≢ 3)
  pub too_short : length rest < 32

-- Whatever bytes are given, unpacking yields an instruction whose fields are in range, or refuses
-- them as invalid, or panics, and then they are those of one of the seven instructions whose seed
-- is unwrapped, and fewer than 32 bytes stand behind the tag.
pub unpack-IsInstruction :
    (input : Bytes)
    → All IsByte input
    → ((i : PoolInstruction) × (unpack input ≡ ok i) × IsInstruction i)
      ⊎ (unpack input ≡ err bad)
      ⊎ ((unpack input ≡ panicked) × IsCutShort input)
unfolding unpack
unpack-IsInstruction [] bytes = inr (inl refl)
unpack-IsInstruction (tag ∷ rest) (_, bytes) = elim (unpack-cases tag rest bytes) [
  | inl reads ↦ elim (as_sum (unpack (tag ∷ rest)) reads) [
    | inl read ↦ inl read
    | inr refusal ↦ inr (inl refusal)
  ]
  | inr (short, small, other) ↦ inr (
      inr (
        unpack_short rest bytes tag (small, other) short,
        record {
          tag = tag;
          rest = rest;
          input_is = refl;
          seed_is_unwrapped = (small, other);
          too_short = short;
        },
      ))
]
