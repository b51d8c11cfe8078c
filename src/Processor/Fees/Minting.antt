-- ===== src/Processor/Fees/Minting.antt =====
-- How many tokens a collection mints.
use bonfida_bot.Processor.Common.{div_or_panic}
use native.Mathlib.Nat.{mul-add, mod-eq_of_lt, div-lt_iff_lt-mul}
use bonfida_bot.Prelude.{
  ℕ, zero, suc, ◌+◌, ◌*◌, ◌/◌, ◌%◌, ◌^◌, ◌≤◌, ◌<◌, ◌≡◌, refl, sym, ap, ◌∙◌, ◌↔◌, arith,
}
use bonfida_bot.Outcome.{ok, panicked}
use bonfida_bot.Processor.Fees.{tokens_to_mint, not_u16}
use bonfida_bot.Processor.Division.{div_or_panic-eq-ok}

-- The tokens to mint are computed by a division that panics exactly for a feeless ratio of 0.
pub tokens_to_mint-eq-panicked :
    (feeless total : ℕ) → (tokens_to_mint feeless total ≡ panicked) ↔ (feeless ≡ 0)
unfolding tokens_to_mint
tokens_to_mint-eq-panicked zero total = (λ h. refl, λ h. refl)
tokens_to_mint-eq-panicked (suc n) total = ((λ h. cc), λ h. cc)

-- Otherwise they are this many.
pub tokens_to_mint-eq-ok :
    (feeless total : ℕ)
    → 0 < feeless
    → tokens_to_mint feeless total ≡ ok (not_u16 feeless * total / feeless % 2 ^ 64)
unfolding tokens_to_mint
tokens_to_mint-eq-ok zero total pos = absurd (omega arith)
tokens_to_mint-eq-ok (suc n) total pos = refl

unwrapped :
    (feeless total tokens : ℕ)
    → not_u16 feeless * total < 2 ^ 64 * feeless
    → tokens_to_mint feeless total ≡ ok tokens
    → div_or_panic (not_u16 feeless * total) feeless ≡ ok tokens
unfolding tokens_to_mint
unwrapped zero total tokens b h = cc
unwrapped (suc n) total tokens b h =
    let fits : not_u16 (suc n) * total / suc n < 2 ^ 64 = (div-lt_iff_lt-mul (ground arith)).1 b in
    let same : not_u16 (suc n) * total / suc n % 2 ^ 64 ≡ tokens = cc in
    ap ok (sym (mod-eq_of_lt fits) ∙ same)

-- For a feeless ratio that is a u16, and if the tokens to mint fit into a u64, they are the
-- share of the collected fees in all tokens afterwards, rounded down.
pub tokens_to_mint_share :
    (feeless total tokens : ℕ)
    → feeless < 2 ^ 16
    → not_u16 feeless * total < 2 ^ 64 * feeless
    → tokens_to_mint feeless total ≡ ok tokens
    → (tokens * 65535 ≤ not_u16 feeless * (tokens + total))
      × (not_u16 feeless * (tokens + total) < tokens * 65535 + feeless)
tokens_to_mint_share feeless total tokens a b h =
    let (_, low, high) =
      div_or_panic-eq-ok (not_u16 feeless * total) feeless tokens
        (unwrapped feeless total tokens b h) in
    let split : not_u16 feeless + feeless ≡ 65535 = ground arith in
    let whole : tokens * not_u16 feeless + tokens * feeless ≡ tokens * 65535 =
      sym (mul-add tokens _ _) ∙ ap (λ x. tokens * x) split in
    ground arith
