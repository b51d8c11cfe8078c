-- ===== src/Processor/Deposit/Amounts.antt =====
-- What a deposit charges, and the tokens that it yields.
use bonfida_bot.Processor.Division.{div_or_panic-eq-ok}
use bonfida_bot.Processor.Fees.Split.{share_out-sum}
use native.Mathlib.Nat.{
  mul_comm, add-mul, mul-add, mul-le-mul_right, le_of_mul-le-mul_right, div-lt_iff_lt-mul,
  div-mul-le_self,
}
use bonfida_bot.Prelude.{ℕ, zero, suc, ◌+◌, ◌*◌, ◌^◌, ◌≤◌, ◌<◌, ◌≡◌, ◌/◌, arith}
use bonfida_bot.Outcome.{ok}
use bonfida_bot.Processor.Common.{sub_u64}
use bonfida_bot.Processor.Fees.{share_out}
use bonfida_bot.Processor.Deposit.{affordable, deposit_amount, pool_token_fee}

-- If the pool holds some of the asset and the source's bound fits into a u64, a deposit within
-- the bound charges the source no more than it holds.
pub deposit_amount-affordable :
    (source held supply effective paid : ℕ)
    → 0 < held
    → source * supply < 2 ^ 64 * held
    → effective ≤ affordable source supply held
    → deposit_amount effective held supply ≡ ok paid
    → paid ≤ source
unfolding affordable deposit_amount
deposit_amount-affordable source zero supply effective paid pos fits bound h = ground arith
deposit_amount-affordable source (suc n) supply effective paid pos fits bound h =
    let small : source * supply / suc n < 2 ^ 64 = (div-lt_iff_lt-mul (ground arith)).1 fits in
    let below : effective ≤ source * supply / suc n = omega arith in
    let charged : effective * suc n ≤ source * supply / suc n * suc n =
      mul-le-mul_right (suc n) below in
    let limit : source * supply / suc n * suc n ≤ source * supply = div-mul-le_self _ _ in
    let (some_supply, low, _) = div_or_panic-eq-ok (effective * suc n) supply paid h in
    le_of_mul-le-mul_right (omega arith) some_supply

-- What a deposit pays in, if its computation succeeds, is the asset's share for the new
-- tokens, rounded down: less than one unit of the asset is missing in the pool.
pub deposit_amount_share :
    (effective held supply paid : ℕ)
    → deposit_amount effective held supply ≡ ok paid
    → ((held + paid) * supply ≤ held * (supply + effective))
      × (held * (supply + effective) < (held + paid) * supply + supply)
unfolding deposit_amount
deposit_amount_share effective held supply paid h =
    let (_, low, high) = div_or_panic-eq-ok (effective * held) supply paid h in
    let left : (held + paid) * supply ≡ held * supply + paid * supply = add-mul held paid supply in
    let right : held * (supply + effective) ≡ held * supply + held * effective =
      mul-add held supply effective in
    let turned : held * effective ≡ effective * held = mul_comm held effective in
    (omega arith, omega arith)

pool_token_fee-lt :
    (fee_ratio effective : ℕ)
    → fee_ratio < 2 ^ 16
    → 0 < effective
    → pool_token_fee fee_ratio effective < effective
unfolding pool_token_fee
pool_token_fee-lt fee_ratio effective a b =
    let most : fee_ratio * effective ≤ 65535 * effective =
      mul-le-mul_right effective (omega arith) in
    omega arith

-- For a u16 fee ratio and a deposit of at least one token, a u64, the fee is less than the
-- deposit, and the depositor's tokens with the three shares of the fee are all of them.
pub pool_token_fee-sum :
    (fee_ratio effective : ℕ)
    → fee_ratio < 2 ^ 16
    → 0 < effective
    → effective < 2 ^ 64
    → (pool_token_fee fee_ratio effective < effective)
      × (sub_u64 effective (pool_token_fee fee_ratio effective)
            + (share_out (pool_token_fee fee_ratio effective)).signal_provider
            + (share_out (pool_token_fee fee_ratio effective)).bonfida_fee
            + (share_out (pool_token_fee fee_ratio effective)).bonfida_bnb
          ≡ effective)
pool_token_fee-sum fee_ratio effective a b c =
    let less = pool_token_fee-lt fee_ratio effective a b in
    let (sum, _, _) = share_out-sum (pool_token_fee fee_ratio effective) (omega arith) in
    (less, omega arith)
