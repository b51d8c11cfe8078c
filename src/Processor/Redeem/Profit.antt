-- ===== src/Processor/Redeem/Profit.antt =====
-- Buying into a pool and leaving it again, in one asset: `process_deposit`, then `process_redeem`.
use bonfida_bot.Processor.Redeem.Amounts.{redeem_amount_share}
use bonfida_bot.Processor.Division.{div_or_panic-eq-ok}
use bonfida_bot.Prelude.{ℕ, ◌+◌, ◌*◌, ◌≤◌, ◌<◌, ◌≡◌, arith}
use bonfida_bot.Outcome.{ok}
use bonfida_bot.Processor.Deposit.{deposit_amount}
use bonfida_bot.Processor.Redeem.{redeem_amount}
use bonfida_bot.Processor.Deposit.Amounts.{deposit_amount_share}
use native.Mathlib.Nat.{
  mul_assoc, mul_right_comm, add-mul, mul-le-mul_left, mul-le-mul_right, le_of_mul-le-mul_right,
  lt_of_mul-lt-mul_right, le_trans,
}

-- With what the pool holds and the supply after the deposit.
out_bound :
    (e held supply held' supply' out : ℕ)
    → 0 < supply'
    → held' * supply ≤ held * supply'
    → out * supply' ≤ e * held'
    → out * supply ≤ e * held
out_bound e held supply held' supply' out pos diluted drawn =
    let drawn' : out * supply' * supply ≤ e * held' * supply = mul-le-mul_right supply drawn in
    let diluted' : e * (held' * supply) ≤ e * (held * supply') = mul-le-mul_left e diluted in
    let left : out * supply' * supply ≡ out * supply * supply' =
      mul_right_comm out supply' supply in
    let middle : e * held' * supply ≡ e * (held' * supply) = mul_assoc e held' supply in
    let right : e * held * supply' ≡ e * (held * supply') = mul_assoc e held supply' in
    let scaled : out * supply * supply' ≤ e * held * supply' = omega arith in
    le_of_mul-le-mul_right scaled pos

-- If both computations succeed: whoever pays in an asset for pool tokens and then redeems these
-- tokens, or fewer, gets no more of the asset back than was paid.
pub redeem_amount-le-deposit_amount :
    (e held supply paid amount out : ℕ)
    → deposit_amount e held supply ≡ ok paid
    → amount ≤ e
    → redeem_amount amount (held + paid) (supply + e) ≡ ok out
    → out ≤ paid
unfolding deposit_amount
redeem_amount-le-deposit_amount e held supply paid amount out bought part redeemed =
    let (pos, low, high) = div_or_panic-eq-ok (e * held) supply paid bought in
    let (diluted, _) = deposit_amount_share e held supply paid bought in
    let (drawn, _, _, _) =
      redeem_amount_share amount (held + paid) (supply + e) out (omega arith) redeemed in
    let fewer : amount * (held + paid) ≤ e * (held + paid) = mul-le-mul_right (held + paid) part in
    let bound =
      out_bound e held supply (held + paid) (supply + e) out (omega arith) diluted
        (le_trans drawn fewer) in
    let less : out * supply < (paid + 1) * supply = omega (arith, add-mul paid 1 supply) in
    let strict = lt_of_mul-lt-mul_right supply less in omega arith
