-- ===== src/Processor/Redeem/Amounts.antt =====
-- What a redemption pays out of one asset.
use bonfida_bot.Prelude.{ℕ, zero, suc, ◌+◌, ◌-◌, ◌*◌, ◌^◌, ◌≤◌, ◌<◌, ◌≡◌, arith, ◌/◌, ◌∙◌}
use bonfida_bot.Outcome.{ok}
use bonfida_bot.Processor.Common.{div_or_panic}
use bonfida_bot.Processor.Division.{div_or_panic-eq-ok}
use bonfida_bot.Processor.Redeem.{redeem_amount}
use native.Mathlib.Nat.{
  mul-div_cancel_left, mul_comm, mul-sub, mul-le-mul_right, le_of_mul-le-mul_right,
}

redeem_amount-div :
    (amount held supply paid : ℕ)
    → redeem_amount amount held supply ≡ ok paid
    → (div_or_panic (amount * held) supply ≡ ok paid) × (paid < 2 ^ 64)
unfolding redeem_amount
redeem_amount-div amount held zero paid h = ground arith
redeem_amount-div amount held (suc n) paid h = ground arith

-- If at most the supply is redeemed and the computation succeeds, the amount paid is the
-- asset's share, rounded down: never more than the share, less than one unit below it, never
-- more than the pool holds, and a u64.
pub redeem_amount_share :
    (amount held supply paid : ℕ)
    → amount ≤ supply
    → redeem_amount amount held supply ≡ ok paid
    → (paid * supply ≤ amount * held)
      × (amount * held < paid * supply + supply)
      × (paid ≤ held)
      × (paid < 2 ^ 64)
redeem_amount_share amount held supply paid part h =
    let (d, fits) = redeem_amount-div amount held supply paid h in
    let (pos, low, high) = div_or_panic-eq-ok (amount * held) supply paid d in
    let bound : amount * held ≤ supply * held = mul-le-mul_right held part in
    let turned : supply * held ≡ held * supply = mul_comm supply held in
    let below : paid * supply ≤ held * supply = omega arith in
    (low, high, le_of_mul-le-mul_right below pos, fits)

-- If at most the supply is redeemed and the computation succeeds, the redemption takes nothing
-- from the other holders: each remaining token stands for at least as much of the asset as
-- before.
pub redeem_amount_fair :
    (amount held supply paid : ℕ)
    → amount ≤ supply
    → redeem_amount amount held supply ≡ ok paid
    → held * (supply - amount) ≤ (held - paid) * supply
redeem_amount_fair amount held supply paid part h =
    let (low, _, _, _) = redeem_amount_share amount held supply paid part h in
    let left : held * (supply - amount) ≡ held * supply - held * amount =
      mul-sub held supply amount in
    let right : (held - paid) * supply ≡ held * supply - paid * supply =
      mul_comm _ supply ∙ mul-sub supply held paid ∙ omega arith in
    let turned : held * amount ≡ amount * held = mul_comm held amount in omega arith

-- Whoever redeems all pool tokens, of which there is at least one, is paid the whole asset, if
-- the pool's amount is a u64.
pub redeem_amount_all :
    (supply held : ℕ) → 0 < supply → held < 2 ^ 64 → redeem_amount supply held supply ≡ ok held
unfolding redeem_amount
redeem_amount_all zero held pos fits = ground arith
redeem_amount_all (suc n) held pos fits =
    let whole : suc n * held / suc n ≡ held = mul-div_cancel_left held pos in ground arith
