-- ===== src/Processor/Fees/Clock.antt =====
-- When fees can be collected, and what a collection does to the clock.
use bonfida_bot.Processor.Common.{sub_u64, add_u64}
use bonfida_bot.Prelude.{
  ℕ, zero, suc, ◌+◌, ◌-◌, ◌*◌, ◌%◌, ◌^◌, ◌≤◌, ◌<◌, ◌≡◌, true, false, arith, subst,
}
use bonfida_bot.Outcome.{ok}
use bonfida_bot.State.{PoolHeader}
use bonfida_bot.Processor.Division.{div_or_panic-eq-ok, div_or_panic_small}
use bonfida_bot.Processor.Fees.{fee_cycles, collected_header}
use bonfida_bot.Processor.Redeem.{fees_are_due}

-- If fees are due and the cycles can be computed, at least one cycle can be collected.
pub fee_cycles_positive :
    (header : PoolHeader) (now cycles : ℕ)
    → fees_are_due header now ≡ true
    → fee_cycles header now ≡ ok cycles
    → 1 ≤ cycles
unfolding fee_cycles fees_are_due
fee_cycles_positive header now zero due h =
    let (_, _, b) =
      div_or_panic-eq-ok (sub_u64 now header.last_fee_collection_timestamp)
        header.fee_collection_period 0 h in
    ground arith
fee_cycles_positive header now (suc cycles) due h = ground arith

-- What is left after the cycles that were collected.
left_over :
    (last now period cycles : ℕ)
    → now < 2 ^ 64
    → last ≤ now
    → cycles * period ≤ now - last
    → now - last < cycles * period + period
    → (sub_u64 now (add_u64 last (cycles * period % 2 ^ 64)) < period)
      × (add_u64 last (cycles * period % 2 ^ 64) ≤ now)
left_over last now period cycles a b c d = ground arith

-- If the pool's clock is not ahead of the time, a u64, and some number of cycles is computed,
-- then after their collection the clock is still not ahead of the time, no further cycle is
-- found at that time, and no fees are due.
pub fee_cycles-collected_header :
    (header : PoolHeader) (now cycles : ℕ)
    → now < 2 ^ 64
    → header.last_fee_collection_timestamp ≤ now
    → fee_cycles header now ≡ ok cycles
    → ((collected_header header cycles).last_fee_collection_timestamp ≤ now)
      × (fee_cycles (collected_header header cycles) now ≡ ok 0)
      × (fees_are_due (collected_header header cycles) now ≡ false)
unfolding fee_cycles collected_header fees_are_due
fee_cycles-collected_header header now cycles a b h =
    let last = header.last_fee_collection_timestamp in
    let period = header.fee_collection_period in
    let (_, low, high) = div_or_panic-eq-ok (sub_u64 now last) period cycles h in
    let same : sub_u64 now last ≡ now - last = ground arith in
    let (small, kept) =
      left_over last now period cycles a b (subst (λ x. cycles * period ≤ x) same low)
        (subst (λ x. x < cycles * period + period) same high) in
    (kept, div_or_panic_small _ period small, ground arith)
