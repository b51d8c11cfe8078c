-- ===== src/Tests/Amounts.antt =====
-- The arithmetic of the handlers at concrete numbers.
use bonfida_bot.Processor.Redeem.Profit.{redeem_amount-le-deposit_amount}
use bonfida_bot.State.Status.{IsStatus}
use bonfida_bot.Prelude.{suc, ◌+◌, ◌-◌, ◌*◌, ◌^◌, ◌≤◌, ◌<◌, ◌≡◌, refl, ◌↔◌, true, false, arith}
use bonfida_bot.Outcome.{ok, invalid_account_data, err}
use bonfida_bot.State.{PoolStatus, locked, locked_pending_order}
use bonfida_bot.Tests.Fixtures.{header}
use bonfida_bot.Utils.{pow_fixedpoint_u16}
use bonfida_bot.Utils.Power.{pow_fixedpoint_u16-Approximates, Approximates}
use bonfida_bot.Processor.Common.{sub_u64}
use bonfida_bot.Processor.Fees.{share_out, fee_cycles, not_u16, tokens_to_mint, collected_header}
use bonfida_bot.Processor.Fees.Clock.{fee_cycles-collected_header, fee_cycles_positive}
use bonfida_bot.Processor.Fees.Minting.{tokens_to_mint_share}
use bonfida_bot.Processor.Redeem.{fees_are_due, redeem_amount, has_pending_orders}
use bonfida_bot.Processor.Redeem.Amounts.{
  redeem_amount_share, redeem_amount_fair, redeem_amount_all,
}
use bonfida_bot.Processor.Deposit.{affordable, deposit_amount, pool_token_fee}
use bonfida_bot.Processor.Deposit.Amounts.{
  deposit_amount_share, deposit_amount-affordable, pool_token_fee-sum,
}
use bonfida_bot.Processor.Settle.{settle_status}
use bonfida_bot.Processor.Settle.Status.{
  settle_status-step, pending_orders, is_locked, without_orders, settle_status-eq-err,
}

pow_fixedpoint_u16-Approximates_example : Approximates 64880 5 (pow_fixedpoint_u16 64880 5)
pow_fixedpoint_u16-Approximates_example =
    pow_fixedpoint_u16-Approximates 64880 5 (omega arith) (omega arith)

settle_status-step_example :
    (after : PoolStatus) × (settle_status (locked_pending_order 2) ≡ ok after)
    × (suc (pending_orders after) ≡ pending_orders (locked_pending_order 2))
    × (is_locked after ≡ is_locked (locked_pending_order 2))
    × (without_orders after ≡ without_orders (locked_pending_order 2))
    × IsStatus after
unfolding has_pending_orders
settle_status-step_example =
    settle_status-step (locked_pending_order 2) (omega arith, omega arith) refl

settle_status-eq-err_example :
    (settle_status locked ≡ err invalid_account_data) ↔ (has_pending_orders locked ≡ false)
settle_status-eq-err_example = settle_status-eq-err locked tt

redeemed : redeem_amount 33 1000 100 ≡ ok 330
unfolding redeem_amount
redeemed = refl

redeem_amount_share_example :
    (330 * 100 ≤ 33 * 1000) × (33 * 1000 < 330 * 100 + 100) × (330 ≤ 1000) × (330 < 2 ^ 64)
redeem_amount_share_example = redeem_amount_share 33 1000 100 330 (omega arith) redeemed

redeem_amount_fair_example : 1000 * (100 - 33) ≤ (1000 - 330) * 100
redeem_amount_fair_example = redeem_amount_fair 33 1000 100 330 (omega arith) redeemed

redeem_amount_all_example : redeem_amount 100 1000 100 ≡ ok 1000
redeem_amount_all_example = redeem_amount_all 100 1000 (omega arith) (omega arith)

charged : deposit_amount 33 1001 100 ≡ ok 330
unfolding deposit_amount
charged = refl

within : 33 ≤ affordable 500 100 1001
unfolding affordable
within = omega arith

deposit_amount-affordable_example : 330 ≤ 500
deposit_amount-affordable_example =
    deposit_amount-affordable 500 1001 100 33 330 (omega arith) (omega arith) within charged

deposit_amount_share_example :
    ((1001 + 330) * 100 ≤ 1001 * (100 + 33)) × (1001 * (100 + 33) < (1001 + 330) * 100 + 100)
deposit_amount_share_example = deposit_amount_share 33 1001 100 330 charged

pool_token_fee-sum_example :
    (pool_token_fee 655 1000 < 1000)
    × (sub_u64 1000 (pool_token_fee 655 1000)
          + (share_out (pool_token_fee 655 1000)).signal_provider
          + (share_out (pool_token_fee 655 1000)).bonfida_fee
          + (share_out (pool_token_fee 655 1000)).bonfida_bnb
        ≡ 1000)
pool_token_fee-sum_example = pool_token_fee-sum 655 1000 (omega arith) (omega arith) (omega arith)

three_cycles : fee_cycles header 1900000 ≡ ok 3
unfolding fee_cycles
three_cycles = refl

fee_cycles-collected_header_example :
    ((collected_header header 3).last_fee_collection_timestamp ≤ 1900000)
    × (fee_cycles (collected_header header 3) 1900000 ≡ ok 0)
    × (fees_are_due (collected_header header 3) 1900000 ≡ false)
fee_cycles-collected_header_example =
    fee_cycles-collected_header header 1900000 3 (omega arith) (omega arith) three_cycles

are_due : fees_are_due header 1900000 ≡ true
unfolding fees_are_due
are_due = refl

fee_cycles_positive_example : 1 ≤ 3
fee_cycles_positive_example = fee_cycles_positive header 1900000 3 are_due three_cycles

minted : tokens_to_mint 64880 1_000_000 ≡ ok 10095
unfolding tokens_to_mint
minted = refl

tokens_to_mint_share_example :
    (10095 * 65535 ≤ not_u16 64880 * (10095 + 1_000_000))
    × (not_u16 64880 * (10095 + 1_000_000) < 10095 * 65535 + 64880)
tokens_to_mint_share_example =
    tokens_to_mint_share 64880 1_000_000 10095 (omega arith) (omega arith) minted

given_back : redeem_amount 33 (1001 + 330) (100 + 33) ≡ ok 330
unfolding redeem_amount
given_back = refl

redeem_amount-le-deposit_amount_example : 330 ≤ 330
redeem_amount-le-deposit_amount_example =
    redeem_amount-le-deposit_amount 33 1001 100 330 33 330 charged (omega arith) given_back

-- The bound of a source is cut off to a u64.
affordable_wraps : affordable (2 ^ 40) (2 ^ 30) 64 ≡ 0
unfolding affordable
affordable_wraps = refl
