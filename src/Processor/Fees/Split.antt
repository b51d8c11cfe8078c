-- ===== src/Processor/Fees/Split.antt =====
-- How the fee's tokens are shared out.
use bonfida_bot.Prelude.{ℕ, ◌+◌, ◌/◌, ◌^◌, ◌≤◌, ◌<◌, ◌≡◌, arith}
use bonfida_bot.Processor.Fees.{share_out}

-- The three shares of a u64 add up to it, without wrapping around: half goes to the signal
-- provider, a quarter to the fee account, and the rest to the third account.
pub share_out-sum :
    (tokens : ℕ)
    → tokens < 2 ^ 64
    → ((share_out tokens).signal_provider
          + (share_out tokens).bonfida_fee
          + (share_out tokens).bonfida_bnb
        ≡ tokens)
      × ((share_out tokens).bonfida_bnb ≤ tokens / 4 + 2)
      × ((share_out tokens).bonfida_fee ≤ (share_out tokens).bonfida_bnb)
unfolding share_out
share_out-sum tokens h = ground arith
