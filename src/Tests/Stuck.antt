-- ===== src/Tests/Stuck.antt =====
-- The pool of the fixtures with a fee ratio of 0xFFFF.
use bonfida_bot.Tests.Ranges.{header-IsHeader}
use bonfida_bot.Tests.Fixtures.{
  key, program_key, pool_key, mint_key, clock_key, provider_key, spl_key, owner_key, source_key,
  target_key, associated, vault_key, runtime, header, start, state, account, signer,
}
use bonfida_bot.Pool.Live.Stuck.{TellsTime, IsStuck, collect-and-redeem_stuck}
use bonfida_bot.Pool.Live.Collection.{collect_list}
use bonfida_bot.Pool.Live.Claim.{redeem_list}
use bonfida_bot.Pool.Front.{ok-inj}
use bonfida_bot.Pool.Moves.{HoldsPool}
use bonfida_bot.Pool.Step.{Pool}
use bonfida_bot.Processor.Fees.{fee_cycles, feeless_ratio}
use bonfida_bot.Processor.Redeem.{RedeemAccounts, redeem_accounts, process_redeem, fees_are_due}
use bonfida_bot.Processor.CollectFees.{CollectAccounts, collect_accounts, process_collect_fees}
use bonfida_bot.Utils.{pow_fixedpoint_u16}
use bonfida_bot.Runtime.{Runtime, World}
use bonfida_bot.State.Header.{IsHeader-IsSized}
use bonfida_bot.State.Layout.{header_bytes}
use bonfida_bot.Bytes.{eq_bytes, from_le_bytes, to_le_bytes, eq_of_eq_bytes}
use bonfida_bot.Prelude.{
  ◌≡◌, ◌≢◌, sym, subst, [], ◌∷◌, ◌++◌, ◌%◌, ◌^◌, refl, inl, inr, Bool-cases, if◌then◌else◌, arith,
}
use bonfida_bot.Outcome.{ok, err, invalid_argument}

-- Only one account is taken for the clock.
abbrev one_clock : Runtime
one_clock = record runtime {
  unix_timestamp = λ info state.
      if eq_bytes info.key clock_key
      then ok (from_le_bytes state.bytes % 2 ^ 64)
      else err invalid_argument;
}

abbrev all_fees : Pool
all_fees = record { header = record header { fee_ratio = 65535 }; rest = key 8 ++ key 7 }

abbrev at_fees : World
at_fees = record (start 1900000) {
  ledger = λ k.
      if eq_bytes k pool_key
      then state program_key (header_bytes all_fees.header all_fees.rest)
      else (start 1900000).ledger k;
}

all_fees-HoldsPool : HoldsPool program_key pool_key all_fees at_fees
all_fees-HoldsPool =
    let sized = IsHeader-IsSized header header-IsHeader in
    record {
      sized = record {
        serum_program_id = sized.serum_program_id;
        seed = sized.seed;
        signal_provider = sized.signal_provider;
        status = sized.status;
        number_of_markets = sized.number_of_markets;
        fee_ratio = omega arith;
        last_fee_collection_timestamp = sized.last_fee_collection_timestamp;
        fee_collection_period = sized.fee_collection_period;
      };
      held = record { owner = refl; content = refl };
    }

at_fees-TellsTime : TellsTime one_clock at_fees 1900000
unfolding to_le_bytes from_le_bytes
at_fees-TellsTime clock t e = elim (Bool-cases (eq_bytes clock.key clock_key)) [
  | inl same ↦
      let here : clock.key ≡ clock_key = eq_of_eq_bytes clock.key clock_key same in
      let told : one_clock.unix_timestamp (account clock_key) (at_fees.ledger clock_key) ≡ ok t =
        subst (λ k. one_clock.unix_timestamp (account k) (at_fees.ledger k) ≡ ok t) here e in
      sym (ok-inj told)
  | inr other ↦ let e' = rw other at e in cc
]

all_fees-IsStuck : IsStuck all_fees 1900000
unfolding fees_are_due fee_cycles feeless_ratio pow_fixedpoint_u16
all_fees-IsStuck = record { cycles = 3; due = refl; some_cycles = refl; nothing_left = refl }

abbrev collector : CollectAccounts
collector = record {
  spl_token = account spl_key;
  clock = account clock_key;
  pool = account pool_key;
  mint = account mint_key;
  signal_provider_pt = account (associated provider_key mint_key);
  bonfida_fee_pt = account (associated (key 9) mint_key);
  bonfida_bnb_pt = account (associated (key 9) mint_key);
}

abbrev redeemer : RedeemAccounts
redeemer = record {
  spl_token = account spl_key;
  clock = account clock_key;
  mint = account mint_key;
  source_pool_token_owner = signer owner_key;
  source_pool_token = account source_key;
  pool = account pool_key;
}

collect-and-redeem_stuck_example :
    (process_collect_fees one_clock program_key (collect_list collector) pool_key at_fees
      ≢ ok (tt, at_fees))
    × (process_redeem one_clock program_key
          (redeem_list redeemer (account vault_key ∷ account target_key ∷ []))
          pool_key
          40
          at_fees
        ≢ ok (tt, at_fees))
unfolding collect_accounts redeem_accounts
collect-and-redeem_stuck_example =
    collect-and-redeem_stuck one_clock program_key pool_key at_fees at_fees at_fees all_fees 1900000
      (collect_list collector) (redeem_list redeemer (account vault_key ∷ account target_key ∷ []))
      (account vault_key ∷ account target_key ∷ []) collector redeemer pool_key 40
      all_fees-HoldsPool at_fees-TellsTime all_fees-IsStuck refl refl refl refl
