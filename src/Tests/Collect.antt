-- ===== src/Tests/Collect.antt =====
-- A collection of fees on the pool of the fixtures.
use bonfida_bot.Prelude.{◌≡◌, refl, List, [], ◌∷◌}
use bonfida_bot.Outcome.{ok}
use bonfida_bot.Bytes.{slice, copy_from_slice, to_le_bytes, from_le_bytes}
use bonfida_bot.State.{
  unpack_from_slice, status_of_byte, is_initialized, unpack, unpack_unchecked, pack_into_slice,
  status_byte,
}
use bonfida_bot.Tests.Fixtures.{
  key, program_key, pool_key, mint_key, clock_key, provider_key, spl_key, associated, runtime,
  start, account, world_after,
}
use bonfida_bot.Utils.{pow_fixedpoint_u16, check_pool_key}
use bonfida_bot.Runtime.{put_data, AccountInfo, World}
use bonfida_bot.Processor.Common.{mint_pool_tokens, read_header, write_header}
use bonfida_bot.Processor.Fees.{
  share_out, fee_cycles, feeless_ratio, tokens_to_mint, collected_header,
}
use bonfida_bot.Processor.CollectFees.{
  process_collect_fees, collect_accounts, collect_checks, collect_due, collect_pay,
}
use bonfida_bot.Processor.CollectFees.Payment.{process_collect_fees-eq-ok, HasCollected}

abbrev pub collect_infos : List AccountInfo
collect_infos =
    account spl_key
    ∷ account clock_key
    ∷ account pool_key
    ∷ account mint_key
    ∷ account (associated provider_key mint_key)
    ∷ account (associated (key 9) mint_key)
    ∷ account (associated (key 9) mint_key)
    ∷ []

-- A collection after three periods.
abbrev pub collected_world : World
collected_world =
    world_after (process_collect_fees runtime program_key collect_infos pool_key (start 1900000))

pub collected_runs :
    process_collect_fees runtime program_key collect_infos pool_key (start 1900000)
    ≡ ok (tt, collected_world)
unfolding process_collect_fees collect_accounts read_header slice to_le_bytes unpack
    unpack_unchecked unpack_from_slice status_of_byte from_le_bytes status_byte is_initialized
    collect_checks check_pool_key collect_due fee_cycles feeless_ratio pow_fixedpoint_u16
    tokens_to_mint collect_pay mint_pool_tokens share_out collected_header copy_from_slice
    write_header put_data pack_into_slice
collected_runs = refl

process_collect_fees-eq-ok_example :
    HasCollected runtime program_key collect_infos (start 1900000) collected_world
process_collect_fees-eq-ok_example =
    process_collect_fees-eq-ok runtime program_key collect_infos pool_key (start 1900000)
      collected_world collected_runs
