-- ===== src/Tests/Settlements.antt =====
-- A settlement of the pool of the fixtures, through a program that the caller has chosen.
use bonfida_bot.Client.Settlement.{settle_agrees, settle_accounts_of}
use bonfida_bot.Client.Agreement.{as_info}
use bonfida_bot.Client.{writable, settle_funds}
use bonfida_bot.Client
use bonfida_bot.Instruction
use bonfida_bot.Instruction.Unpack
use bonfida_bot.Assets
use bonfida_bot.Prelude.{
  ◌≡◌, refl, if◌then◌else◌, List, [], ◌∷◌, ◌++◌, replicate, some, map, false, arith,
}
use bonfida_bot.Outcome.{ok}
use bonfida_bot.Bytes.{slice, copy_from_slice, to_le_bytes, from_le_bytes, eq_bytes}
use bonfida_bot.State.{
  Pubkey, is_initialized, unpack, unpack_unchecked, unpack_from_slice, pack_into_slice, status_byte,
  status_of_byte,
}
use bonfida_bot.State.Layout.{header_bytes}
use bonfida_bot.Utils.{check_pool_key}
use bonfida_bot.Runtime.{World, AccountInfo, put_data, Instruction as Call, Instruction}
use bonfida_bot.Processor.Common.{with_tail, read_header, write_header, asset_bytes}
use bonfida_bot.Processor.Settle.{
  process_settle, settle_accounts, settle_keys, settle_assets, settle_call, read_openorders,
  read_amount, settled_header, is_settled, settle_status, has_no_funds, write_asset, match_asset,
  optional_account,
}
use bonfida_bot.Processor.Settle.Gates.{process_settle-eq-ok, HasSettled}
use bonfida_bot.Tests.Fixtures.{
  key, program_key, pool_key, mint_key, spl_key, associated, vault_key, runtime, header, state,
  start, account, world_after,
}

abbrev pc_wallet_key : Pubkey
pc_wallet_key = associated pool_key (key 14)

-- A market of two tokens, and open orders with 1 of 2 coins free.
abbrev traded : World
traded = record {
  ledger = λ k.
      if eq_bytes k pool_key
      then state program_key (header_bytes header (key 8 ++ (key 7 ++ key 0)))
      else if eq_bytes k (key 21)
      then state spl_key (replicate 53 0 ++ (key 7 ++ key 14))
      else if eq_bytes k (key 22)
      then state spl_key
          (replicate 77 0 ++ (to_le_bytes 8 1 ++ (to_le_bytes 8 2 ++ replicate 16 0)))
      else (start 5000).ledger k;
  calls = [];
}

abbrev settle_infos_given : List AccountInfo
settle_infos_given =
    account (key 21)
    ∷ account (key 22)
    ∷ account pool_key
    ∷ account mint_key
    ∷ account (key 23)
    ∷ account (key 24)
    ∷ account vault_key
    ∷ account pc_wallet_key
    ∷ account (key 25)
    ∷ account spl_key
    ∷ account (key 99)
    ∷ []

abbrev settled_world : World
settled_world =
    world_after (process_settle runtime program_key settle_infos_given pool_key 1 0 traded)

settled_runs :
    process_settle runtime program_key settle_infos_given pool_key 1 0 traded
    ≡ ok (tt, settled_world)
unfolding process_settle settle_accounts optional_account settle_keys check_pool_key settle_assets
    read_header asset_bytes unpack unpack_unchecked unpack_from_slice status_of_byte is_initialized
    Assets.unpack_unchecked_asset Assets.unpack_unchecked Assets.unpack_from_slice match_asset
    Assets.is_initialized Assets.zero_pubkey read_openorders read_amount settled_header is_settled
    settle_status write_header pack_into_slice status_byte has_no_funds write_asset with_tail
    Assets.pack_asset_at Assets.get_asset_slice Assets.pack_into_slice settle_call slice
    copy_from_slice to_le_bytes from_le_bytes put_data
settled_runs = refl

process_settle-eq-ok_example :
    HasSettled runtime program_key settle_infos_given pool_key traded settled_world
process_settle-eq-ok_example =
    process_settle-eq-ok runtime program_key settle_infos_given pool_key 1 0 traded settled_world
      settled_runs

settle_agrees_example :
    (c : Call) × (Client.settle_funds program_key
        (key 21)
        (key 22)
        pool_key
        mint_key
        (key 23)
        (key 24)
        vault_key
        pc_wallet_key
        (key 25)
        spl_key
        (key 99)
        (some (key 26))
        pool_key
        1
        0
      ≡ ok c)
    × (Unpack.unpack c.bytes ≡ ok (Instruction.settle_funds pool_key 1 0))
    × (settle_accounts runtime program_key (map as_info c.accounts) traded
        ≡ ok (
          settle_accounts_of runtime program_key traded
              (key 21)
              (key 22)
              pool_key
              mint_key
              (key 23)
              (key 24)
              vault_key
              pc_wallet_key
              (key 25)
              (key 99)
              (some (as_info (writable (key 26) false))),
          traded,
        ))
settle_agrees_example =
    settle_agrees runtime program_key traded (key 21) (key 22) pool_key mint_key (key 23) (key 24)
      vault_key pc_wallet_key (key 25) (key 99) (some (key 26)) pool_key 1 0 refl (omega arith)
      (omega arith)
