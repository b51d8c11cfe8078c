-- ===== src/Tests/Handlers.antt =====
-- Handlers that are run on the pool of the fixtures.
use bonfida_bot.Prelude.{if◌then◌else◌, All, ◌≡◌, refl, Bool, true, false, List, [], ◌∷◌, arith}
use bonfida_bot.Outcome.{ok}
use bonfida_bot.Bytes.{
  to_le_bytes-IsByte, IsByte, slice, copy_from_slice, to_le_bytes, from_le_bytes, eq_bytes,
}
use bonfida_bot.State.{
  Pubkey, unpack_from_slice, status_of_byte, is_initialized, unpack, unpack_unchecked,
  pack_into_slice, status_byte,
}
use bonfida_bot.Assets
use bonfida_bot.Instruction.{bid, redeem}
use bonfida_bot.Tests.Fixtures.{
  key, program_key, pool_key, mint_key, clock_key, provider_key, spl_key, owner_key, source_key,
  target_key, associated, vault_key, runtime, header, start, account, signer, world_after,
}
use bonfida_bot.Tests.Ranges.{pool_bytes-All}
use bonfida_bot.Utils.{check_pool_key, check_signal_provider, fill_slice}
use bonfida_bot.Runtime.{put_data, AccountState, AccountInfo, World}
use bonfida_bot.Processor.Common.{with_tail, mint_supply, read_header, write_header, asset_bytes}
use bonfida_bot.Processor.Redeem.{
  process_redeem, RedeemAccounts, redeem_amount, has_pending_orders, fees_are_due, reset_pool,
  redeem_accounts, redeem_checks, pay_out, buy_out, burn_tokens,
}
use bonfida_bot.Processor.Redeem.Gates.{process_redeem-eq-ok, HasPassed}
use bonfida_bot.Processor.Redeem.Reset.{process_redeem-IsReset, IsReset}
use bonfida_bot.Processor.Deposit.{process_deposit}
use bonfida_bot.Processor.Cancel.{process_cancel}
use bonfida_bot.Processor.Cancel.Gates.{process_cancel-eq-ok, HasCancelled}
use bonfida_bot.Processor.Instructions.{process_instruction-pack}
use bonfida_bot.Processor.Dispatch.{process_instruction, dispatch}
use bonfida_bot.Instruction.Format.{pack}

abbrev redeem_infos : List AccountInfo
redeem_infos =
    account spl_key
    ∷ account clock_key
    ∷ account mint_key
    ∷ signer owner_key
    ∷ account source_key
    ∷ account pool_key
    ∷ account vault_key
    ∷ account target_key
    ∷ []

-- A redemption of a part of the tokens.
abbrev part_world : World
part_world = world_after (process_redeem runtime program_key redeem_infos pool_key 40 (start 2000))

part_runs :
    process_redeem runtime program_key redeem_infos pool_key 40 (start 2000) ≡ ok (tt, part_world)
unfolding process_redeem redeem_accounts read_header slice to_le_bytes unpack unpack_unchecked
    unpack_from_slice status_of_byte from_le_bytes status_byte is_initialized asset_bytes
    Assets.unpack_assets Assets.assets_loop Assets.push_asset Assets.unpack Assets.unpack_unchecked
    Assets.is_initialized Assets.unpack_from_slice Assets.zero_pubkey copy_from_slice with_tail
    write_header burn_tokens buy_out fees_are_due has_pending_orders pay_out redeem_amount
    redeem_checks reset_pool put_data pack_into_slice check_pool_key fill_slice
part_runs = refl

process_redeem-eq-ok_example : HasPassed runtime program_key redeem_infos pool_key 40 (start 2000)
process_redeem-eq-ok_example =
    process_redeem-eq-ok runtime program_key redeem_infos pool_key 40 (start 2000) part_world
      part_runs

-- A redemption of all the tokens.
abbrev whole_world : World
whole_world =
    world_after (process_redeem runtime program_key redeem_infos pool_key 100 (start 2000))

whole_runs :
    process_redeem runtime program_key redeem_infos pool_key 100 (start 2000) ≡ ok (tt, whole_world)
unfolding process_redeem redeem_accounts read_header slice to_le_bytes unpack unpack_unchecked
    unpack_from_slice status_of_byte from_le_bytes status_byte is_initialized asset_bytes
    Assets.unpack_assets Assets.assets_loop Assets.push_asset Assets.unpack Assets.unpack_unchecked
    Assets.is_initialized Assets.unpack_from_slice Assets.zero_pubkey copy_from_slice with_tail
    write_header burn_tokens buy_out fees_are_due has_pending_orders pay_out redeem_amount
    redeem_checks reset_pool put_data pack_into_slice check_pool_key fill_slice
whole_runs = refl

abbrev whole_accounts : RedeemAccounts
whole_accounts = record {
  spl_token = account spl_key;
  clock = account clock_key;
  mint = account mint_key;
  source_pool_token_owner = signer owner_key;
  source_pool_token = account source_key;
  pool = account pool_key;
}

whole_found :
    redeem_accounts runtime program_key redeem_infos (start 2000)
    ≡ ok ((whole_accounts, account vault_key ∷ account target_key ∷ []), start 2000)
unfolding redeem_accounts
whole_found = refl

header_read : read_header (account pool_key) (start 2000) ≡ ok (header, start 2000)
unfolding read_header slice to_le_bytes unpack unpack_unchecked unpack_from_slice status_of_byte
    from_le_bytes status_byte is_initialized
header_read = refl

supply_read : mint_supply runtime (account mint_key) (start 2000) ≡ ok (100, start 2000)
unfolding to_le_bytes from_le_bytes
supply_read = refl

if_bytes :
    (c : Bool) (x y : AccountState)
    → All IsByte x.bytes
    → All IsByte y.bytes
    → All IsByte (if c then x else y).bytes
if_bytes true x y h k = h
if_bytes false x y h k = k

start-All : (k : Pubkey) → All IsByte ((start 2000).ledger k).bytes
start-All k = if_bytes (eq_bytes k pool_key) _ _ pool_bytes-All (
    if_bytes (eq_bytes k clock_key) _ _ (to_le_bytes-IsByte 8 2000) (
      if_bytes (eq_bytes k mint_key) _ _ (to_le_bytes-IsByte 8 100) (
        if_bytes (eq_bytes k vault_key) _ _ (to_le_bytes-IsByte 8 1000)
          (if_bytes (eq_bytes k source_key) _ _ (to_le_bytes-IsByte 8 500) tt))))

process_redeem-IsReset_example : IsReset (account pool_key) header whole_world
process_redeem-IsReset_example =
    process_redeem-IsReset runtime program_key redeem_infos
      (account vault_key ∷ account target_key ∷ []) pool_key 100 (start 2000) whole_world
      whole_accounts header start-All whole_found header_read supply_read whole_runs

abbrev deposit_infos : List AccountInfo
deposit_infos =
    account spl_key
    ∷ account mint_key
    ∷ account target_key
    ∷ account (associated provider_key mint_key)
    ∷ account (associated (key 9) mint_key)
    ∷ account (associated (key 9) mint_key)
    ∷ account pool_key
    ∷ account vault_key
    ∷ signer owner_key
    ∷ account source_key
    ∷ []

-- A deposit: the source account affords 50 of the 70 tokens asked for.
abbrev deposited_world : World
deposited_world =
    world_after (process_deposit runtime program_key deposit_infos pool_key 70 (start 2000))

abbrev cancel_infos : List AccountInfo
cancel_infos =
    signer provider_key
    ∷ account (key 20)
    ∷ account (key 21)
    ∷ account (key 22)
    ∷ account (key 23)
    ∷ account (key 24)
    ∷ account pool_key
    ∷ account (key 25)
    ∷ []

-- A cancellation.
abbrev cancelled_world : World
cancelled_world =
    world_after (process_cancel runtime program_key cancel_infos pool_key bid 7 (start 2000))

cancelled_runs :
    process_cancel runtime program_key cancel_infos pool_key bid 7 (start 2000)
    ≡ ok (tt, cancelled_world)
unfolding process_cancel read_header slice to_le_bytes unpack unpack_unchecked unpack_from_slice
    status_of_byte from_le_bytes status_byte is_initialized check_pool_key check_signal_provider
cancelled_runs = refl

process_cancel-eq-ok_example :
    HasCancelled runtime program_key cancel_infos pool_key bid 7 (start 2000) cancelled_world
process_cancel-eq-ok_example =
    process_cancel-eq-ok runtime program_key cancel_infos pool_key bid 7 (start 2000)
      cancelled_world cancelled_runs

process_instruction-pack_example :
    process_instruction runtime program_key redeem_infos (pack (redeem pool_key 40)) (start 2000)
    ≡ dispatch runtime program_key redeem_infos (redeem pool_key 40) (start 2000)
process_instruction-pack_example =
    process_instruction-pack runtime program_key redeem_infos (redeem pool_key 40) (start 2000)
      (refl, omega arith)
