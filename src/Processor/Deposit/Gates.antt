-- ===== src/Processor/Deposit/Gates.antt =====
-- What a deposit that succeeds has checked and called.
use bonfida_bot.Processor.Deposit.Limit.{Affords}
use bonfida_bot.Processor.Deposit.Mints.{EndsWithMints}
use bonfida_bot.Processor.Common.{
  read_header, bonfida_fee, bonfida_bnb, mint_supply, mint_key_of, fee_address, next_accounts,
  asset_bytes,
}
use bonfida_bot.Runtime.{Runtime, AccountInfo, World, next_account_info}
use bonfida_bot.Prelude.{ℕ, length, ◌-◌, ◌^◌, min, ◌≡◌, true, List, [], ◌∷◌}
use bonfida_bot.Outcome.{ok, unwrap_result}
use bonfida_bot.Bytes.{Bytes}
use bonfida_bot.State.{PoolHeader, PoolAsset, Pubkey, unlocked}
use bonfida_bot.Assets.{unpack_assets}
use bonfida_bot.Processor.Deposit.{DepositAccounts, pool_token_fee, deposit_accounts, buy_in_limit}

module _ (rt : Runtime) (program_id : Pubkey) where
  -- What the checks on the accounts and the header ensure.
  unfoldable pub MayDeposit : World → DepositAccounts → AccountInfo → PoolHeader → Bytes → Type 0
  MayDeposit w a source_owner header pool_seed =
      (unwrap_result (rt.create_program_address (pool_seed ∷ []) program_id) ≡ ok a.pool.key)
      × (mint_key_of rt pool_seed program_id ≡ ok a.mint.key)
      × (source_owner.is_signer ≡ true)
      × ((w.ledger a.pool.key).owner ≡ program_id)
      × (a.signal_provider_pt.key
          ≡ rt.get_associated_token_address header.signal_provider a.mint.key)
      × (fee_address rt bonfida_fee a.mint.key ≡ ok a.bonfida_fee_pt.key)
      × (fee_address rt bonfida_bnb a.mint.key ≡ ok a.bonfida_bnb_pt.key)
      × (header.status ≡ unlocked)

  -- A deposit was made into an unlocked pool.
  unfoldable pub HasDeposited : List AccountInfo → Bytes → ℕ → World → World → Type 0
  HasDeposited accounts pool_seed amount w w' =
      (a : DepositAccounts) × (rest : List AccountInfo) × (source_owner : AccountInfo)
      × (header : PoolHeader) × (tail : Bytes) × (assets : List PoolAsset) × (supply limit : ℕ)
      × (pools sources rest1 rest2 rest3 : List AccountInfo) × (amounts : List ℕ)
      × (deposit_accounts rt program_id accounts w ≡ ok ((a, rest), w))
      × (read_header a.pool w ≡ ok (header, w))
      × (asset_bytes a.pool header w ≡ ok (tail, w))
      × (unpack_assets tail ≡ ok assets)
      × (next_accounts (length assets) rest ≡ ok (pools, rest1))
      × (next_account_info rest1 ≡ ok (source_owner, rest2))
      × (next_accounts (length assets) rest2 ≡ ok (sources, rest3))
      × MayDeposit w a source_owner header pool_seed
      × (mint_supply rt a.mint w ≡ ok (supply, w))
      × (buy_in_limit rt program_id supply pools sources (2 ^ 64 - 1) w ≡ ok ((amounts, limit), w))
      × Affords rt w supply limit pools sources amounts
      × EndsWithMints rt program_id a a.mint.key (min amount limit)
          (pool_token_fee header.fee_ratio (min amount limit)) w'
