-- ===== src/Processor/Deposit.antt =====
-- `Processor::process_deposit`.
pub mod Amounts
pub mod Limit
pub mod Mints
pub mod Gates
pub mod Payments
pub mod Paying
use bonfida_bot.Prelude.{
  ℕ, length, zero, suc, ◌-◌, ◌*◌, ◌/◌, ◌%◌, ◌^◌, min, Bool, true, false, not, List, [], ◌∷◌, ◌||◌,
}
use bonfida_bot.Outcome.{
  Result, invalid_argument, incorrect_program_id, ok, err, panicked, unwrap_result,
}
use bonfida_bot.Bytes.{Bytes, eq_bytes}
use bonfida_bot.State.{Pubkey, PoolAsset, PoolStatus, uninitialized, unlocked, PoolHeader}
use bonfida_bot.Assets.{unpack_assets}
use bonfida_bot.Runtime.{
  Runtime, ◌>>=◌, ◌>>◌, AccountInfo, Action, pure, lift, require_not, owner_of, next_account_info,
  invoke,
}
use bonfida_bot.Processor.Common.{
  sub_u64, div_or_panic, locked_operation_error, bonfida_fee, bonfida_bnb, token_account,
  mint_supply, mint_key_of, fee_address, mint_pool_tokens, read_header, next_accounts, asset_bytes,
}
use bonfida_bot.Processor.Fees.{share_out}

pub record DepositAccounts : Type 0 where
  pub spl_token : AccountInfo
  pub mint : AccountInfo
  pub target_pool_token : AccountInfo
  pub signal_provider_pt : AccountInfo
  pub bonfida_fee_pt : AccountInfo
  pub bonfida_bnb_pt : AccountInfo
  pub pool : AccountInfo

-- `(source as u128 * supply as u128).checked_div(pool as u128).unwrap_or(u64::MAX) as u64`
unfoldable pub affordable : ℕ → ℕ → ℕ → ℕ
affordable source supply zero = 2 ^ 64 - 1
affordable source supply (suc pool) = source * supply / suc pool % 2 ^ 64

-- The amount of one asset that is paid in, a u128.
unfoldable pub deposit_amount : ℕ → ℕ → ℕ → Result ℕ
deposit_amount effective pool_asset_amount supply =
    div_or_panic (effective * pool_asset_amount) supply

-- The fee on the pool tokens: `(fee_ratio * effective) >> 16`, as u64.
unfoldable pub pool_token_fee : ℕ → ℕ → ℕ
pool_token_fee fee_ratio effective = fee_ratio * effective / 2 ^ 16 % 2 ^ 64

-- The match on the status: only an unlocked pool can be bought into. An unpacked header is never
-- uninitialized, so that arm is `unreachable!()`.
unfoldable pub check_unlocked : PoolStatus → Result (Unit {0})
check_unlocked unlocked = ok tt
check_unlocked uninitialized = panicked
check_unlocked _ = err locked_operation_error

module _ (rt : Runtime) (program_id : Pubkey) where
  unfoldable pub deposit_accounts : List AccountInfo → Action (DepositAccounts × List AccountInfo)
  deposit_accounts accounts = do
    (spl_token, accounts) ← lift (next_account_info accounts)
    require_not (not (eq_bytes spl_token.key rt.spl_token_id)) incorrect_program_id
    (mint, accounts) ← lift (next_account_info accounts)
    (target, accounts) ← lift (next_account_info accounts)
    (provider_pt, accounts) ← lift (next_account_info accounts)
    (fee_pt, accounts) ← lift (next_account_info accounts)
    (bnb_pt, accounts) ← lift (next_account_info accounts)
    (pool, accounts) ← lift (next_account_info accounts)
    pure (
      record {
        spl_token = spl_token;
        mint = mint;
        target_pool_token = target;
        signal_provider_pt = provider_pt;
        bonfida_fee_pt = fee_pt;
        bonfida_bnb_pt = bnb_pt;
        pool = pool;
      },
      accounts,
    )

  -- The safety verifications and the match on the status, with the keys of the pool and its mint.
  unfoldable pub deposit_checks :
      DepositAccounts → AccountInfo → PoolHeader → Bytes → Action (Pubkey × Pubkey)
  deposit_checks a source_owner header pool_seed = do
    pool_key ← lift (unwrap_result (rt.create_program_address (pool_seed ∷ []) program_id))
    mint_key ← lift (mint_key_of rt pool_seed program_id)
    let provider_key = rt.get_associated_token_address header.signal_provider mint_key
    fee_key ← lift (fee_address rt bonfida_fee mint_key)
    bnb_key ← lift (fee_address rt bonfida_bnb mint_key)
    require_not (not (eq_bytes pool_key a.pool.key)) invalid_argument
    require_not (not (eq_bytes mint_key a.mint.key)) invalid_argument
    require_not (not source_owner.is_signer) invalid_argument
    owner ← owner_of a.pool
    require_not (not (eq_bytes owner program_id)) invalid_argument
    require_not (not (eq_bytes a.signal_provider_pt.key provider_key)) invalid_argument
    require_not (not (eq_bytes a.bonfida_fee_pt.key fee_key)) invalid_argument
    require_not (not (eq_bytes a.bonfida_bnb_pt.key bnb_key)) invalid_argument
    lift (check_unlocked header.status)
    pure (pool_key, mint_key)

  -- The loop that computes the buy-in: the pool's amounts, and the least that a source affords.
  unfoldable pub buy_in_limit : ℕ → List AccountInfo → List AccountInfo → ℕ → Action (List ℕ × ℕ)
  buy_in_limit supply [] sources effective = pure ([], effective)
  buy_in_limit supply (pool ∷ pools) [] effective = lift panicked
  buy_in_limit supply (pool ∷ pools) (source ∷ sources) effective = do
    pool_asset ← token_account rt pool
    source_asset ← token_account rt source
    (amounts, effective) ←
        buy_in_limit supply pools sources
          (min (affordable source_asset.amount supply pool_asset.amount) effective)
    pure (pool_asset.amount ∷ amounts, effective)

  -- One transfer into the pool; nothing is transferred, and `false` returned, for an amount of 0.
  unfoldable pub pay_in :
      DepositAccounts → AccountInfo → AccountInfo → AccountInfo → ℕ → Action Bool
  pay_in a owner from to zero = pure false
  pay_in a owner from to (suc n) = do
    instruction ← lift (rt.transfer a.spl_token.key from.key to.key owner.key [] (suc n % 2 ^ 64))
    invoke rt instruction (from ∷ to ∷ a.spl_token ∷ owner ∷ [])
    pure true

  -- The loop that executes the buy-in; the result tells whether any amount was not zero.
  unfoldable pub buy_in :
      DepositAccounts
      → AccountInfo
      → Pubkey
      → ℕ
      → ℕ
      → List PoolAsset
      → List AccountInfo
      → List AccountInfo
      → List ℕ
      → Action Bool
  buy_in a owner pool_key effective supply [] tos froms amounts = pure false
  buy_in a owner pool_key effective supply (asset ∷ assets) (to ∷ tos) (from ∷ froms)
        (amount ∷ amounts) =
      do
        let pool_asset_key = rt.get_associated_token_address pool_key asset.mint_address
        require_not (not (eq_bytes pool_asset_key to.key)) invalid_argument
        paid ← lift (deposit_amount effective amount supply)
        moved ← pay_in a owner from to paid
        others_moved ← buy_in a owner pool_key effective supply assets tos froms amounts
        pure (moved || others_moved)
  buy_in a owner pool_key effective supply (asset ∷ assets) tos froms amounts = lift panicked

  -- The four mints: what is left after the fee goes to the target, the fee is shared out.
  unfoldable pub mint_deposit : DepositAccounts → Bytes → Pubkey → ℕ → ℕ → Action (Unit {0})
  mint_deposit a pool_seed mint_key effective fee = do
    let shares = share_out fee
    mint_pool_tokens rt a.spl_token a.mint a.target_pool_token a.pool mint_key
        a.target_pool_token.key pool_seed (sub_u64 effective fee)
    mint_pool_tokens rt a.spl_token a.mint a.signal_provider_pt a.pool mint_key
        a.signal_provider_pt.key pool_seed shares.signal_provider
    mint_pool_tokens rt a.spl_token a.mint a.bonfida_fee_pt a.pool mint_key a.bonfida_fee_pt.key
        pool_seed shares.bonfida_fee
    mint_pool_tokens rt a.spl_token a.mint a.bonfida_bnb_pt a.pool mint_key a.bonfida_bnb_pt.key
        pool_seed shares.bonfida_bnb

  unfoldable pub process_deposit : List AccountInfo → Bytes → ℕ → Action (Unit {0})
  process_deposit accounts pool_seed pool_token_amount = do
    (a, accounts) ← deposit_accounts accounts
    header ← read_header a.pool
    tail ← asset_bytes a.pool header
    pool_assets ← lift (unpack_assets tail)
    (pools, accounts) ← lift (next_accounts (length pool_assets) accounts)
    (source_owner, accounts) ← lift (next_account_info accounts)
    (sources, accounts) ← lift (next_accounts (length pool_assets) accounts)
    (pool_key, mint_key) ← deposit_checks a source_owner header pool_seed
    supply ← mint_supply rt a.mint
    (amounts, bound) ← buy_in_limit supply pools sources (2 ^ 64 - 1)
    let effective = min pool_token_amount bound
    moved ← buy_in a source_owner pool_key effective supply pool_assets pools sources amounts
    require_not (not moved) invalid_argument
    mint_deposit a pool_seed mint_key effective (pool_token_fee header.fee_ratio effective)
