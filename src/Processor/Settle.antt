-- ===== src/Processor/Settle.antt =====
-- `Processor::process_settle`: the permissionless crank that settles a pool's open orders.
pub mod Status
pub mod Gates
use bonfida_bot.Prelude.{
  ℕ, ◌==◌, if◌then◌else◌, ◌-◌, Bool, not, ◌&&◌, Option, none, some, List, [], ◌∷◌, ◌++◌,
}
use bonfida_bot.Outcome.{
  Result, invalid_argument, invalid_account_data, incorrect_program_id, ok, err, panicked,
}
use bonfida_bot.Bytes.{Bytes, slice, index, from_le_bytes, eq_bytes}
use bonfida_bot.State.{
  Pubkey, PoolAsset, PoolStatus, unlocked, locked, pending_order, locked_pending_order, PoolHeader,
  non_zero,
}
use bonfida_bot.Assets.{unpack_unchecked_asset, is_initialized, pack_asset_at}
use mathlib.Core.Option
use bonfida_bot.Runtime.{
  Runtime, ◌>>=◌, ◌>>◌, AccountInfo, Action, pure, lift, require_not, data_of, write_data,
  next_account_info, invoke_signed,
}
use bonfida_bot.Utils.{check_pool_key}
use bonfida_bot.Processor.Common.{
  locked_operation_error, token_account, mint_key_of, read_header, write_header, with_tail,
  assets_begin, asset_bytes,
}

pub record SettleAccounts : Type 0 where
  pub market : AccountInfo
  pub openorders : AccountInfo
  pub pool : AccountInfo
  pub pool_token_mint : AccountInfo
  pub coin_vault : AccountInfo
  pub pc_vault : AccountInfo
  pub pool_coin_wallet : AccountInfo
  pub pool_pc_wallet : AccountInfo
  pub vault_signer : AccountInfo
  pub spl_token_program : AccountInfo
  pub dex_program : AccountInfo
  pub referrer : Option AccountInfo

-- `next_account_info(account_iter).ok()`
unfoldable pub optional_account : List AccountInfo → Option AccountInfo
optional_account [] = none
optional_account (a ∷ accounts) = some a

-- The status after one of the pending orders was settled.
unfoldable pub settle_status : PoolStatus → Result PoolStatus
settle_status (pending_order n) =
    if n == 1
    then ok unlocked
    else elim (non_zero (n - 1)) [ none ↦ panicked | some m ↦ ok (pending_order m) ]
settle_status (locked_pending_order n) =
    if n == 1
    then ok locked
    else elim (non_zero (n - 1)) [ none ↦ panicked | some m ↦ ok (locked_pending_order m) ]
settle_status _ = err invalid_account_data

-- The four numbers that are read from the OpenOrders account.
pub record OpenOrders : Type 0 where
  pub free_pc : ℕ
  pub free_coin : ℕ
  pub total_pc : ℕ
  pub total_coin : ℕ

-- `.get(lo..hi).and_then(…).map(u64::from_le_bytes).ok_or(ProgramError::InvalidAccountData)?`
unfoldable pub read_amount : ℕ → ℕ → Bytes → Result ℕ
read_amount lo hi bytes = elim (slice lo hi bytes) [
  | none ↦ err invalid_account_data
  | some part ↦ ok (from_le_bytes part)
]

unfoldable pub read_openorders : AccountInfo → Action OpenOrders
read_openorders account = do
  bytes ← data_of account
  free_pc ← lift (read_amount 93 101 bytes)
  free_coin ← lift (read_amount 77 85 bytes)
  total_pc ← lift (read_amount 101 109 bytes)
  total_coin ← lift (read_amount 85 93 bytes)
  pure (record {
    free_pc = free_pc;
    free_coin = free_coin;
    total_pc = total_pc;
    total_coin = total_coin;
  })

-- The order can be entirely settled.
unfoldable pub is_settled : OpenOrders → Bool
is_settled o = (o.free_pc == o.total_pc) && (o.free_coin == o.total_coin)

unfoldable pub has_no_funds : OpenOrders → Bool
has_no_funds o = (o.free_pc == 0) && (o.free_coin == 0)

-- The header that is written back.
unfoldable pub settled_header : PoolHeader → OpenOrders → Result PoolHeader
settled_header header o =
    if is_settled o
    then elim (settle_status header.status) [
      | ok status ↦ ok (record header { status = status })
      | err e ↦ err e
      | panicked ↦ panicked
    ]
    else ok header

-- An asset of the pool must be the market's token, or is set to it while it is empty.
unfoldable pub match_asset : PoolAsset → Pubkey → Result PoolAsset
match_asset asset mint =
    if is_initialized asset
    then if not (eq_bytes asset.mint_address mint) then err invalid_argument else ok asset
    else ok (record asset { mint_address = mint })

-- `asset.pack_into_slice(get_asset_slice(&mut pool_account.data.borrow_mut()[asset_offset..], i)?)`
unfoldable pub write_asset : AccountInfo → PoolHeader → PoolAsset → ℕ → Action (Unit {0})
write_asset pool header asset i = do
  bytes ← data_of pool
  bytes ← lift (with_tail (assets_begin header) (pack_asset_at asset i) bytes)
  write_data pool bytes

module _ (rt : Runtime) (program_id : Pubkey) where
  unfoldable pub settle_accounts : List AccountInfo → Action SettleAccounts
  settle_accounts accounts = do
    (market, accounts) ← lift (next_account_info accounts)
    (openorders, accounts) ← lift (next_account_info accounts)
    (pool, accounts) ← lift (next_account_info accounts)
    (pool_token_mint, accounts) ← lift (next_account_info accounts)
    (coin_vault, accounts) ← lift (next_account_info accounts)
    (pc_vault, accounts) ← lift (next_account_info accounts)
    (pool_coin_wallet, accounts) ← lift (next_account_info accounts)
    (pool_pc_wallet, accounts) ← lift (next_account_info accounts)
    (vault_signer, accounts) ← lift (next_account_info accounts)
    (spl_token_program, accounts) ← lift (next_account_info accounts)
    require_not (not (eq_bytes spl_token_program.key rt.spl_token_id)) incorrect_program_id
    (dex_program, accounts) ← lift (next_account_info accounts)
    pure (record {
      market = market;
      openorders = openorders;
      pool = pool;
      pool_token_mint = pool_token_mint;
      coin_vault = coin_vault;
      pc_vault = pc_vault;
      pool_coin_wallet = pool_coin_wallet;
      pool_pc_wallet = pool_pc_wallet;
      vault_signer = vault_signer;
      spl_token_program = spl_token_program;
      dex_program = dex_program;
      referrer = optional_account accounts;
    })

  -- The checks on the keys, with the mints of the market's two tokens.
  unfoldable pub settle_keys : SettleAccounts → Bytes → Action (Pubkey × Pubkey)
  settle_keys a pool_seed = do
    lift (check_pool_key rt program_id a.pool.key pool_seed)
    market ← data_of a.market
    coin_mint ← lift (index 53 85 market)
    pc_mint ← lift (index 85 117 market)
    let coin_key = rt.get_associated_token_address a.pool.key coin_mint
    let pc_key = rt.get_associated_token_address a.pool.key pc_mint
    mint_key ← lift (mint_key_of rt pool_seed program_id)
    require_not (not (eq_bytes mint_key a.pool_token_mint.key)) invalid_argument
    require_not (not (eq_bytes coin_key a.pool_coin_wallet.key)) invalid_argument
    require_not (not (eq_bytes pc_key a.pool_pc_wallet.key)) invalid_argument
    pure (coin_mint, pc_mint)

  -- The header, and the two assets as they are to be written.
  unfoldable pub settle_assets :
      SettleAccounts → Pubkey → Pubkey → ℕ → ℕ → Action (PoolHeader × PoolAsset × PoolAsset)
  settle_assets a coin_mint pc_mint pc_index coin_index = do
    coin_account ← token_account rt a.pool_coin_wallet
    pc_account ← token_account rt a.pool_pc_wallet
    header ← read_header a.pool
    tail ← asset_bytes a.pool header
    coin_asset ← lift (unpack_unchecked_asset tail coin_index)
    pc_asset ← lift (unpack_unchecked_asset tail pc_index)
    require_not (not (eq_bytes coin_account.owner a.pool.key)) invalid_argument
    require_not (not (eq_bytes pc_account.owner a.pool.key)) invalid_argument
    coin_asset ← lift (match_asset coin_asset coin_mint)
    pc_asset ← lift (match_asset pc_asset pc_mint)
    pure (header, coin_asset, pc_asset)

  -- The call of the DEX.
  unfoldable pub settle_call : SettleAccounts → Bytes → Action (Unit {0})
  settle_call a pool_seed = do
    instruction ← lift (
        rt.settle_funds
          (a.dex_program.key ∷ a.market.key ∷ a.spl_token_program.key ∷ a.openorders.key
            ∷ a.pool.key ∷ a.coin_vault.key ∷ a.pool_coin_wallet.key ∷ a.pc_vault.key
            ∷ a.pool_pc_wallet.key ∷ [])
          (Option.map (λ r. r.key) a.referrer) a.vault_signer.key)
    invoke_signed rt instruction
        ((a.dex_program ∷ a.market ∷ a.openorders ∷ a.pool ∷ a.coin_vault ∷ a.pc_vault
            ∷ a.pool_coin_wallet ∷ a.pool_pc_wallet ∷ a.vault_signer ∷ a.spl_token_program ∷ [])
          ++ elim a.referrer [ none ↦ [] | some r ↦ r ∷ [] ])
        ((pool_seed ∷ []) ∷ [])

  unfoldable pub process_settle : List AccountInfo → Bytes → ℕ → ℕ → Action (Unit {0})
  process_settle accounts pool_seed pc_index coin_index = do
    a ← settle_accounts accounts
    (coin_mint, pc_mint) ← settle_keys a pool_seed
    (header, coin_asset, pc_asset) ← settle_assets a coin_mint pc_mint pc_index coin_index
    openorders ← read_openorders a.openorders
    header ← lift (settled_header header openorders)
    write_header a.pool header
    require_not (has_no_funds openorders) locked_operation_error
    write_asset a.pool header coin_asset coin_index
    write_asset a.pool header pc_asset pc_index
    settle_call a pool_seed
