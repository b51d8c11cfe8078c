-- ===== src/Processor/Create.antt =====
-- `Processor::process_init` and `Processor::process_create`.
pub mod Layout
use bonfida_bot.Prelude.{
  ℕ, ltb, ◌==◌, length, zero, suc, ◌+◌, ◌*◌, ◌/◌, ◌%◌, ◌^◌, not, ◌||◌, none, List, [], ◌∷◌, ◌++◌,
}
use bonfida_bot.Outcome.{
  Result, invalid_argument, incorrect_program_id, ok, panicked, unwrap_result,
}
use bonfida_bot.Bytes.{Bytes, index, eq_bytes, offset}
use bonfida_bot.State.{
  Pubkey, unpack_from_slice, pack_into_slice, pubkey_length, header_len, asset_len, PoolAsset,
  unlocked, PoolHeader,
}
use bonfida_bot.Assets
use bonfida_bot.State
use bonfida_bot.Outcome
use bonfida_bot.Assets.{pack_markets}
use bonfida_bot.Runtime.{
  Runtime, ◌>>=◌, ◌>>◌, AccountInfo, Action, pure, lift, require_not, data_of, owner_of, write_data,
  next_account_info, invoke_signed, invoke,
}
use bonfida_bot.Processor.Common.{
  timestamp, token_account, mint_key_of, mint_pool_tokens, next_accounts, with_tail,
}

-- The size of the account: the header, the markets and the assets. It stays below 2 ^ 38.
unfoldable pub state_size : ℕ → ℕ → ℕ
state_size max_number_of_assets number_of_markets =
    header_len + pubkey_length * number_of_markets + max_number_of_assets * asset_len

pub record CreateAccounts : Type 0 where
  pub spl_token : AccountInfo
  pub clock : AccountInfo
  pub serum_program : AccountInfo
  pub signal_provider : AccountInfo
  pub mint : AccountInfo
  pub target_pool_token : AccountInfo
  pub pool : AccountInfo
  pub pool_assets : List AccountInfo
  pub source_owner : AccountInfo
  pub source_assets : List AccountInfo

-- The loop that writes the assets behind the markets: `&mut data[offset..]` for each.
unfoldable pub write_assets : ℕ → List PoolAsset → Bytes → Result Bytes
write_assets offset [] bytes = ok bytes
write_assets offset (asset ∷ assets) bytes =
    Outcome.◌>>=◌ (with_tail offset (Assets.pack_into_slice asset) bytes)
      (write_assets (offset + asset_len) assets)

-- Header, markets and assets, written into the account's data in this order.
unfoldable pub write_pool : PoolHeader → List Pubkey → List PoolAsset → Bytes → Result Bytes
write_pool header markets assets bytes = Outcome.◌>>=◌ (pack_into_slice header bytes) λ bytes'.
    Outcome.◌>>=◌ (with_tail header_len (λ tail. pack_markets tail markets) bytes')
      (write_assets (header_len + pubkey_length * length markets) assets)

module _ (rt : Runtime) (program_id : Pubkey) where
  unfoldable pub process_init : List AccountInfo → Bytes → ℕ → ℕ → Action (Unit {0})
  process_init accounts pool_seed max_number_of_assets number_of_markets = do
    (system_program, accounts) ← lift (next_account_info accounts)
    (rent_sysvar, accounts) ← lift (next_account_info accounts)
    (spl_token, accounts) ← lift (next_account_info accounts)
    (pool, accounts) ← lift (next_account_info accounts)
    (mint, accounts) ← lift (next_account_info accounts)
    (payer, accounts) ← lift (next_account_info accounts)
    minimum_balance ← (λ w. lift (rt.minimum_balance rent_sysvar (w.ledger rent_sysvar.key)) w)
    require_not (not (eq_bytes spl_token.key rt.spl_token_id)) incorrect_program_id
    pool_key ← lift (rt.create_program_address (pool_seed ∷ []) program_id)
    require_not (not (eq_bytes pool_key pool.key)) invalid_argument
    mint_key ← lift (rt.create_program_address (pool_seed ∷ (1 ∷ []) ∷ []) program_id)
    require_not (not (eq_bytes mint_key mint.key)) invalid_argument
    require_not (not (eq_bytes spl_token.key rt.spl_token_id)) invalid_argument
    let size = state_size max_number_of_assets number_of_markets
    init_mint ← lift (rt.initialize_mint spl_token.key mint_key pool_key none 6)
    invoke_signed rt (rt.create_account payer.key pool_key (minimum_balance size) size program_id)
        (system_program ∷ payer ∷ pool ∷ []) ((pool_seed ∷ []) ∷ [])
    invoke_signed rt
        (rt.create_account payer.key mint_key (minimum_balance rt.mint_len) rt.mint_len
          spl_token.key)
        (system_program ∷ payer ∷ mint ∷ []) ((pool_seed ∷ (1 ∷ []) ∷ []) ∷ [])
    invoke rt init_mint (mint ∷ rent_sysvar ∷ [])

  unfoldable pub create_accounts : ℕ → List AccountInfo → Action CreateAccounts
  create_accounts number_of_assets accounts = do
    (spl_token, accounts) ← lift (next_account_info accounts)
    require_not (not (eq_bytes spl_token.key rt.spl_token_id)) incorrect_program_id
    (clock, accounts) ← lift (next_account_info accounts)
    (serum_program, accounts) ← lift (next_account_info accounts)
    (signal_provider, accounts) ← lift (next_account_info accounts)
    (mint, accounts) ← lift (next_account_info accounts)
    (target, accounts) ← lift (next_account_info accounts)
    (pool, accounts) ← lift (next_account_info accounts)
    (pool_assets, accounts) ← lift (next_accounts number_of_assets accounts)
    (source_owner, accounts) ← lift (next_account_info accounts)
    (source_assets, accounts) ← lift (next_accounts number_of_assets accounts)
    pure (record {
      spl_token = spl_token;
      clock = clock;
      serum_program = serum_program;
      signal_provider = signal_provider;
      mint = mint;
      target_pool_token = target;
      pool = pool;
      pool_assets = pool_assets;
      source_owner = source_owner;
      source_assets = source_assets;
    })

  -- The checks, with the keys of the pool and of its mint.
  unfoldable pub create_checks : CreateAccounts → Bytes → List Pubkey → ℕ → Action (Pubkey × Pubkey)
  create_checks a pool_seed markets fee_collection_period = do
    pool_key ← lift (unwrap_result (rt.create_program_address (pool_seed ∷ []) program_id))
    mint_key ← lift (mint_key_of rt pool_seed program_id)
    require_not (not (eq_bytes pool_key a.pool.key)) invalid_argument
    require_not (not (eq_bytes mint_key a.mint.key)) invalid_argument
    bytes ← data_of a.pool
    front ← lift (index 0 header_len bytes)
    old ← lift (unwrap_result (unpack_from_slice front))
    require_not (State.is_initialized old) invalid_argument
    owner ← owner_of a.pool
    require_not (not (eq_bytes owner program_id)) invalid_argument
    require_not (not a.source_owner.is_signer) invalid_argument
    require_not (not (length markets / 2 ^ 16 == 0)) invalid_argument
    require_not (ltb fee_collection_period 604800) invalid_argument
    pure (pool_key, mint_key)

  -- The first deposit of one asset, which is skipped for an amount of 0.
  unfoldable pub first_deposit :
      CreateAccounts → Pubkey → AccountInfo → AccountInfo → ℕ → Action (List PoolAsset)
  first_deposit a pool_key to from zero = pure []
  first_deposit a pool_key to from (suc n) = do
    asset ← token_account rt to
    require_not (asset.has_close_authority || asset.has_delegate) invalid_argument
    let pool_asset_key = rt.get_associated_token_address pool_key asset.mint
    require_not (not (eq_bytes pool_asset_key to.key)) invalid_argument
    instruction ← lift (rt.transfer a.spl_token.key from.key to.key a.source_owner.key [] (suc n))
    invoke rt instruction (from ∷ to ∷ a.spl_token ∷ a.source_owner ∷ [])
    pure (record { mint_address = asset.mint } ∷ [])

  -- The loop over the deposits, with the assets that it pushes.
  unfoldable pub first_deposits :
      CreateAccounts
      → Pubkey
      → List ℕ
      → List AccountInfo
      → List AccountInfo
      → Action (List PoolAsset)
  first_deposits a pool_key [] tos froms = pure []
  first_deposits a pool_key (amount ∷ amounts) (to ∷ tos) (from ∷ froms) = do
    pushed ← first_deposit a pool_key to from amount
    others ← first_deposits a pool_key amounts tos froms
    pure (pushed ++ others)
  first_deposits a pool_key (amount ∷ amounts) tos froms = lift panicked

  unfoldable pub process_create :
      List AccountInfo → Bytes → List ℕ → List Pubkey → ℕ → ℕ → Action (Unit {0})
  process_create accounts pool_seed deposit_amounts markets fee_collection_period fee_ratio = do
    a ← create_accounts (length deposit_amounts) accounts
    now ← timestamp rt a.clock
    (pool_key, mint_key) ← create_checks a pool_seed markets fee_collection_period
    assets ← first_deposits a pool_key deposit_amounts a.pool_assets a.source_assets
    mint_pool_tokens rt a.spl_token a.mint a.target_pool_token a.pool mint_key
        a.target_pool_token.key pool_seed 1_000_000
    bytes ← data_of a.pool
    bytes ← lift (
        write_pool
          (record {
            serum_program_id = a.serum_program.key;
            seed = pool_seed;
            signal_provider = a.signal_provider.key;
            status = unlocked;
            number_of_markets = length markets % 2 ^ 16;
            fee_ratio = fee_ratio;
            last_fee_collection_timestamp = now;
            fee_collection_period = fee_collection_period;
          })
          markets assets bytes)
    write_data a.pool bytes
