-- ===== src/Processor/CollectFees.antt =====
-- `Processor::process_collect_fees`.
pub mod Payment
use bonfida_bot.Prelude.{ℕ, ◌==◌, not, List}
use bonfida_bot.Outcome.{invalid_argument, incorrect_program_id}
use bonfida_bot.Bytes.{Bytes, eq_bytes}
use bonfida_bot.State.{Pubkey, PoolHeader}
use bonfida_bot.Runtime.{
  Runtime, ◌>>=◌, ◌>>◌, AccountInfo, Action, pure, lift, require_not, next_account_info,
}
use bonfida_bot.Utils.{check_pool_key}
use bonfida_bot.Processor.Common.{
  timestamp, locked_operation_error, bonfida_fee, bonfida_bnb, mint_supply, mint_key_of,
  fee_address, mint_pool_tokens, read_header, write_header,
}
use bonfida_bot.Processor.Fees.{
  share_out, fee_cycles, feeless_ratio, tokens_to_mint, collected_header,
}

-- The accounts, in the order in which they are given.
pub record CollectAccounts : Type 0 where
  pub spl_token : AccountInfo
  pub clock : AccountInfo
  pub pool : AccountInfo
  pub mint : AccountInfo
  pub signal_provider_pt : AccountInfo
  pub bonfida_fee_pt : AccountInfo
  pub bonfida_bnb_pt : AccountInfo

module _ (rt : Runtime) (program_id : Pubkey) where
  unfoldable pub collect_accounts : List AccountInfo → Action CollectAccounts
  collect_accounts accounts = do
    (spl_token, accounts) ← lift (next_account_info accounts)
    require_not (not (eq_bytes spl_token.key rt.spl_token_id)) incorrect_program_id
    (clock, accounts) ← lift (next_account_info accounts)
    (pool, accounts) ← lift (next_account_info accounts)
    (mint, accounts) ← lift (next_account_info accounts)
    (signal_provider_pt, accounts) ← lift (next_account_info accounts)
    (bonfida_fee_pt, accounts) ← lift (next_account_info accounts)
    (bonfida_bnb_pt, accounts) ← lift (next_account_info accounts)
    pure (record {
      spl_token = spl_token;
      clock = clock;
      pool = pool;
      mint = mint;
      signal_provider_pt = signal_provider_pt;
      bonfida_fee_pt = bonfida_fee_pt;
      bonfida_bnb_pt = bonfida_bnb_pt;
    })

  -- The checks on the keys, with the pool token's mint and the header that they yield.
  unfoldable pub collect_checks : CollectAccounts → Bytes → Action (Pubkey × PoolHeader)
  collect_checks a pool_seed = do
    lift (check_pool_key rt program_id a.pool.key pool_seed)
    pool_mint_key ← lift (mint_key_of rt pool_seed program_id)
    require_not (not (eq_bytes pool_mint_key a.mint.key)) invalid_argument
    header ← read_header a.pool
    let provider_key = rt.get_associated_token_address header.signal_provider pool_mint_key
    fee_key ← lift (fee_address rt bonfida_fee pool_mint_key)
    bnb_key ← lift (fee_address rt bonfida_bnb pool_mint_key)
    require_not (not (eq_bytes a.signal_provider_pt.key provider_key)) invalid_argument
    require_not (not (eq_bytes a.bonfida_fee_pt.key fee_key)) invalid_argument
    require_not (not (eq_bytes a.bonfida_bnb_pt.key bnb_key)) invalid_argument
    pure (pool_mint_key, header)

  -- What is due: the cycles to collect and the tokens to mint for them.
  unfoldable pub collect_due : CollectAccounts → PoolHeader → Action (ℕ × ℕ)
  collect_due a header = do
    now ← timestamp rt a.clock
    cycles ← lift (fee_cycles header now)
    require_not (cycles == 0) locked_operation_error
    supply ← mint_supply rt a.mint
    tokens ← lift (tokens_to_mint (feeless_ratio header.fee_ratio cycles) supply)
    pure (cycles, tokens)

  -- The three mints, and the new header. The keys of the fee accounts were checked.
  unfoldable pub collect_pay : CollectAccounts → Bytes → Pubkey → ℕ → Action (Unit {0})
  collect_pay a pool_seed mint_key tokens = do
    let shares = share_out tokens
    mint_pool_tokens rt a.spl_token a.mint a.signal_provider_pt a.pool mint_key
        a.signal_provider_pt.key pool_seed shares.signal_provider
    mint_pool_tokens rt a.spl_token a.mint a.bonfida_fee_pt a.pool mint_key a.bonfida_fee_pt.key
        pool_seed shares.bonfida_fee
    mint_pool_tokens rt a.spl_token a.mint a.bonfida_bnb_pt a.pool mint_key a.bonfida_bnb_pt.key
        pool_seed shares.bonfida_bnb

  -- `PoolHeader::pack` on the first 117 bytes is `pack_into_slice`, since their number is right.
  unfoldable pub process_collect_fees : List AccountInfo → Bytes → Action (Unit {0})
  process_collect_fees accounts pool_seed = do
    a ← collect_accounts accounts
    (mint_key, header) ← collect_checks a pool_seed
    (cycles, tokens) ← collect_due a header
    collect_pay a pool_seed mint_key tokens
    write_header a.pool (collected_header header cycles)
