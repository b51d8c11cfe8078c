-- ===== src/Processor/Redeem.antt =====
-- `Processor::process_redeem`.
pub mod Gates
pub mod Payouts
pub mod Paying
pub mod Reset
pub mod Amounts
pub mod Profit
use bonfida_bot.Prelude.{
  ℕ, ltb, ◌==◌, if◌then◌else◌, length, zero, suc, ◌*◌, ◌^◌, Bool, true, false, not, List, [], ◌∷◌,
  ◌-◌,
}
use bonfida_bot.Outcome.{
  Result, overflow, invalid_argument, incorrect_program_id, insufficient_funds, to_program_error,
  ok, err, panicked,
}
use bonfida_bot.Bytes.{Bytes, eq_bytes, index}
use bonfida_bot.State.{
  Pubkey, header_len, PoolAsset, PoolStatus, uninitialized, pending_order, locked_pending_order,
  PoolHeader,
}
use bonfida_bot.Assets.{unpack_assets}
use bonfida_bot.Runtime.{
  Runtime, ◌>>=◌, ◌>>◌, AccountInfo, Action, pure, lift, require_not, data_of, owner_of, write_data,
  next_account_info, invoke_signed, invoke,
}
use bonfida_bot.Utils.{check_pool_key, fill_slice}
use bonfida_bot.Processor.Common.{
  timestamp, sub_u64, div_or_panic, locked_operation_error, token_account, mint_supply, mint_key_of,
  read_header, write_header, next_accounts, with_tail, asset_bytes,
}

pub record RedeemAccounts : Type 0 where
  pub spl_token : AccountInfo
  pub clock : AccountInfo
  pub mint : AccountInfo
  pub source_pool_token_owner : AccountInfo
  pub source_pool_token : AccountInfo
  pub pool : AccountInfo

-- The amount of one asset that is paid out: the share of the redeemed tokens, rounded down.
unfoldable pub redeem_amount : ℕ → ℕ → ℕ → Result ℕ
redeem_amount pool_token_amount pool_asset_amount total_pooltokens =
    elim (div_or_panic (pool_token_amount * pool_asset_amount) total_pooltokens) [
      | ok amount ↦ if ltb amount (2 ^ 64) then ok amount else err (to_program_error overflow)
      | err e ↦ err e
      | panicked ↦ panicked
    ]

-- The match on the status: pending orders lock the pool.
unfoldable pub has_pending_orders : PoolStatus → Bool
has_pending_orders (pending_order n) = true
has_pending_orders (locked_pending_order n) = true
has_pending_orders _ = false

-- `now - last > period`
unfoldable pub fees_are_due : PoolHeader → ℕ → Bool
fees_are_due header now =
    ltb header.fee_collection_period (sub_u64 now header.last_fee_collection_timestamp)

-- The pool's data is zeroed behind the header, and the header's status is reset.
unfoldable pub reset_pool : AccountInfo → PoolHeader → Action (Unit {0})
reset_pool pool header = do
  bytes ← data_of pool
  bytes ← lift (with_tail header_len (λ tail. ok (fill_slice tail 0)) bytes)
  write_data pool bytes
  write_header pool (record header { status = uninitialized })

module _ (rt : Runtime) (program_id : Pubkey) where
  unfoldable pub redeem_accounts : List AccountInfo → Action (RedeemAccounts × List AccountInfo)
  redeem_accounts accounts = do
    (spl_token, accounts) ← lift (next_account_info accounts)
    require_not (not (eq_bytes spl_token.key rt.spl_token_id)) incorrect_program_id
    (clock, accounts) ← lift (next_account_info accounts)
    (mint, accounts) ← lift (next_account_info accounts)
    (owner, accounts) ← lift (next_account_info accounts)
    (source, accounts) ← lift (next_account_info accounts)
    (pool, accounts) ← lift (next_account_info accounts)
    pure (
      record {
        spl_token = spl_token;
        clock = clock;
        mint = mint;
        source_pool_token_owner = owner;
        source_pool_token = source;
        pool = pool;
      },
      accounts,
    )

  -- The safety verifications, with the status and the time.
  unfoldable pub redeem_checks : RedeemAccounts → PoolHeader → Bytes → Action (Unit {0})
  redeem_checks a header pool_seed = do
    lift (check_pool_key rt program_id a.pool.key pool_seed)
    pool_mint_key ← lift (mint_key_of rt pool_seed program_id)
    require_not (not (eq_bytes pool_mint_key a.mint.key)) invalid_argument
    require_not (not a.source_pool_token_owner.is_signer) invalid_argument
    owner ← owner_of a.pool
    require_not (not (eq_bytes owner program_id)) invalid_argument
    require_not (has_pending_orders header.status) locked_operation_error
    now ← timestamp rt a.clock
    require_not (fees_are_due header now) locked_operation_error

  -- One transfer out of the pool, unless the amount is zero.
  unfoldable pub pay_out :
      RedeemAccounts → Bytes → AccountInfo → AccountInfo → ℕ → Action (Unit {0})
  pay_out a pool_seed from to zero = pure tt
  pay_out a pool_seed from to (suc n) = do
    instruction ← lift (rt.transfer a.spl_token.key from.key to.key a.pool.key [] (suc n))
    invoke_signed rt instruction (a.spl_token ∷ from ∷ to ∷ a.pool ∷ []) ((pool_seed ∷ []) ∷ [])

  -- The loop over the assets. The lists have one length; an index past one of them would panic.
  unfoldable pub buy_out :
      RedeemAccounts
      → Bytes
      → ℕ
      → ℕ
      → List PoolAsset
      → List AccountInfo
      → List AccountInfo
      → Action (Unit {0})
  buy_out a pool_seed amount supply [] froms tos = pure tt
  buy_out a pool_seed amount supply (asset ∷ assets) [] tos = lift panicked
  buy_out a pool_seed amount supply (asset ∷ assets) (from ∷ froms) [] = lift panicked
  buy_out a pool_seed amount supply (asset ∷ assets) (from ∷ froms) (to ∷ tos) =
      (do
        let pool_asset_key = rt.get_associated_token_address a.pool.key asset.mint_address
        require_not (not (eq_bytes pool_asset_key from.key)) invalid_argument
        pool_asset ← token_account rt from
        paid ← lift (redeem_amount amount pool_asset.amount supply)
        pay_out a pool_seed from to paid)
      >> buy_out a pool_seed amount supply assets froms tos

  unfoldable pub burn_tokens : RedeemAccounts → ℕ → Action (Unit {0})
  burn_tokens a amount = do
    instruction ← lift (
        rt.burn a.spl_token.key a.source_pool_token.key a.mint.key a.source_pool_token_owner.key []
          amount)
    invoke rt instruction
        (a.spl_token ∷ a.source_pool_token ∷ a.mint ∷ a.source_pool_token_owner ∷ [])

  unfoldable pub process_redeem : List AccountInfo → Bytes → ℕ → Action (Unit {0})
  process_redeem accounts pool_seed pool_token_amount = do
    (a, accounts) ← redeem_accounts accounts
    header ← read_header a.pool
    tail ← asset_bytes a.pool header
    pool_assets ← lift (unpack_assets tail)
    (froms, accounts) ← lift (next_accounts (length pool_assets) accounts)
    (tos, accounts) ← lift (next_accounts (length pool_assets) accounts)
    redeem_checks a header pool_seed
    total_pooltokens ← mint_supply rt a.mint
    source ← token_account rt a.source_pool_token
    require_not (ltb source.amount pool_token_amount) insufficient_funds
    buy_out a pool_seed pool_token_amount total_pooltokens pool_assets froms tos
    burn_tokens a pool_token_amount
    (if pool_token_amount == total_pooltokens then reset_pool a.pool header else pure tt)
