-- ===== src/Pool/Keeps.antt =====
-- The handlers that leave every account of the program as it is.
use bonfida_bot.Processor.Deposit.{
  deposit_amount, process_deposit, DepositAccounts, deposit_accounts, deposit_checks, buy_in_limit,
  pay_in, buy_in, mint_deposit,
}
use bonfida_bot.Outcome.{panicked, invalid_argument}
use bonfida_bot.State.{Pubkey, PoolAsset, PoolHeader}
use bonfida_bot.Bytes.{Bytes, eq_bytes}
use bonfida_bot.Processor.CollectFees.{
  collect_pay, CollectAccounts, collect_accounts, collect_checks, collect_due,
}
use bonfida_bot.Processor.Redeem.{buy_out, RedeemAccounts, pay_out, burn_tokens}
use bonfida_bot.Processor.Settle.{settle_call, SettleAccounts}
use bonfida_bot.Prelude.{not, ◌||◌, ℕ, List, zero, suc, false, [], ◌∷◌}
use bonfida_bot.Instruction.{Side}
use bonfida_bot.Runtime.{Runtime, AccountInfo}
use bonfida_bot.Processor.Cancel.{process_cancel}
use bonfida_bot.Processor.Create.{process_init, CreateAccounts, first_deposit, first_deposits}
use bonfida_bot.Pool.Frame.{
  Keeps, keeps_rules, IsRuntime, Keeps-pure, Keeps-lift, Keeps-bind, Keeps-token_account,
  Keeps-require_not,
}

module _ {rt : Runtime} {program_id key : Pubkey} (laws : IsRuntime rt program_id) where
  pub process_cancel-Keeps :
      (accounts : List AccountInfo) (pool_seed : Bytes) (side : Side) (order_id : ℕ)
      → Keeps program_id key (process_cancel rt program_id accounts pool_seed side order_id)
  unfolding process_cancel
  process_cancel-Keeps accounts pool_seed side order_id = search (keeps_rules, laws) depth 40

  pub process_init-Keeps :
      (accounts : List AccountInfo) (pool_seed : Bytes) (n m : ℕ)
      → Keeps program_id key (process_init rt program_id accounts pool_seed n m)
  unfolding process_init
  process_init-Keeps accounts pool_seed n m = search (keeps_rules, laws) depth 40

  buy_in_limit-Keeps :
      (supply : ℕ) (pools sources : List AccountInfo) (effective : ℕ)
      → Keeps program_id key (buy_in_limit rt program_id supply pools sources effective)
  unfolding buy_in_limit
  buy_in_limit-Keeps supply [] sources effective = Keeps-pure _
  buy_in_limit-Keeps supply (pool ∷ pools) [] effective = Keeps-lift panicked
  buy_in_limit-Keeps supply (pool ∷ pools) (source ∷ sources) effective =
      Keeps-bind _ _ (Keeps-token_account rt pool) λ p.
        Keeps-bind _ _ (Keeps-token_account rt source)
          λ q. Keeps-bind _ _ (buy_in_limit-Keeps supply pools sources _) λ r. Keeps-pure _

  pay_in-Keeps :
      (a : DepositAccounts) (owner from to : AccountInfo) (amount : ℕ)
      → Keeps program_id key (pay_in rt program_id a owner from to amount)
  unfolding pay_in
  pay_in-Keeps a owner from to zero = Keeps-pure false
  pay_in-Keeps a owner from to (suc n) = search (keeps_rules, laws) depth 40

  buy_in-Keeps :
      (a : DepositAccounts) (owner : AccountInfo) (pool_key : Pubkey) (effective supply : ℕ)
      (assets : List PoolAsset) (tos froms : List AccountInfo) (amounts : List ℕ)
      → Keeps program_id key
          (buy_in rt program_id a owner pool_key effective supply assets tos froms amounts)
  unfolding buy_in
  buy_in-Keeps a owner pool_key effective supply [] tos froms amounts = Keeps-pure false
  buy_in-Keeps a owner pool_key effective supply (asset ∷ assets) [] froms amounts =
      Keeps-lift panicked
  buy_in-Keeps a owner pool_key effective supply (asset ∷ assets) (to ∷ tos) [] amounts =
      Keeps-lift panicked
  buy_in-Keeps a owner pool_key effective supply (asset ∷ assets) (to ∷ tos) (from ∷ froms) [] =
      Keeps-lift panicked
  buy_in-Keeps a owner pool_key effective supply (asset ∷ assets) (to ∷ tos) (from ∷ froms)
        (amount ∷ amounts) =
      Keeps-bind _ _
        (Keeps-require_not
          (not (eq_bytes (rt.get_associated_token_address pool_key asset.mint_address) to.key))
          invalid_argument)
        λ u. Keeps-bind _ _ (Keeps-lift (deposit_amount effective amount supply)) λ paid.
          Keeps-bind _ _ (pay_in-Keeps a owner from to paid) λ moved.
            Keeps-bind _ _ (buy_in-Keeps a owner pool_key effective supply assets tos froms amounts)
              λ others. Keeps-pure (moved || others)

  pub process_deposit-Keeps :
      (accounts : List AccountInfo) (pool_seed : Bytes) (amount : ℕ)
      → Keeps program_id key (process_deposit rt program_id accounts pool_seed amount)
  unfolding process_deposit deposit_accounts deposit_checks mint_deposit
  process_deposit-Keeps accounts pool_seed amount =
      search (keeps_rules, laws, buy_in_limit-Keeps, buy_in-Keeps) depth 60 fits 2000

  pub collect_accounts-Keeps :
      (accounts : List AccountInfo) → Keeps program_id key (collect_accounts rt program_id accounts)
  unfolding collect_accounts
  collect_accounts-Keeps accounts = search keeps_rules depth 40

  pub collect_checks-Keeps :
      (a : CollectAccounts) (pool_seed : Bytes)
      → Keeps program_id key (collect_checks rt program_id a pool_seed)
  unfolding collect_checks
  collect_checks-Keeps a pool_seed = search keeps_rules depth 40

  pub collect_due-Keeps :
      (a : CollectAccounts) (header : PoolHeader)
      → Keeps program_id key (collect_due rt program_id a header)
  unfolding collect_due
  collect_due-Keeps a header = search keeps_rules depth 40

  pub collect_pay-Keeps :
      (a : CollectAccounts) (pool_seed : Bytes) (mint_key : Pubkey) (tokens : ℕ)
      → Keeps program_id key (collect_pay rt program_id a pool_seed mint_key tokens)
  unfolding collect_pay
  collect_pay-Keeps a pool_seed mint_key tokens = search (keeps_rules, laws) depth 40

  pay_out-Keeps :
      (a : RedeemAccounts) (pool_seed : Bytes) (from to : AccountInfo) (amount : ℕ)
      → Keeps program_id key (pay_out rt program_id a pool_seed from to amount)
  unfolding pay_out
  pay_out-Keeps a pool_seed from to zero = Keeps-pure tt
  pay_out-Keeps a pool_seed from to (suc n) = search (keeps_rules, laws) depth 40

  pub buy_out-Keeps :
      (a : RedeemAccounts) (pool_seed : Bytes) (amount supply : ℕ) (assets : List PoolAsset)
      (froms tos : List AccountInfo)
      → Keeps program_id key (buy_out rt program_id a pool_seed amount supply assets froms tos)
  unfolding buy_out
  buy_out-Keeps a pool_seed amount supply [] froms tos = Keeps-pure tt
  buy_out-Keeps a pool_seed amount supply (asset ∷ assets) [] tos = Keeps-lift panicked
  buy_out-Keeps a pool_seed amount supply (asset ∷ assets) (from ∷ froms) [] = Keeps-lift panicked
  buy_out-Keeps a pool_seed amount supply (asset ∷ assets) (from ∷ froms) (to ∷ tos) =
      Keeps-bind _ _ (search (keeps_rules, pay_out-Keeps) depth 40)
        λ u. buy_out-Keeps a pool_seed amount supply assets froms tos

  pub burn_tokens-Keeps :
      (a : RedeemAccounts) (amount : ℕ) → Keeps program_id key (burn_tokens rt program_id a amount)
  unfolding burn_tokens
  burn_tokens-Keeps a amount = search (keeps_rules, laws) depth 40

  pub settle_call-Keeps :
      (a : SettleAccounts) (pool_seed : Bytes)
      → Keeps program_id key (settle_call rt program_id a pool_seed)
  unfolding settle_call
  settle_call-Keeps a pool_seed = search (keeps_rules, laws) depth 40

  first_deposit-Keeps :
      (a : CreateAccounts) (pool_key : Pubkey) (to from : AccountInfo) (amount : ℕ)
      → Keeps program_id key (first_deposit rt program_id a pool_key to from amount)
  unfolding first_deposit
  first_deposit-Keeps a pool_key to from zero = Keeps-pure _
  first_deposit-Keeps a pool_key to from (suc n) = search (keeps_rules, laws) depth 40

  pub first_deposits-Keeps :
      (a : CreateAccounts) (pool_key : Pubkey) (amounts : List ℕ) (tos froms : List AccountInfo)
      → Keeps program_id key (first_deposits rt program_id a pool_key amounts tos froms)
  unfolding first_deposits
  first_deposits-Keeps a pool_key [] tos froms = Keeps-pure _
  first_deposits-Keeps a pool_key (amount ∷ amounts) [] froms = Keeps-lift panicked
  first_deposits-Keeps a pool_key (amount ∷ amounts) (to ∷ tos) [] = Keeps-lift panicked
  first_deposits-Keeps a pool_key (amount ∷ amounts) (to ∷ tos) (from ∷ froms) =
      Keeps-bind _ _ (first_deposit-Keeps a pool_key to from amount) λ pushed.
        Keeps-bind _ _ (first_deposits-Keeps a pool_key amounts tos froms) λ others. Keeps-pure _
