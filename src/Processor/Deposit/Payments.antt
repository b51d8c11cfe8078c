-- ===== src/Processor/Deposit/Payments.antt =====
-- What the payments of a deposit need, and what they leave in the token accounts.
use bonfida_bot.Prelude.{ℕ, zero, suc, ◌+◌, ◌-◌, ◌*◌, ◌^◌, ◌≤◌, ◌<◌, ◌≡◌, ◌≢◌, ◌⊎◌, refl, arith}
use bonfida_bot.Outcome.{ok}
use bonfida_bot.State.{Pubkey, PoolAsset}
use bonfida_bot.Runtime.{Runtime, Ledger, AccountInfo, AccountState, TokenAccount}
use bonfida_bot.Runtime.Tokens.{IsAccount, Holding}
use bonfida_bot.Processor.Payments.{share}
use native.Mathlib.Nat.{div-le_of_le-mul, mul_comm}
use bonfida_bot.Processor.Deposit.{deposit_amount}

-- What is paid in for an asset is the share of the pool's holding.
pub deposit_amount-eq-share :
    (amount held supply : ℕ)
    → 0 < supply
    → deposit_amount amount held supply ≡ ok (share amount held supply)
unfolding deposit_amount
deposit_amount-eq-share amount held zero pos = absurd (omega arith)
deposit_amount-eq-share amount held (suc n) pos = refl

-- Who holds the exact share can pay the share.
pub share-le :
    (amount held owned supply : ℕ)
    → 0 < supply
    → amount * held ≤ owned * supply
    → share amount held supply ≤ owned
share-le amount held owned zero pos enough = absurd (omega arith)
share-le amount held owned (suc n) pos enough =
    div-le_of_le-mul (suc n) (omega (arith, mul_comm owned (suc n)))

-- The pool's account for an asset and the source are token accounts of one mint, they differ, the
-- source holds the share of the pool's holding for `amount` pool tokens, and the pool's account has
-- room for it. The number of pool tokens that the source can pay for is a u64, or the pool holds
-- nothing: `Processor::process_deposit` cuts that number off to a u64.
pub record IsBuyable (rt : Runtime) (Usable : AccountState → Type 0) (pool_key owner_key : Pubkey)
    (amount supply : ℕ) (ledger : Ledger) (asset : PoolAsset) (to from : AccountInfo) : Type 0 where
  pub held : TokenAccount
  pub owned : TokenAccount
  pub address : rt.get_associated_token_address pool_key asset.mint_address ≡ to.key
  pub to_account : IsAccount rt Usable ledger to held
  pub from_account : IsAccount rt Usable ledger from owned
  pub apart : from.key ≢ to.key
  pub same_mint : owned.mint ≡ held.mint
  pub owner_is : owned.owner ≡ owner_key
  pub held_by_pool : held.owner ≡ pool_key
  pub untruncated : (held.amount ≡ 0) ⊎ (owned.amount * supply < 2 ^ 64 * held.amount)
  pub enough : amount * held.amount ≤ owned.amount * supply
  pub owned_fits : owned.amount < 2 ^ 64
  pub room : held.amount + share amount held.amount supply < 2 ^ 64

-- The pool's account has got the share, the source has paid it.
pub record IsBought (rt : Runtime) (Usable : AccountState → Type 0) (amount supply : ℕ)
    (ledger ledger' : Ledger) (to from : AccountInfo) : Type 0 where
  pub held : TokenAccount
  pub owned : TokenAccount
  pub held_before : rt.unpack_account (ledger to.key).bytes ≡ ok held
  pub owned_before : rt.unpack_account (ledger from.key).bytes ≡ ok owned
  pub held_after : Holding rt ledger' to.key held (held.amount + share amount held.amount supply)
  pub owned_after :
      Holding rt ledger' from.key owned (owned.amount - share amount held.amount supply)
  pub held_usable : Usable (ledger' to.key)
  pub owned_usable : Usable (ledger' from.key)
