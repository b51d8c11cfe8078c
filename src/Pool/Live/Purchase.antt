-- ===== src/Pool/Live/Purchase.antt =====
-- What a deposit (`Processor::process_deposit`) needs on the ledger to succeed, and what it leaves.
use bonfida_bot.Prelude.{
  ℕ, ◌+◌, ◌-◌, ◌*◌, ◌^◌, ◌<◌, ◌≤◌, ◌≡◌, ◌≢◌, ◌⊎◌, true, List, [], ◌∷◌, ◌++◌, length, drop,
}
use bonfida_bot.Outcome.{ok}
use bonfida_bot.Bytes.{Bytes}
use bonfida_bot.State.{Pubkey, PoolAsset, is_initialized, unlocked}
use bonfida_bot.Assets.{unpack_assets}
use bonfida_bot.Runtime.{Runtime, AccountInfo, AccountState, Ledger, TokenAccount, World}
use bonfida_bot.Runtime.Tokens.{Holding}
use bonfida_bot.Processor.Common.{mint_key_of, fee_address, bonfida_fee, bonfida_bnb}
use bonfida_bot.Processor.Payments.{share, Apart, Separate, Each}
use bonfida_bot.Processor.Deposit.{DepositAccounts, pool_token_fee}
use bonfida_bot.Processor.Deposit.Payments.{IsBuyable, IsBought}
use bonfida_bot.Pool.Step.{Pool}
use bonfida_bot.Pool.Moves.{HoldsPool}
use bonfida_bot.Pool.Live.Mints.{IsMintOf}
use bonfida_bot.Pool.Live.Shares.{Payees, IsPayee, ArePayees, ArePaid, IsNoPayee}

-- The accounts as they are passed.
abbrev pub deposit_list :
    DepositAccounts
    → AccountInfo
    → List AccountInfo
    → List AccountInfo
    → List AccountInfo
    → List AccountInfo
deposit_list a owner tos froms rest =
    a.spl_token
    ∷ a.mint
    ∷ a.target_pool_token
    ∷ a.signal_provider_pt
    ∷ a.bonfida_fee_pt
    ∷ a.bonfida_bnb_pt
    ∷ a.pool
    ∷ (tos ++ (owner ∷ (froms ++ rest)))

-- The fee accounts, and what they hold before.
abbrev pub deposit_payees : DepositAccounts → TokenAccount → TokenAccount → TokenAccount → Payees
deposit_payees a provider fee bnb = record {
  provider = a.signal_provider_pt;
  fee = a.bonfida_fee_pt;
  bnb = a.bonfida_bnb_pt;
  provider_before = provider;
  fee_before = fee;
  bnb_before = bnb;
}

-- The pool's account for some asset holds enough that its share is not 0.
abbrev pub SomeShare : Runtime → Ledger → ℕ → ℕ → List AccountInfo → Type 0
SomeShare rt ledger amount supply [] = ⊥
SomeShare rt ledger amount supply (to ∷ tos) =
    ((t : TokenAccount) × (rt.unpack_account (ledger to.key).bytes ≡ ok t)
      × (0 < share amount t.amount supply))
    ⊎ SomeShare rt ledger amount supply tos

-- The accounts that a deposit mints to, and the mint.
pub record IsUnminted (a : DepositAccounts) (k : Pubkey) : Type 0 where
  pub from_mint : k ≢ a.mint.key
  pub from_target : k ≢ a.target_pool_token.key
  pub from_provider : k ≢ a.signal_provider_pt.key
  pub from_fee : k ≢ a.bonfida_fee_pt.key
  pub from_bnb : k ≢ a.bonfida_bnb_pt.key

-- The key is none of the accounts' that pay or are paid.
pub record IsOutside (tos froms : List AccountInfo) (k : Pubkey) : Type 0 where
  pub from_tos : Apart k tos
  pub from_froms : Apart k froms

-- The owner of the accounts `froms` can buy `amount` tokens of the pool `p`, of which there are
-- `supply`, and whose assets are `assets` in the accounts `tos`.
pub record IsPurchase (rt : Runtime) (program_id : Pubkey) (Usable : AccountState → Type 0)
    (w : World) (a : DepositAccounts) (owner : AccountInfo) (p : Pool) (assets : List PoolAsset)
    (tos froms : List AccountInfo) (pool_seed : Bytes) (amount supply : ℕ)
    (target provider fee bnb : TokenAccount) : Type 0 where
  pub spl : a.spl_token.key ≡ rt.spl_token_id
  pub pool_key : rt.create_program_address (pool_seed ∷ []) program_id ≡ ok a.pool.key
  pub mint_key : mint_key_of rt pool_seed program_id ≡ ok a.mint.key
  pub provider_key :
      a.signal_provider_pt.key ≡ rt.get_associated_token_address p.header.signal_provider a.mint.key
  pub fee_key : fee_address rt bonfida_fee a.mint.key ≡ ok a.bonfida_fee_pt.key
  pub bnb_key : fee_address rt bonfida_bnb a.mint.key ≡ ok a.bonfida_bnb_pt.key
  pub initialized : is_initialized p.header ≡ true
  pub open_to_all : p.header.status ≡ unlocked
  pub signer : owner.is_signer ≡ true
  pub markets_fit : 32 * p.header.number_of_markets ≤ length p.rest
  pub assets_are : unpack_assets (drop (32 * p.header.number_of_markets) p.rest) ≡ ok assets
  pub some_issued : 0 < supply
  pub some_tokens : 0 < amount
  pub room : supply + amount < 2 ^ 64
  pub buyable :
      Separate (IsBuyable rt Usable a.pool.key owner.key amount supply w.ledger) assets tos froms
  pub some_share : SomeShare rt w.ledger amount supply tos
  pub to_target : IsPayee rt Usable w.ledger a.mint a.pool a.target_pool_token target amount
  pub payees :
      ArePayees rt Usable w.ledger a.mint a.pool
        (deposit_payees a provider fee bnb)
        (pool_token_fee p.header.fee_ratio amount)
  pub target_no_payee : IsNoPayee (deposit_payees a provider fee bnb) a.target_pool_token.key
  pub pool_from_mint : a.pool.key ≢ a.mint.key
  pub mint_outside : IsOutside tos froms a.mint.key
  pub target_outside : IsOutside tos froms a.target_pool_token.key
  pub provider_outside : IsOutside tos froms a.signal_provider_pt.key
  pub fee_outside : IsOutside tos froms a.bonfida_fee_pt.key
  pub bnb_outside : IsOutside tos froms a.bonfida_bnb_pt.key
  pub pool_outside : IsOutside tos froms a.pool.key

-- Every source has paid its share, `amount` tokens were minted, of which the target has what the
-- fee leaves and the fee accounts have the shares of the fee, the pool is as it was, and no other
-- account has changed.
pub record IsPurchased (rt : Runtime) (program_id : Pubkey) (Usable : AccountState → Type 0)
    (Authority : AccountState → Pubkey → Type 0) (w w' : World) (a : DepositAccounts) (p : Pool)
    (tos froms : List AccountInfo) (amount supply : ℕ) (target provider fee bnb : TokenAccount)
    : Type 0 where
  pub bought : Each (IsBought rt Usable amount supply w.ledger w'.ledger) tos froms
  pub minted : IsMintOf rt Usable Authority w' a.mint a.pool.key (supply + amount)
  pub target_after :
      Holding rt w'.ledger a.target_pool_token.key target
        (target.amount + (amount - pool_token_fee p.header.fee_ratio amount))
  pub target_usable : Usable (w'.ledger a.target_pool_token.key)
  pub paid :
      ArePaid rt w'.ledger
        (deposit_payees a provider fee bnb)
        (pool_token_fee p.header.fee_ratio amount)
  pub pool_after : HoldsPool program_id a.pool.key p w'
  pub others : (k : Pubkey) → IsOutside tos froms k → IsUnminted a k → w'.ledger k ≡ w.ledger k
