-- ===== src/Pool/Live/Claim.antt =====
-- What a redemption (`Processor::process_redeem`) needs on the ledger to succeed, and what it leaves.
use bonfida_bot.Prelude.{
  ℕ, ◌*◌, ◌-◌, ◌≤◌, ◌<◌, ◌≡◌, ◌≢◌, true, List, ◌∷◌, length, drop, if◌then◌else◌, ◌==◌,
}
use bonfida_bot.Outcome.{ok}
use bonfida_bot.State.{Pubkey, PoolAsset, is_initialized}
use bonfida_bot.Assets.{unpack_assets}
use bonfida_bot.Runtime.{Runtime, AccountInfo, AccountState, TokenAccount, World}
use bonfida_bot.Pool.Live.Access.{emptied_pool}
use bonfida_bot.Runtime.Tokens.{IsAccount, Holding, Supply}
use bonfida_bot.Processor.Redeem.{RedeemAccounts}
use bonfida_bot.Processor.Payments.{Apart}
use bonfida_bot.Processor.Redeem.Payouts.{Payable, PaidOut}
use bonfida_bot.Pool.Step.{Pool}
use bonfida_bot.Pool.Moves.{HoldsPool}

-- The accounts as they are passed.
abbrev pub redeem_list : RedeemAccounts → List AccountInfo → List AccountInfo
redeem_list a rest =
    a.spl_token ∷ a.clock ∷ a.mint ∷ a.source_pool_token_owner ∷ a.source_pool_token ∷ a.pool ∷ rest

-- The key is none of the accounts' of the redemption.
pub record IsElsewhere (a : RedeemAccounts) (froms tos : List AccountInfo) (k : Pubkey)
    : Type 0 where
  pub from_froms : Apart k froms
  pub from_tos : Apart k tos
  pub from_source : k ≢ a.source_pool_token.key
  pub from_mint : k ≢ a.mint.key

-- The owner of `source` can redeem `amount` of its pool tokens, of which there are `supply`, from
-- the pool `p`, whose assets are `assets`, in the accounts `froms`, to the accounts `tos`.
pub record IsClaim (rt : Runtime) (Usable : AccountState → Type 0) (w : World) (a : RedeemAccounts)
    (p : Pool) (assets : List PoolAsset) (froms tos : List AccountInfo) (amount : ℕ)
    (source : TokenAccount) (supply : ℕ) : Type 0 where
  pub spl : a.spl_token.key ≡ rt.spl_token_id
  pub initialized : is_initialized p.header ≡ true
  pub markets_fit : 32 * p.header.number_of_markets ≤ length p.rest
  pub assets_are : unpack_assets (drop (32 * p.header.number_of_markets) p.rest) ≡ ok assets
  pub payable : Payable rt Usable a.pool.key amount supply w.ledger assets froms tos
  pub source_account : IsAccount rt Usable w.ledger a.source_pool_token source
  pub source_mint : source.mint ≡ a.mint.key
  pub source_owner : source.owner ≡ a.source_pool_token_owner.key
  pub enough : amount ≤ source.amount
  pub issued : amount ≤ supply
  pub some_issued : 0 < supply
  pub pool_elsewhere : IsElsewhere a froms tos a.pool.key
  pub source_from_mint : a.source_pool_token.key ≢ a.mint.key
  pub source_from_froms : Apart a.source_pool_token.key froms
  pub source_from_tos : Apart a.source_pool_token.key tos
  pub mint_from_froms : Apart a.mint.key froms
  pub mint_from_tos : Apart a.mint.key tos

-- Each target has its share of the assets, the tokens are burnt, the pool is as it was, or emptied
-- if these were all its tokens, and no other account has changed.
pub record IsRedeemed (rt : Runtime) (program_id : Pubkey) (w w' : World) (a : RedeemAccounts)
    (p : Pool) (froms tos : List AccountInfo) (amount : ℕ) (source : TokenAccount) (supply : ℕ)
    : Type 0 where
  pub paid : PaidOut rt amount supply w.ledger w'.ledger froms tos
  pub source_after : Holding rt w'.ledger a.source_pool_token.key source (source.amount - amount)
  pub supply_after : Supply rt w'.ledger a.mint.key (supply - amount)
  pub pool_after :
      HoldsPool program_id a.pool.key (if amount == supply then emptied_pool p else p) w'
  pub others : (k : Pubkey) → IsElsewhere a froms tos k → k ≢ a.pool.key → w'.ledger k ≡ w.ledger k
