-- ===== src/Processor/Reads.antt =====
-- The steps of the handlers that only look at the world leave it as it is.
use bonfida_bot.Bytes.{Bytes}
use bonfida_bot.Prelude.{ℕ, ◌≡◌, List, arith}
use bonfida_bot.Outcome.{ok}
use bonfida_bot.State.{PoolHeader, Pubkey}
use bonfida_bot.Runtime.{Runtime, AccountInfo, World, TokenAccount}
use bonfida_bot.Processor.Common.{read_header, token_account, mint_supply, asset_bytes}
use bonfida_bot.Processor.Redeem.{redeem_accounts, RedeemAccounts}

pub read_header-eq-ok :
    (pool : AccountInfo) (w w' : World) (header : PoolHeader)
    → read_header pool w ≡ ok (header, w')
    → w ≡ w'
unfolding read_header
read_header-eq-ok pool w w' header h = ground arith

pub asset_bytes-eq-ok :
    (pool : AccountInfo) (header : PoolHeader) (w w' : World) (tail : Bytes)
    → asset_bytes pool header w ≡ ok (tail, w')
    → w ≡ w'
unfolding asset_bytes
asset_bytes-eq-ok pool header w w' tail h = ground arith

module _ (rt : Runtime) where
  pub mint_supply-eq-ok :
      (mint : AccountInfo) (w w' : World) (supply : ℕ)
      → mint_supply rt mint w ≡ ok (supply, w')
      → w ≡ w'
  mint_supply-eq-ok mint w w' supply h = ground arith

  pub token_account-eq-ok :
      (info : AccountInfo) (w w' : World) (t : TokenAccount)
      → token_account rt info w ≡ ok (t, w')
      → w ≡ w'
  token_account-eq-ok mint w w' supply h = ground arith

  pub redeem_accounts-eq-ok :
      (program_id : Pubkey) (accounts : List AccountInfo) (w w' : World)
      (p : RedeemAccounts × List AccountInfo)
      → redeem_accounts rt program_id accounts w ≡ ok (p, w')
      → w ≡ w'
  unfolding redeem_accounts
  redeem_accounts-eq-ok program_id accounts w w' p h = ground arith
