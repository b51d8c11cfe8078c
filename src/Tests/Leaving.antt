-- ===== src/Tests/Leaving.antt =====
-- Leaving the pool of the fixtures: its fees are collected, and then tokens are redeemed.
use bonfida_bot.Prelude.{◌≡◌, refl, [], ◌∷◌, arith}
use bonfida_bot.Outcome.{ok}
use bonfida_bot.Bytes.{to_le_bytes, from_le_bytes}
use bonfida_bot.Runtime.{World}
use bonfida_bot.Processor.CollectFees.{process_collect_fees}
use bonfida_bot.Utils.{check_pool_key}
use bonfida_bot.Processor.Redeem.{process_redeem, has_pending_orders, fees_are_due}
use bonfida_bot.Pool.Live.Claim.{IsRedeemed, redeem_list}
use bonfida_bot.Pool.Live.Collection.{IsCollected, collect_list}
use bonfida_bot.Pool.Live.Exit.{collected_pool, collect-then-redeem}
use bonfida_bot.Processor.Redeem.Gates.{MayRedeem}
use bonfida_bot.Pool.Live.Redeem.{process_redeem-IsRedeemed}
use bonfida_bot.Pool.Live.Collect.{process_collect_fees-IsCollected}
use bonfida_bot.Tests.Tokens.{
  token_runtime, token_runtime-IsToken, token_runtime-IsMinting, Usable, Authority,
}
use bonfida_bot.Tests.Fixtures.{
  program_key, pool_key, mint_key, clock_key, owner_key, source_key, target_key, vault_key, account,
  header, signer,
}
use bonfida_bot.Tests.Claims.{
  accounts, before, pool, pool-HoldsPool, asset, tokens_of, payee, mintable, collection, leaver,
  claim, untouched,
}

-- Before any fees are due, 100 of the 200 tokens stand for as many units of the asset.
checks : MayRedeem token_runtime program_key (before 2000) leaver header pool_key
unfolding MayRedeem check_pool_key has_pending_orders fees_are_due to_le_bytes from_le_bytes
checks = (refl, refl, refl, refl, refl, (2000, refl, refl))

process_redeem-IsRedeemed_example :
    (w' : World) × (process_redeem token_runtime program_key
        (redeem_list leaver (account vault_key ∷ account target_key ∷ []))
        pool_key
        100
        (before 2000)
      ≡ ok (tt, w'))
    × IsRedeemed token_runtime program_key
        (before 2000)
        w'
        leaver
        pool
        (account vault_key ∷ [])
        (account target_key ∷ [])
        100
        (tokens_of mint_key owner_key 110)
        200
process_redeem-IsRedeemed_example =
    process_redeem-IsRedeemed (token_runtime-IsToken program_key) (before 2000) leaver pool
      (asset ∷ []) (account vault_key ∷ []) (account target_key ∷ []) pool_key 100
      (tokens_of mint_key owner_key 110) 200
      (claim 2000 100 200 (omega arith) (omega arith) (omega arith) (omega arith)) checks
      (pool-HoldsPool 2000) (mintable 2000).mint_account []

process_collect_fees-IsCollected_example :
    (w' : World) × (process_collect_fees token_runtime program_key
        (collect_list accounts)
        pool_key
        (before 1900000)
      ≡ ok (tt, w'))
    × IsCollected token_runtime program_key Usable Authority
        (before 1900000)
        w'
        accounts
        pool
        3
        200
        6
        payee
        payee
        payee
process_collect_fees-IsCollected_example =
    process_collect_fees-IsCollected (token_runtime-IsMinting program_key) (before 1900000) accounts
      pool pool_key 1900000 3 200 6 payee payee payee collection (pool-HoldsPool 1900000)
      (mintable 1900000)

-- Half of the 206 tokens that there are after the collection stand for 100 units of the asset.
collect-then-redeem_example :
    (w1 : World) × (w2 : World) × (process_collect_fees token_runtime program_key
        (collect_list accounts)
        pool_key
        (before 1900000)
      ≡ ok (tt, w1))
    × IsCollected token_runtime program_key Usable Authority
        (before 1900000)
        w1
        accounts
        pool
        3
        200
        6
        payee
        payee
        payee
    × (process_redeem token_runtime program_key
          (redeem_list leaver (account vault_key ∷ account target_key ∷ []))
          pool_key
          103
          w1
        ≡ ok (tt, w2))
    × IsRedeemed token_runtime program_key w1 w2 leaver
        (collected_pool pool 3)
        (account vault_key ∷ [])
        (account target_key ∷ [])
        103
        (tokens_of mint_key owner_key 110)
        206
unfolding has_pending_orders
collect-then-redeem_example =
    collect-then-redeem (token_runtime-IsToken program_key) (token_runtime-IsMinting program_key)
      (before 1900000) accounts (signer owner_key) (account source_key) pool (asset ∷ [])
      (account vault_key ∷ []) (account target_key ∷ []) [] pool_key 103 1900000 3 200 6
      (tokens_of mint_key owner_key 110) payee payee payee (pool-HoldsPool 1900000) refl
      (omega arith) (omega arith) (mintable 1900000) collection
      (claim 1900000 103 206 (omega arith) (omega arith) (omega arith) (omega arith)) refl
      (untouched clock_key refl refl refl refl refl) (untouched source_key refl refl refl refl refl)
      (untouched vault_key refl refl refl refl refl, tt)
      (untouched target_key refl refl refl refl refl, tt)
