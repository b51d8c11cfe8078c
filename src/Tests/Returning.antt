-- ===== src/Tests/Returning.antt =====
-- Buying into the pool of the fixtures, and leaving it at once.
use bonfida_bot.Tests.Buying.{buyer, outside, purchase}
use bonfida_bot.Processor.Redeem.{process_redeem, fees_are_due}
use bonfida_bot.Pool.Live.Claim.{IsRedeemed, redeem_list}
use bonfida_bot.Pool.Live.Returning.{IsNoGain}
use bonfida_bot.Pool.Live.Return.{returning, bought_tokens, IsClock, deposit-then-redeem}
use bonfida_bot.Prelude.{◌≡◌, refl, [], ◌∷◌, arith}
use bonfida_bot.Outcome.{ok}
use bonfida_bot.Bytes.{to_le_bytes, from_le_bytes}
use bonfida_bot.Runtime.{World}
use bonfida_bot.Processor.Payments.{Each}
use bonfida_bot.Processor.Deposit.{process_deposit, pool_token_fee}
use bonfida_bot.Pool.Live.Purchase.{deposit_list}
use bonfida_bot.Tests.Fixtures.{
  program_key, pool_key, mint_key, owner_key, target_key, vault_key, account, signer, clock_key,
}
use bonfida_bot.Tests.Tokens.{token_runtime, token_runtime-IsToken, token_runtime-IsMinting}
use bonfida_bot.Tests.Claims.{
  before, apart, pool, pool-HoldsPool, asset, tokens_of, payee, mintable,
}

-- Before any fees are due.
buyer-IsClock :
    IsClock token_runtime
      (before 2000)
      buyer
      pool
      (account vault_key ∷ [])
      (account target_key ∷ [])
      (account clock_key)
unfolding fees_are_due to_le_bytes from_le_bytes
buyer-IsClock = record {
  now = 2000;
  time = refl;
  none_due = refl;
  clock_outside = outside clock_key refl refl;
  clock_unminted = record {
    from_mint = apart _ _ refl;
    from_target = apart _ _ refl;
    from_provider = apart _ _ refl;
    from_fee = apart _ _ refl;
    from_bnb = apart _ _ refl;
  };
}

-- 100 of the tokens are redeemed again.
deposit-then-redeem_example :
    (w1 : World) × (w2 : World) × (process_deposit token_runtime program_key
        (deposit_list buyer
          (signer owner_key)
          (account vault_key ∷ [])
          (account target_key ∷ [])
          [])
        pool_key
        120
        (before 2000)
      ≡ ok (tt, w1))
    × (process_redeem token_runtime program_key
          (redeem_list
            (returning buyer (signer owner_key) (account clock_key))
            (account vault_key ∷ account target_key ∷ []))
          pool_key
          100
          w1
        ≡ ok (tt, w2))
    × IsRedeemed token_runtime program_key w1 w2
        (returning buyer (signer owner_key) (account clock_key))
        pool
        (account vault_key ∷ [])
        (account target_key ∷ [])
        100
        (bought_tokens buyer pool (tokens_of mint_key owner_key 110) 120)
        320
    × Each
        (IsNoGain token_runtime (before 2000).ledger w2.ledger)
        (account vault_key ∷ [])
        (account target_key ∷ [])
unfolding pool_token_fee
deposit-then-redeem_example =
    deposit-then-redeem (token_runtime-IsToken program_key) (token_runtime-IsMinting program_key)
      (before 2000) buyer (signer owner_key) (account clock_key) pool (asset ∷ [])
      (account vault_key ∷ []) (account target_key ∷ []) [] [] pool_key 120 200 100
      (tokens_of mint_key owner_key 110) payee payee payee (pool-HoldsPool 2000) (mintable 2000)
      purchase buyer-IsClock refl (omega arith) (omega arith)
