-- ===== src/Tests/Buying.antt =====
-- Buying into the pool of the fixtures.
use bonfida_bot.Prelude.{◌≡◌, refl, inl, [], ◌∷◌, arith, false, inr}
use bonfida_bot.Outcome.{ok}
use bonfida_bot.State.{Pubkey, is_initialized}
use bonfida_bot.Bytes.{eq_bytes}
use bonfida_bot.Runtime.{World}
use bonfida_bot.Processor.Payments.{Separate}
use bonfida_bot.Processor.Deposit.{DepositAccounts, process_deposit, pool_token_fee}
use bonfida_bot.Processor.Deposit.Payments.{IsBuyable}
use bonfida_bot.Pool.Live.Shares.{IsPayee}
use bonfida_bot.Pool.Live.Purchase.{deposit_list, IsPurchase, IsPurchased, IsOutside}
use bonfida_bot.Pool.Live.Deposit.{process_deposit-IsPurchased}
use bonfida_bot.Tests.Fixtures.{
  key, program_key, pool_key, mint_key, provider_key, spl_key, owner_key, source_key, target_key,
  associated, vault_key, account, signer,
}
use bonfida_bot.Tests.Tokens.{
  token_runtime, token_runtime-IsToken, token_runtime-IsMinting, Usable, Authority,
}
use bonfida_bot.Tests.Claims.{
  fee_account, before, apart, pool, pool-HoldsPool, asset, tokens_of, payee, mintable, assets_read,
}

-- 120 tokens, one of which is the fee, cost 120 of the owner's 150 units of the asset.
abbrev pub buyer : DepositAccounts
buyer = record {
  spl_token = account spl_key;
  mint = account mint_key;
  target_pool_token = account source_key;
  signal_provider_pt = account (associated provider_key mint_key);
  bonfida_fee_pt = account (fee_account 9);
  bonfida_bnb_pt = account (fee_account 14);
  pool = account pool_key;
}

fee_is : pool_token_fee 655 120 ≡ 1
unfolding pool_token_fee
fee_is = refl

buyable :
    Separate
      (IsBuyable token_runtime Usable pool_key owner_key 120 200 (before 2000).ledger)
      (asset ∷ [])
      (account vault_key ∷ [])
      (account target_key ∷ [])
buyable =
    Separate.asset_then asset (account vault_key) (account target_key) [] [] []
      (record {
        held = tokens_of (key 7) pool_key 200;
        owned = tokens_of (key 7) owner_key 150;
        address = refl;
        to_account = record { unpacked = refl; writable = refl; usable = tt };
        from_account = record { unpacked = refl; writable = refl; usable = tt };
        apart = apart target_key vault_key refl;
        same_mint = refl;
        owner_is = refl;
        held_by_pool = refl;
        untruncated = inr (omega arith);
        enough = omega arith;
        owned_fits = omega arith;
        room = omega arith;
      })
      tt tt tt tt Separate.no_asset

pub outside :
    (k : Pubkey)
    → eq_bytes k vault_key ≡ false
    → eq_bytes k target_key ≡ false
    → IsOutside (account vault_key ∷ []) (account target_key ∷ []) k
outside k a b = record {
  from_tos = (apart k vault_key a, tt);
  from_froms = (apart k target_key b, tt);
}

fee_payee :
    (k : Pubkey)
    → token_runtime.unpack_account ((before 2000).ledger k).bytes ≡ ok payee
    → eq_bytes k mint_key ≡ false
    → eq_bytes k pool_key ≡ false
    → IsPayee token_runtime Usable
        (before 2000).ledger
        (account mint_key)
        (account pool_key)
        (account k)
        payee
        (pool_token_fee 655 120)
unfolding pool_token_fee
fee_payee k e from_mint from_pool = record {
  payee = record { unpacked = e; writable = refl; usable = tt };
  payee_mint = refl;
  payee_from_mint = apart k mint_key from_mint;
  payee_from_pool = apart k pool_key from_pool;
  payee_room = omega arith;
}

pub purchase :
    IsPurchase token_runtime program_key Usable
      (before 2000)
      buyer
      (signer owner_key)
      pool
      (asset ∷ [])
      (account vault_key ∷ [])
      (account target_key ∷ [])
      pool_key
      120
      200
      (tokens_of mint_key owner_key 110)
      payee
      payee
      payee
unfolding is_initialized
purchase = record {
  spl = refl;
  pool_key = refl;
  mint_key = refl;
  provider_key = refl;
  fee_key = refl;
  bnb_key = refl;
  initialized = refl;
  open_to_all = refl;
  signer = refl;
  markets_fit = omega arith;
  assets_are = assets_read;
  some_issued = omega arith;
  some_tokens = omega arith;
  room = omega arith;
  buyable = buyable;
  some_share = inl (tokens_of (key 7) pool_key 200, refl, omega arith);
  to_target = record {
    payee = record { unpacked = refl; writable = refl; usable = tt };
    payee_mint = refl;
    payee_from_mint = apart _ _ refl;
    payee_from_pool = apart _ _ refl;
    payee_room = omega arith;
  };
  payees = record {
    to_provider = fee_payee (associated provider_key mint_key) refl refl refl;
    to_fee = fee_payee (fee_account 9) refl refl refl;
    to_bnb = fee_payee (fee_account 14) refl refl refl;
    provider_from_fee = apart _ _ refl;
    provider_from_bnb = apart _ _ refl;
    fee_from_bnb = apart _ _ refl;
  };
  target_no_payee = record {
    from_provider = apart _ _ refl;
    from_fee = apart _ _ refl;
    from_bnb = apart _ _ refl;
  };
  pool_from_mint = apart _ _ refl;
  mint_outside = outside mint_key refl refl;
  target_outside = outside source_key refl refl;
  provider_outside = outside (associated provider_key mint_key) refl refl;
  fee_outside = outside (fee_account 9) refl refl;
  bnb_outside = outside (fee_account 14) refl refl;
  pool_outside = outside pool_key refl refl;
}

process_deposit-IsPurchased_example :
    (w' : World) × (process_deposit token_runtime program_key
        (deposit_list buyer
          (signer owner_key)
          (account vault_key ∷ [])
          (account target_key ∷ [])
          [])
        pool_key
        120
        (before 2000)
      ≡ ok (tt, w'))
    × IsPurchased token_runtime program_key Usable Authority
        (before 2000)
        w'
        buyer
        pool
        (account vault_key ∷ [])
        (account target_key ∷ [])
        120
        200
        (tokens_of mint_key owner_key 110)
        payee
        payee
        payee
process_deposit-IsPurchased_example =
    process_deposit-IsPurchased (token_runtime-IsToken program_key)
      (token_runtime-IsMinting program_key) (before 2000) buyer (signer owner_key) pool (asset ∷ [])
      (account vault_key ∷ []) (account target_key ∷ []) pool_key 120 200
      (tokens_of mint_key owner_key 110) payee payee payee purchase (pool-HoldsPool 2000)
      (mintable 2000) []
