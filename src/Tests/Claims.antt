-- ===== src/Tests/Claims.antt =====
-- A pool with fees that are due, and an owner of pool tokens. No code of the program is modelled here.
use bonfida_bot.Prelude.{
  ℕ, ◌+◌, ◌^◌, ◌<◌, ◌≤◌, ℕ, ◌≡◌, refl, [], ◌∷◌, ◌++◌, if◌then◌else◌, subst, ◌≢◌, false, arith,
}
use bonfida_bot.Assets
use bonfida_bot.Outcome.{ok}
use bonfida_bot.Bytes.{slice, eq_bytes, to_le_bytes, from_le_bytes, eq_bytes_self}
use bonfida_bot.State.{is_initialized, Pubkey, PoolAsset}
use bonfida_bot.Runtime.{World, TokenAccount}
use bonfida_bot.Processor.CollectFees.{CollectAccounts}
use bonfida_bot.Pool.Step.{Pool}
use bonfida_bot.Utils.{check_pool_key, pow_fixedpoint_u16}
use bonfida_bot.State.Header.{IsHeader-IsSized}
use bonfida_bot.Processor.Fees.{fee_cycles, tokens_to_mint, feeless_ratio}
use bonfida_bot.Processor.Redeem.{RedeemAccounts}
use bonfida_bot.Processor.Payments.{Separate, share}
use bonfida_bot.Processor.Redeem.Payouts.{Payable}
use bonfida_bot.Pool.Moves.{HoldsPool}
use bonfida_bot.Pool.Live.Claim.{IsClaim}
use bonfida_bot.Pool.Live.Shares.{IsPayee}
use bonfida_bot.Pool.Live.Collection.{IsCollection}
use bonfida_bot.Pool.Live.Mints.{IsMintOf}
use bonfida_bot.Pool.Live.Exit.{redeeming, IsUntouched}
use bonfida_bot.Tests.Tokens.{token_runtime, Usable, Authority}
use bonfida_bot.Tests.Ranges.{header-IsHeader}
use bonfida_bot.Tests.Fixtures.{
  key, program_key, pool_key, mint_key, clock_key, provider_key, spl_key, owner_key, source_key,
  target_key, associated, vault_key, pool_bytes, state, account, header, signer,
}

abbrev pub fee_account : ℕ → Pubkey
fee_account n = associated (key n) mint_key

abbrev pub accounts : CollectAccounts
accounts = record {
  spl_token = account spl_key;
  clock = account clock_key;
  pool = account pool_key;
  mint = account mint_key;
  signal_provider_pt = account (associated provider_key mint_key);
  bonfida_fee_pt = account (fee_account 9);
  bonfida_bnb_pt = account (fee_account 14);
}

-- 200 pool tokens, and 200 units of the asset in the pool.
abbrev pub before : ℕ → World
before now = record {
  ledger = λ k.
      if eq_bytes k pool_key
      then state program_key pool_bytes
      else if eq_bytes k clock_key
      then state program_key (to_le_bytes 8 now)
      else if eq_bytes k mint_key
      then state spl_key (200 ∷ [])
      else if eq_bytes k vault_key
      then state spl_key (200 ∷ (key 7 ++ pool_key))
      else if eq_bytes k target_key
      then state spl_key (150 ∷ (key 7 ++ owner_key))
      else if eq_bytes k source_key
      then state spl_key (110 ∷ (mint_key ++ owner_key))
      else state spl_key (0 ∷ (mint_key ++ provider_key));
  calls = [];
}

pub apart : (a b : Pubkey) → eq_bytes a b ≡ false → a ≢ b
apart a b differ e =
    let differ' = subst (λ x. eq_bytes x b ≡ false) e differ in let same = eq_bytes_self b in cc

abbrev pub pool : Pool
pool = record { header = header; rest = key 8 ++ key 7 }

pub pool-HoldsPool : (now : ℕ) → HoldsPool program_key pool_key pool (before now)
pool-HoldsPool now = record {
  sized = IsHeader-IsSized header header-IsHeader;
  held = record { owner = refl; content = refl };
}

abbrev pub asset : PoolAsset
asset = record { mint_address = key 7 }

-- An account with `n` tokens of this mint.
abbrev pub tokens_of : Pubkey → Pubkey → ℕ → TokenAccount
tokens_of mint owner n = record {
  mint = mint;
  owner = owner;
  amount = n;
  has_delegate = false;
  has_close_authority = false;
}

abbrev pub payee : TokenAccount
payee = tokens_of mint_key provider_key 0

pub mintable :
    (now : ℕ) → IsMintOf token_runtime Usable Authority (before now) (account mint_key) pool_key 200
mintable now = record {
  mint_account = record { unpacked = refl; writable = refl; usable = tt };
  minted_by = tt;
}

pub payee-IsPayee :
    (k : Pubkey)
    → token_runtime.unpack_account ((before 1900000).ledger k).bytes ≡ ok payee
    → eq_bytes k mint_key ≡ false
    → eq_bytes k pool_key ≡ false
    → IsPayee token_runtime Usable
        (before 1900000).ledger
        (account mint_key)
        (account pool_key)
        (account k)
        payee
        6
payee-IsPayee k e from_mint from_pool = record {
  payee = record { unpacked = e; writable = refl; usable = tt };
  payee_mint = refl;
  payee_from_mint = apart k mint_key from_mint;
  payee_from_pool = apart k pool_key from_pool;
  payee_room = omega arith;
}

-- Three cycles are due, for which 6 tokens are minted.
pub collection :
    IsCollection token_runtime program_key Usable
      (before 1900000)
      accounts
      pool
      pool_key
      1900000
      3
      200
      6
      payee
      payee
      payee
unfolding check_pool_key is_initialized fee_cycles tokens_to_mint feeless_ratio pow_fixedpoint_u16
    to_le_bytes from_le_bytes
collection = record {
  called = record {
    spl = refl;
    pool_key = refl;
    mint_key = refl;
    initialized = refl;
    provider_key = refl;
    fee_key = refl;
    bnb_key = refl;
    time = refl;
    some_cycles = refl;
    positive = omega arith;
  };
  some_left = omega arith;
  tokens_are = refl;
  room = omega arith;
  payees = record {
    to_provider = payee-IsPayee (associated provider_key mint_key) refl refl refl;
    to_fee = payee-IsPayee (fee_account 9) refl refl refl;
    to_bnb = payee-IsPayee (fee_account 14) refl refl refl;
    provider_from_fee = apart _ _ refl;
    provider_from_bnb = apart _ _ refl;
    fee_from_bnb = apart _ _ refl;
  };
  pool_from_mint = apart _ _ refl;
}

pub payable :
    (now amount supply : ℕ)
    → 150 + share amount 200 supply < 2 ^ 64
    → Payable token_runtime Usable pool_key amount supply
        (before now).ledger
        (asset ∷ [])
        (account vault_key ∷ [])
        (account target_key ∷ [])
payable now amount supply room =
    Separate.asset_then asset (account vault_key) (account target_key) [] [] []
      (record {
        held = tokens_of (key 7) pool_key 200;
        target = tokens_of (key 7) owner_key 150;
        address = refl;
        from_account = record { unpacked = refl; writable = refl; usable = tt };
        to_account = record { unpacked = refl; writable = refl; usable = tt };
        apart = apart vault_key target_key refl;
        same_mint = refl;
        owned = refl;
        fits = omega arith;
        room = room;
      })
      tt tt tt tt Separate.no_asset

abbrev pub leaver : RedeemAccounts
leaver = redeeming accounts (signer owner_key) (account source_key)

pub assets_read : Assets.unpack_assets (key 7) ≡ ok (asset ∷ [])
unfolding Assets.unpack_assets Assets.assets_loop Assets.push_asset Assets.unpack
    Assets.unpack_unchecked Assets.is_initialized Assets.unpack_from_slice Assets.zero_pubkey slice
assets_read = refl

pub claim :
    (now amount supply : ℕ)
    → 150 + share amount 200 supply < 2 ^ 64
    → amount ≤ 110
    → amount ≤ supply
    → 0 < supply
    → IsClaim token_runtime Usable
        (before now)
        leaver
        pool
        (asset ∷ [])
        (account vault_key ∷ [])
        (account target_key ∷ [])
        amount
        (tokens_of mint_key owner_key 110)
        supply
unfolding is_initialized
claim now amount supply room enough issued some_issued = record {
  spl = refl;
  initialized = refl;
  markets_fit = omega arith;
  assets_are = assets_read;
  payable = payable now amount supply room;
  source_account = record { unpacked = refl; writable = refl; usable = tt };
  source_mint = refl;
  source_owner = refl;
  enough = enough;
  issued = issued;
  some_issued = some_issued;
  pool_elsewhere = record {
    from_froms = (apart _ _ refl, tt);
    from_tos = (apart _ _ refl, tt);
    from_source = apart _ _ refl;
    from_mint = apart _ _ refl;
  };
  source_from_mint = apart _ _ refl;
  source_from_froms = (apart _ _ refl, tt);
  source_from_tos = (apart _ _ refl, tt);
  mint_from_froms = (apart _ _ refl, tt);
  mint_from_tos = (apart _ _ refl, tt);
}

pub untouched :
    (k : Pubkey)
    → eq_bytes k mint_key ≡ false
    → eq_bytes k (associated provider_key mint_key) ≡ false
    → eq_bytes k (fee_account 9) ≡ false
    → eq_bytes k (fee_account 14) ≡ false
    → eq_bytes k pool_key ≡ false
    → IsUntouched accounts k
untouched k a b c d e = record {
  from_mint = apart k _ a;
  from_provider = apart k _ b;
  from_fee = apart k _ c;
  from_bnb = apart k _ d;
  from_pool = apart k _ e;
}
