-- ===== src/Tests/Creations.antt =====
-- The creation of a pool in an empty account, and the limit of a deposit.
use bonfida_bot.Assets
use bonfida_bot.Prelude.{ℕ, ◌≡◌, refl, if◌then◌else◌, List, [], ◌∷◌, replicate, false, arith, inr}
use bonfida_bot.Outcome.{ok}
use bonfida_bot.Bytes.{slice, copy_from_slice, to_le_bytes, from_le_bytes, eq_bytes}
use bonfida_bot.State.{
  uninitialized, is_initialized, unpack_from_slice, pack_into_slice, status_byte, status_of_byte,
}
use bonfida_bot.Assets.{markets_loop, pack_markets}
use bonfida_bot.Instruction.{Creation}
use bonfida_bot.Instruction.Range.{IsCreation}
use bonfida_bot.Runtime.{World, AccountInfo}
use bonfida_bot.Processor.Common.{with_tail, mint_pool_tokens, read_header}
use bonfida_bot.Processor.Create.{
  process_create, CreateAccounts, create_accounts, create_checks, first_deposit, first_deposits,
  write_pool, write_assets,
}
use bonfida_bot.Processor.Deposit.{buy_in_limit, affordable}
use bonfida_bot.Processor.Deposit.Limit.{IsLimit, Fits, Sources, buy_in_limit-IsLimit}
use bonfida_bot.Pool.Step.{Pool}
use bonfida_bot.Pool.Moves.{HoldsPool}
use bonfida_bot.Pool.Refine.Written.{new_header}
use bonfida_bot.Pool.Refine.Create.{process_create-header}
use bonfida_bot.Tests.Fixtures.{
  key, program_key, pool_key, mint_key, clock_key, provider_key, spl_key, owner_key, source_key,
  target_key, vault_key, runtime, state, start, account, signer, world_after,
}
use bonfida_bot.Tests.Life.{runtime-IsRuntime}

-- A pool account as the system program has made it.
abbrev empty_start : World
empty_start = record {
  ledger = λ k.
      if eq_bytes k pool_key then state program_key (replicate 181 0) else (start 5000).ledger k;
  calls = [];
}

abbrev empty_pool : Pool
empty_pool = record {
  header = record {
    serum_program_id = key 0;
    seed = key 0;
    signal_provider = key 0;
    status = uninitialized;
    number_of_markets = 0;
    fee_ratio = 0;
    last_fee_collection_timestamp = 0;
    fee_collection_period = 0;
  };
  rest = replicate 64 0;
}

empty_pool-HoldsPool : HoldsPool program_key pool_key empty_pool empty_start
unfolding status_byte to_le_bytes
empty_pool-HoldsPool = record {
  sized = record {
    serum_program_id = refl;
    seed = refl;
    signal_provider = refl;
    status = tt;
    number_of_markets = omega arith;
    fee_ratio = omega arith;
    last_fee_collection_timestamp = omega arith;
    fee_collection_period = omega arith;
  };
  held = record { owner = refl; content = refl };
}

abbrev create_infos : List AccountInfo
create_infos =
    account spl_key
    ∷ account clock_key
    ∷ account (key 6)
    ∷ account provider_key
    ∷ account mint_key
    ∷ account target_key
    ∷ account pool_key
    ∷ account vault_key
    ∷ signer owner_key
    ∷ account source_key
    ∷ []

abbrev creation : Creation
creation = record {
  pool_seed = pool_key;
  fee_collection_period = 604800;
  fee_ratio = 655;
  deposit_amounts = 5 ∷ [];
  markets = key 8 ∷ [];
}

creation-IsCreation : IsCreation creation
creation-IsCreation = record {
  pool_seed = refl;
  fee_collection_period = omega arith;
  fee_ratio = omega arith;
  deposit_amounts = (omega arith, tt);
  markets = (refl, tt);
  number_of_markets = omega arith;
}

abbrev creators : CreateAccounts
creators = record {
  spl_token = account spl_key;
  clock = account clock_key;
  serum_program = account (key 6);
  signal_provider = account provider_key;
  mint = account mint_key;
  target_pool_token = account target_key;
  pool = account pool_key;
  pool_assets = account vault_key ∷ [];
  source_owner = signer owner_key;
  source_assets = account source_key ∷ [];
}

creators_found :
    create_accounts runtime program_key 1 create_infos empty_start ≡ ok (creators, empty_start)
unfolding create_accounts
creators_found = refl

abbrev created_world : World
created_world = world_after (
    process_create runtime program_key create_infos pool_key (5 ∷ []) (key 8 ∷ []) 604800 655
      empty_start)

created_runs :
    process_create runtime program_key create_infos pool_key
      (5 ∷ [])
      (key 8 ∷ [])
      604800
      655
      empty_start
    ≡ ok (tt, created_world)
unfolding process_create create_accounts create_checks first_deposit first_deposits write_pool
    write_assets mint_pool_tokens with_tail pack_into_slice Assets.pack_into_slice pack_markets
    markets_loop unpack_from_slice status_byte status_of_byte is_initialized slice copy_from_slice
    to_le_bytes from_le_bytes
created_runs = refl

process_create-header_example :
    (is_initialized empty_pool.header ≡ false)
    × ((now : ℕ) × (runtime.unix_timestamp (account clock_key) (empty_start.ledger clock_key)
          ≡ ok now)
        × (read_header (account pool_key) created_world
            ≡ ok (new_header creators now creation, created_world)))
process_create-header_example =
    process_create-header runtime program_key create_infos creation creators empty_pool empty_start
      created_world runtime-IsRuntime creation-IsCreation creators_found empty_pool-HoldsPool
      created_runs

-- The pool holds 1000, and the source 500: half of the 100 pool tokens can be paid for.
limited :
    buy_in_limit runtime program_key 100
      (account vault_key ∷ [])
      (account source_key ∷ [])
      1000
      (start 0)
    ≡ ok ((1000 ∷ [], 50), start 0)
unfolding buy_in_limit affordable to_le_bytes from_le_bytes
limited = refl

limited-Fits :
    Fits runtime (start 0) 100 (account vault_key ∷ []) (account source_key ∷ []) (1000 ∷ [])
unfolding to_le_bytes from_le_bytes
limited-Fits =
    Sources.one_more (account vault_key) (account source_key) [] [] 1000 [] _ _ refl refl refl
      (inr (omega arith)) (Sources.nothing [])

buy_in_limit-IsLimit_example :
    (start 0 ≡ start 0)
    × IsLimit runtime
        (start 0)
        100
        1000
        (account vault_key ∷ [])
        (account source_key ∷ [])
        (1000 ∷ [])
        50
buy_in_limit-IsLimit_example =
    buy_in_limit-IsLimit runtime program_key 100 (account vault_key ∷ []) (account source_key ∷ [])
      1000 50 (1000 ∷ []) (start 0) (start 0) (omega arith) limited-Fits limited
