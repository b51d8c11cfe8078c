-- ===== src/Tests/Fixtures.antt =====
-- A runtime, a pool and a ledger to run the handlers on.
use bonfida_bot.State.Layout.{header_bytes}
use bonfida_bot.Prelude.{
  ℕ, if◌then◌else◌, take, replicate, true, false, some, [], ◌∷◌, ◌++◌, ◌%◌, ◌^◌,
}
use bonfida_bot.Outcome.{ok, Result, err, panicked, invalid_argument}
use bonfida_bot.Bytes.{Bytes, to_le_bytes, from_le_bytes, eq_bytes}
use bonfida_bot.State.{Pubkey, unlocked, PoolHeader}
use bonfida_bot.Runtime.{Runtime, World, AccountState, AccountInfo, Instruction}

abbrev pub key : ℕ → Pubkey
key n = replicate 32 n

abbrev pub program_key : Pubkey
program_key = key 1

abbrev pub pool_key : Pubkey
pool_key = key 2

abbrev pub mint_key : Pubkey
mint_key = key 3

abbrev pub clock_key : Pubkey
clock_key = key 4

abbrev pub provider_key : Pubkey
provider_key = key 5

abbrev pub spl_key : Pubkey
spl_key = key 10

abbrev pub owner_key : Pubkey
owner_key = key 11

abbrev pub source_key : Pubkey
source_key = key 12

abbrev pub target_key : Pubkey
target_key = key 13

-- Half of the owner and half of the mint.
abbrev pub associated : Pubkey → Pubkey → Pubkey
associated owner mint = take 16 owner ++ take 16 mint

abbrev pub vault_key : Pubkey
vault_key = associated pool_key (key 7)

abbrev pub some_instruction : Pubkey → Pubkey → ℕ → Instruction
some_instruction from to amount = record {
  program_id = spl_key;
  accounts = [];
  bytes = from ++ (to ++ to_le_bytes 8 amount);
}

abbrev pub runtime : Runtime
runtime = record {
  create_program_address = λ seeds _. elim seeds [
    | [] ↦ ok mint_key
    | s ∷ more ↦ elim more [ [] ↦ ok s | _ ∷ _ ↦ ok mint_key ]
  ];
  from_str = λ _. some (key 9);
  minimum_balance = λ _ _. ok (λ n. n);
  unix_timestamp = λ _ state. ok (from_le_bytes state.bytes % 2 ^ 64);
  invoke_signed =
      λ i _ _ ledger. if eq_bytes i.program_id program_key then err invalid_argument else ok ledger;
  create_account = λ from to lamports space owner. some_instruction from to lamports;
  spl_token_id = spl_key;
  mint_len = 82;
  unpack_account = λ bytes. ok (record {
    mint = key 7;
    owner = pool_key;
    amount = from_le_bytes bytes;
    has_delegate = false;
    has_close_authority = false;
  });
  unpack_mint = λ bytes. ok (record { supply = from_le_bytes bytes });
  get_associated_token_address = associated;
  initialize_mint = λ _ mint authority _ decimals. ok (some_instruction mint authority decimals);
  mint_to = λ _ mint to _ _ amount. ok (some_instruction mint to amount);
  transfer = λ _ from to _ _ amount. ok (some_instruction from to amount);
  burn = λ _ from mint _ _ amount. ok (some_instruction from mint amount);
  cancel_order = λ _ _ order_id. ok (some_instruction pool_key pool_key order_id);
  settle_funds = λ _ _ _. ok (some_instruction pool_key pool_key 0);
}

abbrev pub header : PoolHeader
header = record {
  serum_program_id = key 6;
  seed = pool_key;
  signal_provider = provider_key;
  status = unlocked;
  number_of_markets = 1;
  fee_ratio = 655;
  last_fee_collection_timestamp = 1000;
  fee_collection_period = 604800;
}

abbrev pub pool_bytes : Bytes
pool_bytes = header_bytes header (key 8 ++ key 7)

abbrev pub state : Pubkey → Bytes → AccountState
state owner bytes = record { owner = owner; lamports = 1; bytes = bytes }

-- 100 pool tokens, 1000 units of the asset in the pool, and 500 in the source account.
abbrev pub start : ℕ → World
start now = record {
  ledger = λ k.
      if eq_bytes k pool_key
      then state program_key pool_bytes
      else if eq_bytes k clock_key
      then state program_key (to_le_bytes 8 now)
      else if eq_bytes k mint_key
      then state spl_key (to_le_bytes 8 100)
      else if eq_bytes k vault_key
      then state spl_key (to_le_bytes 8 1000)
      else if eq_bytes k source_key
      then state spl_key (to_le_bytes 8 500)
      else state spl_key [];
  calls = [];
}

abbrev pub account : Pubkey → AccountInfo
account k = record { key = k; is_signer = false; is_writable = true }

abbrev pub signer : Pubkey → AccountInfo
signer k = record { key = k; is_signer = true; is_writable = false }

-- The world after a run.
abbrev pub world_after : {A : Type 0} → Result (A × World) → World
world_after (ok (a, w)) = w
world_after (err e) = start 0
world_after panicked = start 0
