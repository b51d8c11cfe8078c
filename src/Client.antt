-- ===== src/Client.antt =====
-- program/src/instruction.rs, from `init` on: the functions with which a client builds the
-- program's instructions. `Pubkey::from_str(…).unwrap()` may panic, so the result is a `Result`;
-- the `Ok` that each returns is otherwise never an error.
pub mod Agreement
pub mod Settlement
use bonfida_bot.Prelude.{ℕ, Bool, true, false, Option, none, some, List, [], ◌∷◌, ◌++◌}
use bonfida_bot.Outcome.{Result, ◌>>=◌, ok, unwrap}
use bonfida_bot.Bytes.{Bytes}
use bonfida_bot.State.{Pubkey}
use bonfida_bot.Instruction
use bonfida_bot.Instruction.{Side, Order, PoolInstruction}
use bonfida_bot.Instruction.Format.{pack}
use bonfida_bot.Runtime.{Runtime, Instruction as Call, AccountMeta, Instruction}
use bonfida_bot.Processor.Common.{fee_address, bonfida_fee, bonfida_bnb}

-- `AccountMeta::new` and `AccountMeta::new_readonly`
abbrev pub writable : Pubkey → Bool → AccountMeta
writable key is_signer = record { pubkey = key; is_signer = is_signer; is_writable = true }

abbrev pub readonly : Pubkey → Bool → AccountMeta
readonly key is_signer = record { pubkey = key; is_signer = is_signer; is_writable = false }

-- `for key in keys.iter() { accounts.push(AccountMeta::new(*key, false)) }`
abbrev pub writables : List Pubkey → List AccountMeta
writables [] = []
writables (key ∷ keys) = writable key false ∷ writables keys

-- `if let Some(key) = account { accounts.push(AccountMeta::new(*key, false)) }`
abbrev pub optional : Option Pubkey → List AccountMeta
optional none = []
optional (some key) = writable key false ∷ []

abbrev pub call : Pubkey → List AccountMeta → Instruction.PoolInstruction → Call
call program_id accounts instruction = record {
  program_id = program_id;
  accounts = accounts;
  bytes = pack instruction;
}

unfoldable pub init :
    (spl_token_program_id system_program_id rent_program_id bonfidabot_program_id : Pubkey)
    (mint_key payer_key pool_key : Pubkey) (pool_seed : Bytes)
    (max_number_of_assets number_of_markets : ℕ)
    → Result Call
init spl_token_program_id system_program_id rent_program_id bonfidabot_program_id mint_key payer_key
      pool_key pool_seed max_number_of_assets number_of_markets =
    ok (
      call bonfidabot_program_id
        (readonly system_program_id false
          ∷ readonly rent_program_id false
          ∷ readonly spl_token_program_id false
          ∷ writable pool_key false
          ∷ writable mint_key false
          ∷ writable payer_key true
          ∷ [])
        (Instruction.init pool_seed max_number_of_assets number_of_markets))

unfoldable pub create :
    (spl_token_program_id clock_sysvar_id bonfidabot_program_id mint_key pool_key : Pubkey)
    (pool_seed : Bytes) (pool_asset_keys : List Pubkey)
    (target_pool_token_key source_owner_key : Pubkey) (source_asset_keys : List Pubkey)
    (serum_program_id signal_provider_key : Pubkey) (fee_collection_period fee_ratio : ℕ)
    (deposit_amounts : List ℕ) (markets : List Pubkey)
    → Result Call
create spl_token_program_id clock_sysvar_id bonfidabot_program_id mint_key pool_key pool_seed
      pool_asset_keys target_pool_token_key source_owner_key source_asset_keys serum_program_id
      signal_provider_key fee_collection_period fee_ratio deposit_amounts markets =
    ok (
      call bonfidabot_program_id
        (readonly spl_token_program_id false
          ∷ readonly clock_sysvar_id false
          ∷ readonly serum_program_id false
          ∷ readonly signal_provider_key false
          ∷ writable mint_key false
          ∷ writable target_pool_token_key false
          ∷ writable pool_key false
          ∷ (writables pool_asset_keys
              ++ (readonly source_owner_key true ∷ writables source_asset_keys)))
        (Instruction.create (record {
          pool_seed = pool_seed;
          fee_collection_period = fee_collection_period;
          fee_ratio = fee_ratio;
          deposit_amounts = deposit_amounts;
          markets = markets;
        })))

unfoldable pub deposit :
    (rt : Runtime) (spl_token_program_id bonfidabot_program_id mint_key pool_key : Pubkey)
    (pool_asset_keys : List Pubkey)
    (target_pool_token_key signal_provider_pool_token_key source_owner : Pubkey)
    (source_asset_keys : List Pubkey) (pool_seed : Bytes) (pool_token_amount : ℕ)
    → Result Call
deposit rt spl_token_program_id bonfidabot_program_id mint_key pool_key pool_asset_keys
      target_pool_token_key signal_provider_pool_token_key source_owner source_asset_keys pool_seed
      pool_token_amount =
    do
      bonfida_fee_pt_account ← fee_address rt bonfida_fee mint_key
      bonfida_bnb_pt_account ← fee_address rt bonfida_bnb mint_key
      ok (
          call bonfidabot_program_id
            (readonly spl_token_program_id false
              ∷ writable mint_key false
              ∷ writable target_pool_token_key false
              ∷ writable signal_provider_pool_token_key false
              ∷ writable bonfida_fee_pt_account false
              ∷ writable bonfida_bnb_pt_account false
              ∷ readonly pool_key false
              ∷ (writables pool_asset_keys
                  ++ (readonly source_owner true ∷ writables source_asset_keys)))
            (Instruction.deposit pool_seed pool_token_amount))

unfoldable pub redeem :
    (spl_token_program_id clock_sysvar_id bonfidabot_program_id mint_key pool_key : Pubkey)
    (pool_asset_keys : List Pubkey) (source_pool_token_owner_key source_pool_token_key : Pubkey)
    (target_asset_keys : List Pubkey) (pool_seed : Bytes) (pool_token_amount : ℕ)
    → Result Call
redeem spl_token_program_id clock_sysvar_id bonfidabot_program_id mint_key pool_key pool_asset_keys
      source_pool_token_owner_key source_pool_token_key target_asset_keys pool_seed
      pool_token_amount =
    ok (
      call bonfidabot_program_id
        (readonly spl_token_program_id false
          ∷ readonly clock_sysvar_id false
          ∷ writable mint_key false
          ∷ readonly source_pool_token_owner_key true
          ∷ writable source_pool_token_key false
          ∷ writable pool_key false
          ∷ (writables pool_asset_keys ++ writables target_asset_keys))
        (Instruction.redeem pool_seed pool_token_amount))

-- The numbers and enums of the order are those of the record that goes into the instruction.
unfoldable pub create_order :
    (bonfidabot_program_id signal_provider market payer_pool_asset_account : Pubkey)
    (openorders_account serum_event_queue serum_request_queue : Pubkey)
    (serum_market_bids serum_market_asks pool_account coin_vault pc_vault : Pubkey)
    (spl_token_program dex_program rent_sysvar : Pubkey) (srm_discount_account : Option Pubkey)
    (order : Order)
    → Result Call
create_order bonfidabot_program_id signal_provider market payer_pool_asset_account
      openorders_account serum_event_queue serum_request_queue serum_market_bids serum_market_asks
      pool_account coin_vault pc_vault spl_token_program dex_program rent_sysvar
      srm_discount_account order =
    ok (
      call bonfidabot_program_id
        (readonly signal_provider true
          ∷ writable market false
          ∷ writable payer_pool_asset_account false
          ∷ writable openorders_account false
          ∷ writable serum_event_queue false
          ∷ writable serum_request_queue false
          ∷ writable serum_market_bids false
          ∷ writable serum_market_asks false
          ∷ writable pool_account false
          ∷ writable coin_vault false
          ∷ writable pc_vault false
          ∷ readonly spl_token_program false
          ∷ readonly rent_sysvar false
          ∷ readonly dex_program false
          ∷ optional srm_discount_account)
        (Instruction.create_order order))

unfoldable pub cancel_order :
    (bonfidabot_program_id signal_provider market openorders_account : Pubkey)
    (serum_market_bids serum_market_asks serum_event_queue pool_account dex_program : Pubkey)
    (pool_seed : Bytes) (side : Side) (order_id : ℕ)
    → Result Call
cancel_order bonfidabot_program_id signal_provider market openorders_account serum_market_bids
      serum_market_asks serum_event_queue pool_account dex_program pool_seed side order_id =
    ok (
      call bonfidabot_program_id
        (readonly signal_provider true
          ∷ readonly market false
          ∷ writable openorders_account false
          ∷ writable serum_market_bids false
          ∷ writable serum_market_asks false
          ∷ writable serum_event_queue false
          ∷ readonly pool_account false
          ∷ readonly dex_program false
          ∷ [])
        (Instruction.cancel_order pool_seed side order_id))

unfoldable pub settle_funds :
    (bonfidabot_program_id market openorders_account pool_account pool_token_mint : Pubkey)
    (coin_vault pc_vault pool_coin_wallet pool_pc_wallet vault_signer : Pubkey)
    (spl_token_program dex_program : Pubkey) (referrer_pc_account : Option Pubkey)
    (pool_seed : Bytes) (pc_index coin_index : ℕ)
    → Result Call
settle_funds bonfidabot_program_id market openorders_account pool_account pool_token_mint coin_vault
      pc_vault pool_coin_wallet pool_pc_wallet vault_signer spl_token_program dex_program
      referrer_pc_account pool_seed pc_index coin_index =
    ok (
      call bonfidabot_program_id
        (writable market false
          ∷ writable openorders_account false
          ∷ writable pool_account false
          ∷ readonly pool_token_mint false
          ∷ writable coin_vault false
          ∷ writable pc_vault false
          ∷ writable pool_coin_wallet false
          ∷ writable pool_pc_wallet false
          ∷ readonly vault_signer false
          ∷ readonly spl_token_program false
          ∷ readonly dex_program false
          ∷ optional referrer_pc_account)
        (Instruction.settle_funds pool_seed pc_index coin_index))

unfoldable pub collect_fees :
    (rt : Runtime) (spl_token_program_id clock_sysvar_id bonfidabot_program_id pool_key : Pubkey)
    (pool_token_mint signal_provider_pool_token_key : Pubkey) (pool_seed : Bytes)
    → Result Call
collect_fees rt spl_token_program_id clock_sysvar_id bonfidabot_program_id pool_key pool_token_mint
      signal_provider_pool_token_key pool_seed =
    do
      bonfida_fee_pt_account ← fee_address rt bonfida_fee pool_token_mint
      bonfida_bnb_pt_account ← fee_address rt bonfida_bnb pool_token_mint
      ok (
          call bonfidabot_program_id
            (readonly spl_token_program_id false
              ∷ readonly clock_sysvar_id false
              ∷ writable pool_key false
              ∷ writable pool_token_mint false
              ∷ writable signal_provider_pool_token_key false
              ∷ writable bonfida_fee_pt_account false
              ∷ writable bonfida_bnb_pt_account false
              ∷ [])
            (Instruction.collect_fees pool_seed))
