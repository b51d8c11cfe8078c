-- ===== src/Client/Settlement.antt =====
-- The client's `settle_funds` against the program: it reads the instruction and the accounts that
-- are built as they were meant.
use bonfida_bot.Client.{writable, readonly, settle_funds}
use bonfida_bot.Client
use bonfida_bot.Instruction
use mathlib.Core.Option
use bonfida_bot.Prelude.{ℕ, length, ◌^◌, ◌<◌, ◌≡◌, refl, map, Option, none, some, false}
use bonfida_bot.Outcome.{ok}
use bonfida_bot.Bytes.{Bytes, eq_bytes_self}
use bonfida_bot.State.{Pubkey}
use bonfida_bot.Instruction.Unpack.{unpack}
use bonfida_bot.Instruction.RoundTrip.{unpack-pack}
use bonfida_bot.Client.Agreement.{as_info}
use bonfida_bot.Runtime.{Runtime, Instruction as Call, World, Instruction, AccountInfo}
use bonfida_bot.Processor.Settle.{settle_accounts, optional_account, SettleAccounts}

module _ (rt : Runtime) (program_id : Pubkey) (w : World) where
  -- The accounts with these keys, as the handler finds them.
  abbrev pub settle_accounts_of :
      (market openorders pool mint coin_vault pc_vault coin_wallet pc_wallet vault_signer
        dex : Pubkey)
      → Option AccountInfo
      → SettleAccounts
  settle_accounts_of market openorders pool mint coin_vault pc_vault coin_wallet pc_wallet
        vault_signer dex referrer =
      record {
        market = as_info (writable market false);
        openorders = as_info (writable openorders false);
        pool = as_info (writable pool false);
        pool_token_mint = as_info (readonly mint false);
        coin_vault = as_info (writable coin_vault false);
        pc_vault = as_info (writable pc_vault false);
        pool_coin_wallet = as_info (writable coin_wallet false);
        pool_pc_wallet = as_info (writable pc_wallet false);
        vault_signer = as_info (readonly vault_signer false);
        spl_token_program = as_info (readonly rt.spl_token_id false);
        dex_program = as_info (readonly dex false);
        referrer = referrer;
      }

  -- A built settlement is unpacked to the seed and the two indices, in their order, and the handler
  -- finds each account in its place, and the referrer's if one is given.
  pub settle_agrees :
      (market openorders pool mint coin_vault pc_vault coin_wallet pc_wallet vault_signer
        dex : Pubkey)
      (referrer : Option Pubkey) (pool_seed : Bytes) (pc_index coin_index : ℕ)
      → length pool_seed ≡ 32
      → pc_index < 2 ^ 64
      → coin_index < 2 ^ 64
      → (c : Call) × (Client.settle_funds program_id market openorders pool mint coin_vault pc_vault
            coin_wallet pc_wallet vault_signer rt.spl_token_id dex referrer pool_seed pc_index
            coin_index
          ≡ ok c)
        × (unpack c.bytes ≡ ok (Instruction.settle_funds pool_seed pc_index coin_index))
        × (settle_accounts rt program_id (map as_info c.accounts) w
            ≡ ok (
              settle_accounts_of market openorders pool mint coin_vault pc_vault coin_wallet
                  pc_wallet vault_signer dex
                  (Option.map (λ k. as_info (writable k false)) referrer),
              w,
            ))
  unfolding Client.settle_funds settle_accounts optional_account as_info
  settle_agrees market openorders pool mint coin_vault pc_vault coin_wallet pc_wallet vault_signer
        dex none pool_seed pc_index coin_index size v v' =
      (
        _,
        refl,
        unpack-pack (Instruction.settle_funds pool_seed pc_index coin_index) (size, v, v'),
        rw (eq_bytes_self rt.spl_token_id) refl,
      )
  settle_agrees market openorders pool mint coin_vault pc_vault coin_wallet pc_wallet vault_signer
        dex (some r) pool_seed pc_index coin_index size v v' =
      (
        _,
        refl,
        unpack-pack (Instruction.settle_funds pool_seed pc_index coin_index) (size, v, v'),
        rw (eq_bytes_self rt.spl_token_id) refl,
      )
