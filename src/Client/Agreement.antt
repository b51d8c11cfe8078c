-- ===== src/Client/Agreement.antt =====
-- The client's functions against the program: it reads the instruction and the accounts that
-- they build as they were meant.
use bonfida_bot.Client.{writables, readonly, redeem, writable}
use bonfida_bot.Client
use bonfida_bot.Instruction
use bonfida_bot.Prelude.{
  ℕ, length, ◌^◌, ◌<◌, ◌≡◌, refl, sym, ap, ◌∙◌, true, false, List, [], ◌∷◌, ◌++◌, map, append-nil,
}
use bonfida_bot.Outcome.{ok}
use bonfida_bot.Bytes.{Bytes, eq_bytes_self}
use bonfida_bot.State.{Pubkey}
use bonfida_bot.Instruction.Unpack.{unpack}
use bonfida_bot.Instruction.RoundTrip.{unpack-pack}
use bonfida_bot.Runtime.{Runtime, Instruction as Call, World, AccountInfo, AccountMeta, Instruction}
use bonfida_bot.Processor.Common.{next_accounts}
use bonfida_bot.Processor.Mints.{map-append}
use bonfida_bot.Processor.Redeem.{redeem_accounts, RedeemAccounts}

-- The account that the runtime passes for a meta.
unfoldable pub as_info : AccountMeta → AccountInfo
as_info m = record { key = m.pubkey; is_signer = m.is_signer; is_writable = m.is_writable }

abbrev pub infos : List Pubkey → List AccountInfo
infos keys = map (λ key. record { key = key; is_signer = false; is_writable = true }) keys

map-writables : (keys : List Pubkey) → map as_info (writables keys) ≡ infos keys
unfolding as_info
map-writables [] = refl
map-writables (key ∷ keys) = rw (map-writables keys) refl

next_accounts_all :
    (keys : List Pubkey) (rest : List AccountInfo)
    → next_accounts (length keys) (infos keys ++ rest) ≡ ok (infos keys, rest)
next_accounts_all [] rest = refl
next_accounts_all (key ∷ keys) rest = rw (next_accounts_all keys rest) refl

module _ (rt : Runtime) (program_id : Pubkey) (w : World) where
  -- A built redemption is unpacked to the seed and the amount, and the handler finds the owner's
  -- signature, each account in its place, and then the pool's assets and the targets.
  pub redeem_agrees :
      (clock_key mint_key pool_key owner_key source_key : Pubkey)
      (asset_keys target_keys : List Pubkey) (pool_seed : Bytes) (amount : ℕ)
      → length pool_seed ≡ 32
      → amount < 2 ^ 64
      → length target_keys ≡ length asset_keys
      → (c : Call) × (a : RedeemAccounts) × (rest : List AccountInfo) × (Client.redeem
            rt.spl_token_id clock_key program_id mint_key pool_key asset_keys owner_key source_key
            target_keys pool_seed amount
          ≡ ok c)
        × (unpack c.bytes ≡ ok (Instruction.redeem pool_seed amount))
        × (redeem_accounts rt program_id (map as_info c.accounts) w ≡ ok ((a, rest), w))
        × (a.clock.key ≡ clock_key)
        × (a.mint.key ≡ mint_key)
        × (a.pool.key ≡ pool_key)
        × (a.source_pool_token_owner.key ≡ owner_key)
        × (a.source_pool_token_owner.is_signer ≡ true)
        × (a.source_pool_token.key ≡ source_key)
        × (next_accounts (length asset_keys) rest ≡ ok (infos asset_keys, infos target_keys))
        × (next_accounts (length asset_keys) (infos target_keys) ≡ ok (infos target_keys, []))
  unfolding Client.redeem redeem_accounts as_info
  redeem_agrees clock_key mint_key pool_key owner_key source_key asset_keys target_keys pool_seed
        amount size small same =
      let split : map as_info (writables asset_keys ++ writables target_keys)
          ≡ infos asset_keys ++ infos target_keys =
        map-append as_info (writables asset_keys) (writables target_keys)
        ∙ rw (map-writables asset_keys, map-writables target_keys) refl in
      let a : RedeemAccounts = record {
        spl_token = as_info (readonly rt.spl_token_id false);
        clock = as_info (readonly clock_key false);
        mint = as_info (writable mint_key false);
        source_pool_token_owner = as_info (readonly owner_key true);
        source_pool_token = as_info (writable source_key false);
        pool = as_info (writable pool_key false);
      } in
      (
        _,
        a,
        map as_info (writables asset_keys ++ writables target_keys),
        refl,
        unpack-pack (Instruction.redeem pool_seed amount) (size, small),
        rw (eq_bytes_self rt.spl_token_id) refl,
        refl,
        refl,
        refl,
        refl,
        refl,
        refl,
        ap (next_accounts (length asset_keys)) split
            ∙ next_accounts_all asset_keys (infos target_keys),
        ap (λ l. next_accounts (length asset_keys) l) (sym (append-nil (infos target_keys)))
            ∙ ap (λ n. next_accounts n (infos target_keys ++ [])) (sym same)
            ∙ next_accounts_all target_keys [],
      )
