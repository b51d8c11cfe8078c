-- ===== src/Processor/Settle/Gates.antt =====
-- What a settlement that succeeds has checked and called.
use bonfida_bot.Assets.{unpack_unchecked_asset}
use bonfida_bot.Processor.Reads.{read_header-eq-ok, asset_bytes-eq-ok, token_account-eq-ok}
use bonfida_bot.Processor.Mints.{invoke_signed-calls}
use bonfida_bot.Prelude.{◌≡◌, sym, ap, ◌∙◌, List, [], ◌∷◌, ◌++◌, arith, false, ℕ}
use mathlib.Core.Option
use mathlib.Core.Option.{none, some}
use bonfida_bot.Outcome.{ok, invalid_argument, Result}
use bonfida_bot.Bytes.{Bytes, index}
use bonfida_bot.State.{Pubkey, PoolHeader, PoolAsset}
use bonfida_bot.Utils.{check_pool_key}
use bonfida_bot.Runtime.{Runtime, World, AccountInfo, Instruction}
use bonfida_bot.Runtime.Inversion.{lift-then, same-then, then, check-then, reads-then}
use bonfida_bot.Processor.Common.{
  mint_key_of, read_header, asset_bytes, token_account, write_header, locked_operation_error,
}
use bonfida_bot.Processor.Settle.{
  SettleAccounts, OpenOrders, settle_accounts, settle_keys, settle_call, read_openorders,
  process_settle, settle_assets, settled_header, has_no_funds, write_asset, match_asset,
}

module _ (rt : Runtime) (program_id : Pubkey) where
  settle_accounts-eq-ok :
      (accounts : List AccountInfo) (w w' : World) (a : SettleAccounts)
      → settle_accounts rt program_id accounts w ≡ ok (a, w')
      → w ≡ w'
  unfolding settle_accounts
  settle_accounts-eq-ok accounts w w' a h = ground arith

  settle_keys-eq-ok :
      (a : SettleAccounts) (pool_seed : Bytes) (w w' : World) (q : Pubkey × Pubkey)
      → settle_keys rt program_id a pool_seed w ≡ ok (q, w')
      → w ≡ w'
  unfolding settle_keys
  settle_keys-eq-ok a pool_seed w w' q h = ground arith

  read_openorders-eq-ok :
      (account : AccountInfo) (w w' : World) (o : OpenOrders)
      → read_openorders account w ≡ ok (o, w')
      → w ≡ w'
  unfolding read_openorders
  read_openorders-eq-ok account w w' o h = ground arith

  -- The keys that a settlement checks, with the mints of the market's two tokens.
  unfoldable pub HasMatchingKeys : World → SettleAccounts → Bytes → Pubkey → Pubkey → Type 0
  HasMatchingKeys w a pool_seed coin_mint pc_mint =
      (check_pool_key rt program_id a.pool.key pool_seed ≡ ok tt)
      × (index 53 85 (w.ledger a.market.key).bytes ≡ ok coin_mint)
      × (index 85 117 (w.ledger a.market.key).bytes ≡ ok pc_mint)
      × (mint_key_of rt pool_seed program_id ≡ ok a.pool_token_mint.key)
      × (rt.get_associated_token_address a.pool.key coin_mint ≡ a.pool_coin_wallet.key)
      × (rt.get_associated_token_address a.pool.key pc_mint ≡ a.pool_pc_wallet.key)

  settle_keys-HasMatchingKeys :
      (a : SettleAccounts) (pool_seed : Bytes) (w : World) (coin_mint pc_mint : Pubkey)
      → settle_keys rt program_id a pool_seed w ≡ ok ((coin_mint, pc_mint), w)
      → HasMatchingKeys w a pool_seed coin_mint pc_mint
  unfolding settle_keys HasMatchingKeys
  settle_keys-HasMatchingKeys a pool_seed w coin_mint pc_mint h =
      lift-then (check_pool_key rt program_id a.pool.key pool_seed) _ w h λ _ key h.
        lift-then (index 53 85 (w.ledger a.market.key).bytes) _ w h λ coin coin_read h.
          lift-then (index 85 117 (w.ledger a.market.key).bytes) _ w h λ pc pc_read h.
            lift-then (mint_key_of rt pool_seed program_id) _ w h λ mint mint_ok h.
              same-then mint a.pool_token_mint.key invalid_argument _ w h λ mint_is h.
                same-then (rt.get_associated_token_address a.pool.key coin) a.pool_coin_wallet.key
                  invalid_argument _ w h
                  λ coin_is h.
                    same-then (rt.get_associated_token_address a.pool.key pc) a.pool_pc_wallet.key
                      invalid_argument _ w h
                      λ pc_is h.
                        let coin_eq : coin ≡ coin_mint = cc in
                        let pc_eq : pc ≡ pc_mint = cc in
                        (
                          key,
                          coin_read ∙ ap ok coin_eq,
                          pc_read ∙ ap ok pc_eq,
                          mint_ok ∙ ap ok mint_is,
                          ap (rt.get_associated_token_address a.pool.key) (sym coin_eq) ∙ coin_is,
                          ap (rt.get_associated_token_address a.pool.key) (sym pc_eq) ∙ pc_is,
                        )

  -- The accounts of a call of the DEX.
  abbrev pub settle_infos : SettleAccounts → List AccountInfo
  settle_infos a =
      (a.dex_program ∷ a.market ∷ a.openorders ∷ a.pool ∷ a.coin_vault ∷ a.pc_vault
        ∷ a.pool_coin_wallet ∷ a.pool_pc_wallet ∷ a.vault_signer ∷ a.spl_token_program ∷ [])
      ++ elim a.referrer [ none ↦ [] | some r ↦ r ∷ [] ]

  abbrev settle_instruction : SettleAccounts → Result Instruction
  settle_instruction a =
      rt.settle_funds
        (a.dex_program.key ∷ a.market.key ∷ a.spl_token_program.key ∷ a.openorders.key ∷ a.pool.key
          ∷ a.coin_vault.key ∷ a.pool_coin_wallet.key ∷ a.pc_vault.key ∷ a.pool_pc_wallet.key ∷ [])
        (Option.map (λ r. r.key) a.referrer) a.vault_signer.key

  settle_call-calls :
      (a : SettleAccounts) (pool_seed : Bytes) (w w' : World)
      → settle_call rt program_id a pool_seed w ≡ ok (tt, w')
      → (i : Instruction) × (settle_instruction a ≡ ok i)
        × (w'.calls
            ≡ w.calls
              ++ (record {
                instruction = i;
                account_infos = settle_infos a;
                signers_seeds = (pool_seed ∷ []) ∷ [];
              }
                  ∷ []))
  unfolding settle_call
  settle_call-calls a pool_seed w w' h = lift-then (settle_instruction a) _ w h λ i called h.
      (i, called, invoke_signed-calls rt i (settle_infos a) ((pool_seed ∷ []) ∷ []) w w' h)

  pub settle_assets-read :
      (a : SettleAccounts) (coin_mint pc_mint : Pubkey) (pc_index coin_index : ℕ) (w w' : World)
      (header : PoolHeader) (coin pc : PoolAsset)
      → settle_assets rt program_id a coin_mint pc_mint pc_index coin_index w
        ≡ ok ((header, coin, pc), w')
      → (w ≡ w') × (read_header a.pool w ≡ ok (header, w))
  unfolding settle_assets
  settle_assets-read a coin_mint pc_mint pc_index coin_index w w' header coin pc h =
      reads-then (token_account rt a.pool_coin_wallet) _ w
        (λ t v. token_account-eq-ok rt a.pool_coin_wallet w v t) h
        λ coin_account _ h.
          reads-then (token_account rt a.pool_pc_wallet) _ w
            (λ t v. token_account-eq-ok rt a.pool_pc_wallet w v t) h
            λ pc_account _ h.
              reads-then (read_header a.pool) _ w (λ hd v. read_header-eq-ok a.pool w v hd) h
                λ hd read h.
                  reads-then (asset_bytes a.pool hd) _ w
                    (λ tail v. asset_bytes-eq-ok a.pool hd w v tail) h
                    λ tail _ h.
                      lift-then (unpack_unchecked_asset tail coin_index) _ w h λ coin_asset _ h.
                        lift-then (unpack_unchecked_asset tail pc_index) _ w h λ pc_asset _ h.
                          same-then coin_account.owner a.pool.key invalid_argument _ w h λ _ h.
                            same-then pc_account.owner a.pool.key invalid_argument _ w h λ _ h.
                              lift-then (match_asset coin_asset coin_mint) _ w h λ coin' _ h.
                                lift-then (match_asset pc_asset pc_mint) _ w h λ pc' _ h.
                                  let header_is : hd ≡ header = cc in
                                  let world_is : w ≡ w' = cc in
                                  (world_is, read ∙ ap (λ x. ok (x, w)) header_is)

  write_asset-calls :
      (pool : AccountInfo) (header : PoolHeader) (asset : PoolAsset) (i : ℕ) (w w' : World)
      → write_asset pool header asset i w ≡ ok (tt, w')
      → w'.calls ≡ w.calls
  unfolding write_asset
  write_asset-calls pool header asset i w w' h = ground arith

  write_header-keeps_calls :
      (pool : AccountInfo) (header : PoolHeader) (w w' : World)
      → write_header pool header w ≡ ok (tt, w')
      → w'.calls ≡ w.calls
  unfolding write_header
  write_header-keeps_calls pool header w w' h = ground arith

  unfoldable pub HasSettled : List AccountInfo → Bytes → World → World → Type 0
  HasSettled accounts pool_seed w w' =
      (a : SettleAccounts) × (coin_mint pc_mint : Pubkey) × (header header' : PoolHeader)
      × (o : OpenOrders) × (i : Instruction) × (settle_accounts rt program_id accounts w
          ≡ ok (a, w))
      × HasMatchingKeys w a pool_seed coin_mint pc_mint
      × (read_header a.pool w ≡ ok (header, w))
      × (read_openorders a.openorders w ≡ ok (o, w))
      × (has_no_funds o ≡ false)
      × (settled_header header o ≡ ok header')
      × (settle_instruction a ≡ ok i)
      × (w'.calls
          ≡ w.calls
            ++ (record {
              instruction = i;
              account_infos = settle_infos a;
              signers_seeds = (pool_seed ∷ []) ∷ [];
            }
                ∷ []))

  -- A settlement that succeeds has checked the pool's key, its mint's key, and that the wallets are
  -- the pool's for the market's two tokens, and has found funds to settle in the open orders. It
  -- makes one call, signed for the pool, of whichever program stands as the DEX in the accounts.
  pub process_settle-eq-ok :
      (accounts : List AccountInfo) (pool_seed : Bytes) (pc_index coin_index : ℕ) (w w' : World)
      → process_settle rt program_id accounts pool_seed pc_index coin_index w ≡ ok (tt, w')
      → HasSettled accounts pool_seed w w'
  unfolding process_settle HasSettled
  process_settle-eq-ok accounts pool_seed pc_index coin_index w w' h =
      reads-then (settle_accounts rt program_id accounts) _ w
        (λ a v. settle_accounts-eq-ok accounts w v a) h
        λ a got h.
          reads-then (settle_keys rt program_id a pool_seed) _ w
            (λ q v. settle_keys-eq-ok a pool_seed w v q) h
            λ (coin_mint, pc_mint) keys h.
              reads-then (settle_assets rt program_id a coin_mint pc_mint pc_index coin_index) _ w
                (λ (header, coin, pc) v e.
                  (settle_assets-read a coin_mint pc_mint pc_index coin_index w v header coin pc
                    e).0)
                h
                λ (header, coin, pc) assets h.
                  reads-then (read_openorders a.openorders) _ w
                    (λ o v. read_openorders-eq-ok a.openorders w v o) h
                    λ o found h. lift-then (settled_header header o) _ w h λ header' settled h.
                      then (write_header a.pool header') _ w h λ _ u e1 h.
                        check-then (has_no_funds o) locked_operation_error _ u h λ funds h.
                          then (write_asset a.pool header' coin coin_index) _ u h λ _ v e2 h.
                            then (write_asset a.pool header' pc pc_index) _ v h λ _ x e3 h.
                              let (i, instruction, called) = settle_call-calls a pool_seed x w' h in
                              let before : x.calls ≡ w.calls =
                                write_asset-calls a.pool header' pc pc_index v x e3
                                ∙ write_asset-calls a.pool header' coin coin_index u v e2
                                ∙ write_header-keeps_calls a.pool header' w u e1 in
                              (
                                a,
                                coin_mint,
                                pc_mint,
                                header,
                                header',
                                o,
                                i,
                                got,
                                settle_keys-HasMatchingKeys a pool_seed w coin_mint pc_mint keys,
                                (settle_assets-read a coin_mint pc_mint pc_index coin_index w w
                                    header coin pc assets).1,
                                found,
                                funds,
                                settled,
                                instruction,
                                called
                                    ∙ ap
                                        (λ l.
                                          l
                                          ++ (record {
                                            instruction = i;
                                            account_infos = settle_infos a;
                                            signers_seeds = (pool_seed ∷ []) ∷ [];
                                          }
                                              ∷ []))
                                        before,
                              )
