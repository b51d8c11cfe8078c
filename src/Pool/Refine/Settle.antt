-- ===== src/Pool/Refine/Settle.antt =====
-- `process_settle` writes the status and two assets of the pool that it is given.
use bonfida_bot.Processor.Settle.Gates.{settle_assets-read}
use bonfida_bot.Pool.Refine.Status.{settle_status-IsStatus, settled_header-eq-ok}
use bonfida_bot.State.Layout.{IsSized, header_bytes}
use bonfida_bot.Pool.Front.{SameFront-trans}
use bonfida_bot.Pool.Writes.{
  same_key, write_header-Holds, write_header-Keeps, write_asset-Holds, write_asset-Keeps,
  read_header-Holds,
}
use bonfida_bot.Pool.Keeps.{settle_call-Keeps}
use bonfida_bot.Prelude.{ℕ, ◌≡◌, ◌⊎◌, List, true, ◌*◌, inl, inr, sym, subst, ◌≢◌}
use bonfida_bot.Outcome.{ok}
use bonfida_bot.Bytes.{Bytes}
use bonfida_bot.State.{Pubkey, PoolHeader, PoolAsset, PoolStatus, is_initialized}
use bonfida_bot.State.Status.{IsStatus}
use bonfida_bot.Runtime.{Runtime, World, AccountInfo, ◌>>◌, require_not}
use bonfida_bot.Runtime.Inversion.{then, lift-then, check-then}
use bonfida_bot.Processor.Common.{write_header, locked_operation_error}
use bonfida_bot.Processor.Settle.{
  SettleAccounts, OpenOrders, settle_accounts, settle_keys, settle_assets, read_openorders,
  settled_header, settle_status, process_settle, settle_call, write_asset, has_no_funds,
}
use bonfida_bot.Pool.Frame.{Keeps, IsRuntime, keeps_rules, Holds}
use bonfida_bot.Pool.Step.{Pool, pool_bytes, Step}
use bonfida_bot.Pool.Moves.{HoldsPool, Moves, Refines, Holds-Moves}

module _ {rt : Runtime} {program_id : Pubkey} (laws : IsRuntime rt program_id) where
  settle_accounts-Keeps :
      {key : Pubkey} (accounts : List AccountInfo)
      → Keeps program_id key (settle_accounts rt program_id accounts)
  unfolding settle_accounts
  settle_accounts-Keeps accounts = search keeps_rules depth 40

  settle_keys-Keeps :
      {key : Pubkey} (a : SettleAccounts) (pool_seed : Bytes)
      → Keeps program_id key (settle_keys rt program_id a pool_seed)
  unfolding settle_keys
  settle_keys-Keeps a pool_seed = search keeps_rules depth 40

  settle_assets-Keeps :
      {key : Pubkey} (a : SettleAccounts) (coin_mint pc_mint : Pubkey) (pc_index coin_index : ℕ)
      → Keeps program_id key (settle_assets rt program_id a coin_mint pc_mint pc_index coin_index)
  unfolding settle_assets
  settle_assets-Keeps a coin_mint pc_mint pc_index coin_index = search keeps_rules depth 40

  read_openorders-Keeps :
      {key : Pubkey} (account : AccountInfo) → Keeps program_id key (read_openorders account)
  unfolding read_openorders
  read_openorders-Keeps account = search keeps_rules depth 40

  settle_assets-header :
      (a : SettleAccounts) (coin_mint pc_mint : Pubkey) (pc_index coin_index : ℕ) (w w' : World)
      (header : PoolHeader) (coin pc : PoolAsset) (p : Pool)
      → HoldsPool program_id a.pool.key p w
      → settle_assets rt program_id a coin_mint pc_mint pc_index coin_index w
        ≡ ok ((header, coin, pc), w')
      → (header ≡ p.header) × (is_initialized p.header ≡ true)
  settle_assets-header a coin_mint pc_mint pc_index coin_index w w' header coin pc p h e =
      let (_, read) =
        settle_assets-read rt program_id a coin_mint pc_mint pc_index coin_index w w' header coin pc
          e in
      read_header-Holds a.pool p.header header p.rest w w h.held h.sized read

  settled-IsSized :
      (h : PoolHeader) (after : PoolStatus)
      → IsSized h
      → (after ≡ h.status) ⊎ (settle_status h.status ≡ ok after)
      → IsSized (record h { status = after })
  settled-IsSized h after v from = record {
    serum_program_id = v.serum_program_id;
    seed = v.seed;
    signal_provider = v.signal_provider;
    status = elim from [
      | inl same ↦ subst IsStatus (sym same) v.status
      | inr step ↦ settle_status-IsStatus h.status after v.status step
    ];
    number_of_markets = v.number_of_markets;
    fee_ratio = v.fee_ratio;
    last_fee_collection_timestamp = v.last_fee_collection_timestamp;
    fee_collection_period = v.fee_collection_period;
  }

  -- The three writes into the pool that was read, and the call.
  settle_here :
      (a : SettleAccounts) (pool_seed : Bytes) (after : PoolStatus) (header : PoolHeader)
      (coin pc : PoolAsset) (coin_index pc_index : ℕ) (p : Pool) (w w1 w2 w3 w' : World)
      → HoldsPool program_id a.pool.key p w
      → is_initialized p.header ≡ true
      → header ≡ record p.header { status = after }
      → (after ≡ p.header.status) ⊎ (settle_status p.header.status ≡ ok after)
      → write_header a.pool header w ≡ ok (tt, w1)
      → write_asset a.pool header coin coin_index w1 ≡ ok (tt, w2)
      → write_asset a.pool header pc pc_index w2 ≡ ok (tt, w3)
      → settle_call rt program_id a pool_seed w3 ≡ ok (tt, w')
      → Moves program_id a.pool.key p w'
  settle_here a pool_seed after header coin pc coin_index pc_index p w w1 w2 w3 w' h there same from
        e1 e2 e3 e4 =
      let h' = record p.header { status = after } in
      let v = settled-IsSized p.header after h.sized from in
      let held1 =
        write_header-Holds a.pool p.header h' p.rest w w1 h.held h.sized v
          (subst (λ x. write_header a.pool x w ≡ ok (tt, w1)) same e1) in
      let (rest2, front2, held2) =
        write_asset-Holds a.pool h' p.rest coin coin_index w1 w2 held1 v
          (subst (λ x. write_asset a.pool x coin coin_index w1 ≡ ok (tt, w2)) same e2) in
      let (rest3, front3, held3) =
        write_asset-Holds a.pool h' rest2 pc pc_index w2 w3 held2 v
          (subst (λ x. write_asset a.pool x pc pc_index w2 ≡ ok (tt, w3)) same e3) in
      let held' =
        (settle_call-Keeps laws a pool_seed).at (header_bytes h' rest3) w3 w' tt held3 e4 in
      (
        record { header = h'; rest = rest3 },
        Step.settled p.header after p.rest rest3 there from
            (SameFront-trans (32 * p.header.number_of_markets) p.rest rest2 rest3 front2 front3),
        record { sized = v; held = held' },
      )

  settle_elsewhere :
      {key : Pubkey} (a : SettleAccounts) (pool_seed : Bytes) (header : PoolHeader)
      (coin pc : PoolAsset) (coin_index pc_index : ℕ) (o : OpenOrders)
      → key ≢ a.pool.key
      → Keeps program_id key (do
        write_header a.pool header
        require_not (has_no_funds o) locked_operation_error
        write_asset a.pool header coin coin_index
        write_asset a.pool header pc pc_index
        settle_call rt program_id a pool_seed)
  settle_elsewhere a pool_seed header coin pc coin_index pc_index o other =
      search (keeps_rules, write_header-Keeps, write_asset-Keeps, settle_call-Keeps, laws) depth 40

  pub process_settle-Refines :
      {key : Pubkey} (accounts : List AccountInfo) (pool_seed : Bytes) (pc_index coin_index : ℕ)
      → Refines program_id key (process_settle rt program_id accounts pool_seed pc_index coin_index)
  unfolding process_settle
  process_settle-Refines {key = key} accounts pool_seed pc_index coin_index = record {
    at = λ p w w' _ h e. then (settle_accounts rt program_id accounts) _ w e λ a w1 e1 e.
        then (settle_keys rt program_id a pool_seed) _ w1 e λ (coin_mint, pc_mint) w2 e2 e.
          then (settle_assets rt program_id a coin_mint pc_mint pc_index coin_index) _ w2 e
            λ (header, coin, pc) w3 e3 e. then (read_openorders a.openorders) _ w3 e λ o w4 e4 e.
              lift-then (settled_header header o) _ w4 e λ header' settled e.
                let h1 = (settle_accounts-Keeps accounts).at (pool_bytes p) w w1 a h.held e1 in
                let h2 =
                  (settle_keys-Keeps a pool_seed).at (pool_bytes p) w1 w2 (coin_mint, pc_mint) h1
                    e2 in
                let h3 =
                  (settle_assets-Keeps a coin_mint pc_mint pc_index coin_index).at (pool_bytes p) w2
                    w3 (header, coin, pc) h2 e3 in
                let h4 = (read_openorders-Keeps a.openorders).at (pool_bytes p) w3 w4 o h3 e4 in
                elim (same_key key a.pool.key) [
                  | inr other ↦ Holds-Moves p w' h.sized (
                      (settle_elsewhere a pool_seed header' coin pc coin_index pc_index o other).at
                        (pool_bytes p) w4 w' tt h4 e)
                  | inl same ↦
                      let here : (v : World)
                          → Holds program_id key (pool_bytes p) v
                          → HoldsPool program_id a.pool.key p v =
                        (λ v x. record {
                          sized = h.sized;
                          held = subst (λ k. Holds program_id k (pool_bytes p) v) same x;
                        }) in
                      let (read, there) =
                        settle_assets-header a coin_mint pc_mint pc_index coin_index w2 w3 header
                          coin pc p (here w2 h2) e3 in
                      let (after, differs, from) =
                        settled_header-eq-ok p.header header' o
                          (subst (λ x. settled_header x o ≡ ok header') read settled) in
                      subst (λ k. Moves program_id k p w') (sym same)
                        (then (write_header a.pool header') _ w4 e λ _ u1 x1 e.
                          check-then (has_no_funds o) locked_operation_error _ u1 e λ _ e.
                            then (write_asset a.pool header' coin coin_index) _ u1 e λ _ u2 x2 e.
                              then (write_asset a.pool header' pc pc_index) _ u2 e λ _ u3 x3 x4.
                                settle_here a pool_seed after header' coin pc coin_index pc_index p
                                  w4 u1 u2 u3 w' (here w4 h4) there differs from x1 x2 x3 x4)
                ];
  }
