-- ===== src/Pool/Refine/Create.antt =====
-- `process_create` writes a pool into the account that it is given, if that holds none.
use bonfida_bot.Pool.Refine.Checks.{
  create_accounts-Keeps, create_checks-Keeps, create_checks-uninitialized,
}
use bonfida_bot.Processor.Headers.{read_header_lem}
use bonfida_bot.Pool.Refine.Written.{write_pool-eq-ok, new_header, new_header-IsSized}
use bonfida_bot.Pool.Moves.{HoldsPool, Moves, Refines}
use bonfida_bot.Pool.Step.{Pool, pool_bytes, Step}
use bonfida_bot.Pool.Writes.{same_key, write_data-Holds}
use bonfida_bot.Pool.Keeps.{first_deposits-Keeps}
use bonfida_bot.Pool.Frame.{Holds, IsRuntime, Keeps-mint_pool_tokens, Keeps-write_data}
use bonfida_bot.Runtime.Inversion.{then, lift-then}
use bonfida_bot.Instruction.Range.{IsCreation}
use bonfida_bot.Instruction.{Creation}
use bonfida_bot.Prelude.{
  ◌≡◌, ap, sym, List, arith, length, ◌^◌, ◌<◌, inl, inr, subst, false, refl, ℕ, ◌≢◌,
}
use bonfida_bot.Outcome.{ok}
use bonfida_bot.Bytes.{Bytes}
use bonfida_bot.State.{Pubkey, PoolAsset, is_initialized}
use bonfida_bot.State.Layout.{length-header_bytes}
use bonfida_bot.Runtime.{Runtime, World, AccountInfo, write_data}
use bonfida_bot.Processor.Common.{mint_pool_tokens, read_header}
use bonfida_bot.Processor.Create.{
  write_pool, process_create, CreateAccounts, create_accounts, create_checks, first_deposits,
}

-- What a creation leaves in an account that holds a pool: the new pool, or what was there.
data Creates (program_id key : Pubkey) (a : CreateAccounts) (now : ℕ) (c : Creation) (p : Pool)
    (w' : World) : Type 0 where
  elsewhere : key ≢ a.pool.key → HoldsPool program_id key p w' → Creates program_id key a now c p w'
  here :
      key ≡ a.pool.key
      → is_initialized p.header ≡ false
      → (rest : Bytes) → length p.rest ≡ length rest
      → HoldsPool program_id a.pool.key (record { header = new_header a now c; rest = rest }) w'
      → Creates program_id key a now c p w'

module _ {rt : Runtime} {program_id : Pubkey} (laws : IsRuntime rt program_id) where
  create_here :
      (a : CreateAccounts) (now : ℕ) (c : Creation) (assets : List PoolAsset) (new : Bytes)
      (p : Pool) (w w' : World)
      → IsCreation c
      → now < 2 ^ 64
      → HoldsPool program_id a.pool.key p w
      → write_pool (new_header a now c) c.markets assets (w.ledger a.pool.key).bytes ≡ ok new
      → write_data a.pool new w ≡ ok (tt, w')
      → (rest : Bytes) × (length p.rest ≡ length rest)
        × HoldsPool program_id a.pool.key (record { header = new_header a now c; rest = rest }) w'
  create_here a now c assets new p w w' v fits h e1 e2 =
      let old = (w.ledger a.pool.key).bytes in
      let header = new_header a now c in
      let sized = new_header-IsSized a now c assets old new v fits e1 in
      let (rest, there, size) = write_pool-eq-ok header c.markets assets old new sized e1 in
      (
        rest,
        omega (
          arith,
          size,
          ap length there,
          ap length h.held.content,
          length-header_bytes header rest sized,
          length-header_bytes p.header p.rest h.sized,
        ),
        record {
          sized = sized;
          held =
              subst (λ b. Holds program_id a.pool.key b w') there
                (write_data-Holds a.pool (pool_bytes p) new w w' h.held e2);
        },
      )

  -- A creation that succeeds, seen from an account that holds a pool.
  process_create-Creates :
      {key : Pubkey} (accounts : List AccountInfo) (c : Creation) (p : Pool) (w w' : World)
      → IsCreation c
      → HoldsPool program_id key p w
      → process_create rt program_id accounts c.pool_seed c.deposit_amounts c.markets
          c.fee_collection_period c.fee_ratio w
        ≡ ok (tt, w')
      → (a : CreateAccounts) × (w1 : World) × (now : ℕ) × (create_accounts rt program_id
            (length c.deposit_amounts)
            accounts
            w
          ≡ ok (a, w1))
        × (rt.unix_timestamp a.clock (w1.ledger a.clock.key) ≡ ok now)
        × Creates program_id key a now c p w'
  unfolding process_create
  process_create-Creates {key = key} accounts c p w w' v h e =
      then (create_accounts rt program_id (length c.deposit_amounts) accounts) _ w e λ a w1 e1 e.
        lift-then (rt.unix_timestamp a.clock (w1.ledger a.clock.key)) _ w1 e λ now time e.
          then (create_checks rt program_id a c.pool_seed c.markets c.fee_collection_period) _ w1 e
            λ (pool_key, mint_key) w2 e2 e.
              then
                (first_deposits rt program_id a pool_key c.deposit_amounts a.pool_assets
                  a.source_assets)
                _ w2 e
                λ assets w3 e3 e.
                  then
                    (mint_pool_tokens rt a.spl_token a.mint a.target_pool_token a.pool mint_key
                      a.target_pool_token.key c.pool_seed 1_000_000)
                    _ w3 e
                    λ _ w4 e4 e.
                      lift-then
                        (write_pool (new_header a now c) c.markets assets
                          (w4.ledger a.pool.key).bytes)
                        _ w4 e
                        λ new written e.
                          let h1 =
                            (create_accounts-Keeps rt program_id (length c.deposit_amounts)
                                accounts).at
                              (pool_bytes p) w w1 a h.held e1 in
                          let h2 =
                            (create_checks-Keeps rt program_id a c.pool_seed c.markets
                                c.fee_collection_period).at
                              (pool_bytes p) w1 w2 (pool_key, mint_key) h1 e2 in
                          let h3 =
                            (first_deposits-Keeps laws a pool_key c.deposit_amounts a.pool_assets
                                a.source_assets).at
                              (pool_bytes p) w2 w3 assets h2 e3 in
                          let h4 =
                            (Keeps-mint_pool_tokens laws a.spl_token a.mint a.target_pool_token
                                a.pool mint_key a.target_pool_token.key c.pool_seed 1_000_000).at
                              (pool_bytes p) w3 w4 tt h3 e4 in
                          (
                            a,
                            w1,
                            now,
                            e1,
                            time,
                            elim (same_key key a.pool.key) [
                              | inr other ↦ Creates.elsewhere other (record {
                                sized = h.sized;
                                held =
                                    (Keeps-write_data a.pool new other).at (pool_bytes p) w4 w' tt
                                      h4 e;
                              })
                              | inl same ↦
                                  let here : (u : World)
                                      → Holds program_id key (pool_bytes p) u
                                      → HoldsPool program_id a.pool.key p u =
                                    (λ u x. record {
                                      sized = h.sized;
                                      held =
                                          subst (λ k. Holds program_id k (pool_bytes p) u) same x;
                                    }) in
                                  let none_there =
                                    create_checks-uninitialized rt program_id a c.pool_seed
                                      c.markets c.fee_collection_period p w1 w2 (pool_key, mint_key)
                                      (here w1 h1) e2 in
                                  let (rest, size, held) =
                                    create_here a now c assets new p w4 w' v
                                      (laws.time_fits a.clock (w1.ledger a.clock.key) now time)
                                      (here w4 h4) written e in
                                  Creates.here same none_there rest size held
                            ],
                          )

  Creates-Moves :
      {key : Pubkey} (a : CreateAccounts) (now : ℕ) (c : Creation) (p : Pool) (w' : World)
      → Creates program_id key a now c p w'
      → Moves program_id key p w'
  Creates-Moves a now c p w' (Creates.elsewhere other held) = (p, Step.kept p, held)
  Creates-Moves {key = key} a now c p w' (Creates.here same none_there rest size held) = (
    record { header = new_header a now c; rest = rest },
    Step.created p (new_header a now c) rest none_there refl size,
    subst (λ k. HoldsPool program_id k (record { header = new_header a now c; rest = rest }) w')
        (sym same) held,
  )

  pub process_create-Refines :
      {key : Pubkey} (accounts : List AccountInfo) (c : Creation)
      → IsCreation c
      → Refines program_id key (
          process_create rt program_id accounts c.pool_seed c.deposit_amounts c.markets
            c.fee_collection_period c.fee_ratio)
  process_create-Refines accounts c v = record {
    at = λ p w w' _ h e.
        let (a, _, now, _, _, outcome) = process_create-Creates accounts c p w w' v h e in
        Creates-Moves a now c p w' outcome;
  }

created_header :
    (program_id : Pubkey) (a : CreateAccounts) (now : ℕ) (c : Creation) (p : Pool) (w' : World)
    → Creates program_id a.pool.key a now c p w'
    → (is_initialized p.header ≡ false) × (read_header a.pool w' ≡ ok (new_header a now c, w'))
unfolding is_initialized
created_header program_id a now c p w' (Creates.elsewhere other held) = absurd (other refl)
created_header program_id a now c p w' (Creates.here same none_there rest size held) =
    (none_there, read_header_lem a.pool (new_header a now c) rest w' held.sized held.held.content)

-- If the runtime keeps its promises, and a creation whose fields are in range succeeds on a pool
-- account that held none yet, then the account's header is read back as the instruction, the
-- accounts and the clock determine it: unlocked, with the clock as the time of the last
-- collection of fees.
pub process_create-header :
    (rt : Runtime) (program_id : Pubkey) (accounts : List AccountInfo) (c : Creation)
    (a : CreateAccounts) (p : Pool) (w w' : World)
    → IsRuntime rt program_id
    → IsCreation c
    → create_accounts rt program_id (length c.deposit_amounts) accounts w ≡ ok (a, w)
    → HoldsPool program_id a.pool.key p w
    → process_create rt program_id accounts c.pool_seed c.deposit_amounts c.markets
        c.fee_collection_period c.fee_ratio w
      ≡ ok (tt, w')
    → (is_initialized p.header ≡ false)
      × ((now : ℕ) × (rt.unix_timestamp a.clock (w.ledger a.clock.key) ≡ ok now)
          × (read_header a.pool w' ≡ ok (new_header a now c, w')))
process_create-header rt program_id accounts c a p w w' laws v got h e =
    let (b, w1, now, got', time, outcome) = process_create-Creates laws accounts c p w w' v h e in
    let accounts_are : b ≡ a = cc in
    let world_is : w1 ≡ w = cc in
    let time' : rt.unix_timestamp a.clock (w.ledger a.clock.key) ≡ ok now =
      subst (λ x. rt.unix_timestamp x.clock (w.ledger x.clock.key) ≡ ok now) accounts_are
        (subst (λ u. rt.unix_timestamp b.clock (u.ledger b.clock.key) ≡ ok now) world_is time) in
    let (none_there, read) =
      created_header program_id a now c p w'
        (subst (λ x. Creates program_id a.pool.key x now c p w') accounts_are outcome) in
    (none_there, (now, time', read))
