-- ===== src/Pool/Refine/Collect.antt =====
-- `process_collect_fees` sets the clock of the pool that it is given, and of no other.
use bonfida_bot.Prelude.{ℕ, ◌≡◌, sym, subst, inl, inr, List, arith, true}
use bonfida_bot.Outcome.{ok}
use bonfida_bot.Bytes.{Bytes}
use bonfida_bot.State.{Pubkey, PoolHeader, is_initialized}
use bonfida_bot.State.Layout.{IsSized}
use bonfida_bot.Runtime.{Runtime, World, AccountInfo}
use bonfida_bot.Runtime.Inversion.{then}
use bonfida_bot.Processor.Common.{write_header}
use bonfida_bot.Processor.Fees.{collected_header}
use bonfida_bot.Processor.CollectFees.{
  process_collect_fees, CollectAccounts, collect_accounts, collect_checks, collect_due, collect_pay,
}
use bonfida_bot.Processor.CollectFees.Payment.{collect_checks-eq-ok, collect_checks-header}
use bonfida_bot.Pool.Frame.{Holds, IsRuntime}
use bonfida_bot.Pool.Keeps.{
  collect_accounts-Keeps, collect_checks-Keeps, collect_due-Keeps, collect_pay-Keeps,
}
use bonfida_bot.Pool.Writes.{same_key, write_header-Holds, write_header-Keeps, read_header-Holds}
use bonfida_bot.Pool.Step.{Pool, pool_bytes, Step}
use bonfida_bot.Pool.Moves.{HoldsPool, Moves, Refines, Holds-Moves}

pub collected_header-IsSized :
    (h : PoolHeader) (cycles : ℕ) → IsSized h → IsSized (collected_header h cycles)
unfolding collected_header
collected_header-IsSized h cycles v = record {
  serum_program_id = v.serum_program_id;
  seed = v.seed;
  signal_provider = v.signal_provider;
  status = v.status;
  number_of_markets = v.number_of_markets;
  fee_ratio = v.fee_ratio;
  last_fee_collection_timestamp = omega arith;
  fee_collection_period = v.fee_collection_period;
}

module _ {rt : Runtime} {program_id : Pubkey} (laws : IsRuntime rt program_id) where
  -- The header of the pool itself was read, before it is written.
  collect_checks-Holds :
      (a : CollectAccounts) (pool_seed : Bytes) (w w' : World) (mint_key : Pubkey)
      (header : PoolHeader) (p : Pool)
      → HoldsPool program_id a.pool.key p w
      → collect_checks rt program_id a pool_seed w ≡ ok ((mint_key, header), w')
      → (header ≡ p.header) × (is_initialized p.header ≡ true)
  collect_checks-Holds a pool_seed w w' mint_key header p h e =
      let same = collect_checks-eq-ok rt program_id a pool_seed w w' (mint_key, header) e in
      let e' =
        subst (λ v. collect_checks rt program_id a pool_seed w ≡ ok ((mint_key, header), v))
          (sym same) e in
      let (_, read, _) = collect_checks-header rt program_id a pool_seed w mint_key header e' in
      read_header-Holds a.pool p.header header p.rest w w h.held h.sized read

  collect_write :
      (pool : AccountInfo) (header : PoolHeader) (cycles : ℕ) (p : Pool) (w w' : World)
      → HoldsPool program_id pool.key p w
      → (header ≡ p.header) × (is_initialized p.header ≡ true)
      → write_header pool (collected_header header cycles) w ≡ ok (tt, w')
      → Moves program_id pool.key p w'
  unfolding collected_header
  collect_write pool header cycles p w w' h (same, there) e =
      let v = collected_header-IsSized p.header cycles h.sized in
      let e' =
        subst (λ hd. write_header pool (collected_header hd cycles) w ≡ ok (tt, w')) same e in
      (
        record { header = collected_header p.header cycles; rest = p.rest },
        Step.collected p.header (collected_header p.header cycles).last_fee_collection_timestamp
            p.rest there,
        record {
          sized = v;
          held =
              write_header-Holds pool p.header (collected_header p.header cycles) p.rest w w' h.held
                h.sized v e';
        },
      )

  pub process_collect_fees-Refines :
      {key : Pubkey} (accounts : List AccountInfo) (pool_seed : Bytes)
      → Refines program_id key (process_collect_fees rt program_id accounts pool_seed)
  unfolding process_collect_fees
  process_collect_fees-Refines {key = key} accounts pool_seed = record {
    at = λ p w w' _ h e. then (collect_accounts rt program_id accounts) _ w e λ a w1 e1 e.
        then (collect_checks rt program_id a pool_seed) _ w1 e λ (mint_key, header) w2 e2 e.
          then (collect_due rt program_id a header) _ w2 e λ (cycles, tokens) w3 e3 e.
            then (collect_pay rt program_id a pool_seed mint_key tokens) _ w3 e λ _ w4 e4 e.
              let h1 = (collect_accounts-Keeps laws accounts).at (pool_bytes p) w w1 a h.held e1 in
              let h2 =
                (collect_checks-Keeps laws a pool_seed).at (pool_bytes p) w1 w2 (mint_key, header)
                  h1 e2 in
              let h3 =
                (collect_due-Keeps laws a header).at (pool_bytes p) w2 w3 (cycles, tokens) h2 e3 in
              let h4 =
                (collect_pay-Keeps laws a pool_seed mint_key tokens).at (pool_bytes p) w3 w4 tt h3
                  e4 in
              elim (same_key key a.pool.key) [
                | inr other ↦ Holds-Moves p w' h.sized (
                    (write_header-Keeps a.pool (collected_header header cycles) other).at
                      (pool_bytes p) w4 w' tt h4 e)
                | inl same ↦
                    let read =
                      collect_checks-Holds a pool_seed w1 w2 mint_key header p
                        (record {
                          sized = h.sized;
                          held = subst (λ k. Holds program_id k (pool_bytes p) w1) same h1;
                        })
                        e2 in
                    subst (λ k. Moves program_id k p w') (sym same)
                      (collect_write a.pool header cycles p w4 w'
                        (record {
                          sized = h.sized;
                          held = subst (λ k. Holds program_id k (pool_bytes p) w4) same h4;
                        })
                        read e)
              ];
  }
