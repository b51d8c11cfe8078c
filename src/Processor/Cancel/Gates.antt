-- ===== src/Processor/Cancel/Gates.antt =====
-- Who can cancel an order.
use bonfida_bot.Prelude.{ℕ, ◌≡◌, refl, true, List, [], ◌∷◌, ◌++◌, arith, sym}
use bonfida_bot.Outcome.{ok}
use bonfida_bot.Bytes.{Bytes, eq_bytes, eq_of_eq_bytes}
use bonfida_bot.State.{PoolHeader, Pubkey}
use bonfida_bot.Instruction.{Side}
use bonfida_bot.Runtime.{Runtime, AccountInfo, Instruction, World}
use bonfida_bot.Runtime.Inversion.{lift-then, reads-then}
use bonfida_bot.Utils.{check_pool_key, check_signal_provider}
use bonfida_bot.Processor.Common.{read_header}
use bonfida_bot.Processor.Reads.{read_header-eq-ok}
use bonfida_bot.Processor.Mints.{instructions, invoke_signed-eq-ok}
use bonfida_bot.Processor.Cancel.{process_cancel}

module _ (rt : Runtime) (program_id : Pubkey) where
  check_signal_provider-eq-ok :
      (header : PoolHeader) (provider : AccountInfo)
      → check_signal_provider header provider true ≡ ok tt
      → (eq_bytes header.signal_provider provider.key ≡ true) × (provider.is_signer ≡ true)
  unfolding check_signal_provider
  check_signal_provider-eq-ok header provider h = ground arith

  -- The signal provider has signed, and the order's cancellation was called.
  unfoldable pub HasCancelled : List AccountInfo → Bytes → Side → ℕ → World → World → Type 0
  HasCancelled accounts pool_seed side order_id w w' =
      (provider market openorders bids asks event_queue pool dex_program : AccountInfo)
      × (rest : List AccountInfo) × (header : PoolHeader) × (i : Instruction) × (accounts
          ≡ provider ∷ market ∷ openorders ∷ bids ∷ asks ∷ event_queue ∷ pool ∷ dex_program ∷ rest)
      × (check_pool_key rt program_id pool.key pool_seed ≡ ok tt)
      × (read_header pool w ≡ ok (header, w))
      × (provider.key ≡ header.signal_provider)
      × (provider.is_signer ≡ true)
      × (rt.cancel_order
            (dex_program.key ∷ market.key ∷ bids.key ∷ asks.key ∷ openorders.key ∷ pool.key
              ∷ event_queue.key ∷ [])
            side order_id
          ≡ ok i)
      × (instructions w' ≡ instructions w ++ (i ∷ []))

  -- A cancellation that succeeds was signed by the pool's signal provider, and the one
  -- instruction that it calls is the order's cancellation.
  pub process_cancel-eq-ok :
      (accounts : List AccountInfo) (pool_seed : Bytes) (side : Side) (order_id : ℕ) (w w' : World)
      → process_cancel rt program_id accounts pool_seed side order_id w ≡ ok (tt, w')
      → HasCancelled accounts pool_seed side order_id w w'
  unfolding process_cancel HasCancelled
  process_cancel-eq-ok
        (provider ∷ market ∷ openorders ∷ bids ∷ asks ∷ event_queue ∷ pool ∷ dex_program ∷ rest)
        pool_seed side order_id w w' h =
      lift-then (check_pool_key rt program_id pool.key pool_seed) _ w h λ _ key h.
        reads-then (read_header pool) _ w (λ hd v. read_header-eq-ok pool w v hd) h
          λ header read h.
            lift-then (check_signal_provider header provider true) _ w h λ _ signed h.
              lift-then
                (rt.cancel_order
                  (dex_program.key ∷ market.key ∷ bids.key ∷ asks.key ∷ openorders.key ∷ pool.key
                    ∷ event_queue.key ∷ [])
                  side order_id)
                _ w h
                λ i call h.
                  let (same_key, signer) = check_signal_provider-eq-ok header provider signed in
                  (
                    provider,
                    market,
                    openorders,
                    bids,
                    asks,
                    event_queue,
                    pool,
                    dex_program,
                    rest,
                    header,
                    i,
                    refl,
                    key,
                    read,
                    sym (eq_of_eq_bytes _ _ same_key),
                    signer,
                    call,
                    invoke_signed-eq-ok rt i _ _ w w' h,
                  )
  process_cancel-eq-ok [] pool_seed side order_id w w' h = cc
  process_cancel-eq-ok (provider ∷ []) pool_seed side order_id w w' h = cc
  process_cancel-eq-ok (provider ∷ market ∷ []) pool_seed side order_id w w' h = cc
  process_cancel-eq-ok (provider ∷ market ∷ openorders ∷ []) pool_seed side order_id w w' h = cc
  process_cancel-eq-ok (provider ∷ market ∷ openorders ∷ bids ∷ []) pool_seed side order_id w w' h =
      cc
  process_cancel-eq-ok (provider ∷ market ∷ openorders ∷ bids ∷ asks ∷ []) pool_seed side order_id w
        w' h =
      cc
  process_cancel-eq-ok (provider ∷ market ∷ openorders ∷ bids ∷ asks ∷ event_queue ∷ []) pool_seed
        side order_id w w' h =
      cc
  process_cancel-eq-ok (provider ∷ market ∷ openorders ∷ bids ∷ asks ∷ event_queue ∷ pool ∷ [])
        pool_seed side order_id w w' h =
      cc
