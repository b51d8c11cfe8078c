-- ===== src/Pool/Refine/Reset.antt =====
-- The last step of `process_redeem`: the pool is reset, or left as it is.
use bonfida_bot.Prelude.{
  ◌≡◌, sym, subst, inl, inr, true, false, Bool, length, replicate, if◌then◌else◌,
}
use bonfida_bot.Outcome.{ok}
use bonfida_bot.State.{Pubkey, PoolHeader, is_initialized, uninitialized}
use bonfida_bot.Runtime.{World, AccountInfo, pure}
use bonfida_bot.Processor.Common.{read_header}
use bonfida_bot.Processor.Redeem.{reset_pool, has_pending_orders}
use bonfida_bot.Processor.Redeem.Reset.{reset-IsSized}
use bonfida_bot.Pool.Frame.{Holds, Keeps-pure}
use bonfida_bot.Pool.Writes.{same_key, reset_pool-Holds, reset_pool-Keeps, read_header-Holds}
use bonfida_bot.Pool.Step.{Pool, pool_bytes, Step}
use bonfida_bot.Pool.Moves.{HoldsPool, Moves, Holds-Moves}

module _ {program_id : Pubkey} where
  reset_here :
      (pool : AccountInfo) (header : PoolHeader) (p : Pool) (w w' : World)
      → HoldsPool program_id pool.key p w
      → (header ≡ p.header) × (is_initialized p.header ≡ true)
      → has_pending_orders header.status ≡ false
      → reset_pool pool header w ≡ ok (tt, w')
      → Moves program_id pool.key p w'
  reset_here pool header p w w' h (same, there) none_pending e = (
    record {
      header = record p.header { status = uninitialized };
      rest = replicate (length p.rest) 0;
    },
    Step.emptied p.header p.rest there
        (subst (λ hd. has_pending_orders hd.status ≡ false) same none_pending),
    record {
      sized = reset-IsSized p.header h.sized;
      held =
          reset_pool-Holds pool p.header p.rest w w' h.held h.sized
            (subst (λ hd. reset_pool pool hd w ≡ ok (tt, w')) same e);
    },
  )

  reset_elsewhere_or_here :
      {key : Pubkey} (pool : AccountInfo) (header : PoolHeader) (p : Pool) (v w w' : World)
      → HoldsPool program_id key p v
      → read_header pool v ≡ ok (header, v)
      → Holds program_id key (pool_bytes p) w
      → has_pending_orders header.status ≡ false
      → reset_pool pool header w ≡ ok (tt, w')
      → Moves program_id key p w'
  reset_elsewhere_or_here {key = key} pool header p v w w' h read held none_pending e =
      elim (same_key key pool.key) [
        | inr other ↦
            Holds-Moves p w' h.sized
              ((reset_pool-Keeps pool header other).at (pool_bytes p) w w' tt held e)
        | inl same ↦
            let here : Holds program_id pool.key (pool_bytes p) v =
              subst (λ k. Holds program_id k (pool_bytes p) v) same h.held in
            let held' : HoldsPool program_id pool.key p w = record {
              sized = h.sized;
              held = subst (λ k. Holds program_id k (pool_bytes p) w) same held;
            } in
            subst (λ k. Moves program_id k p w') (sym same)
              (reset_here pool header p w w' held'
                (read_header-Holds pool p.header header p.rest v v here h.sized read) none_pending
                e)
      ]

  pub reset_if :
      {key : Pubkey} (all : Bool) (pool : AccountInfo) (header : PoolHeader) (p : Pool)
      (v w w' : World)
      → HoldsPool program_id key p v
      → read_header pool v ≡ ok (header, v)
      → Holds program_id key (pool_bytes p) w
      → has_pending_orders header.status ≡ false
      → (if all then reset_pool pool header else pure tt) w ≡ ok (tt, w')
      → Moves program_id key p w'
  reset_if true pool header p v w w' h read held none_pending e =
      reset_elsewhere_or_here pool header p v w w' h read held none_pending e
  reset_if false pool header p v w w' h read held none_pending e =
      Holds-Moves p w' h.sized ((Keeps-pure tt).at (pool_bytes p) w w' tt held e)
