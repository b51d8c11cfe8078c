-- ===== src/Pool/Life.antt =====
-- What holds of a pool over any run of instructions: README.md, "immutably defined" terms, and the
-- status.
use bonfida_bot.Pool.Terms.{
  SameTerms, SameTerms-refl, SameTerms-trans, Step-terms, IsFree, Steps-IsFree, Steps-size,
}
use bonfida_bot.Pool.Front.{ok-inj, drop-header}
use bonfida_bot.State.Layout.{unpack_from_slice-header_bytes}
use bonfida_bot.Prelude.{◌≡◌, ap, ◌∙◌, List, All, sym, length, true, ◌⊎◌, drop, inl, inr, false}
use bonfida_bot.Outcome.{ok}
use bonfida_bot.Bytes.{Bytes, IsByte}
use bonfida_bot.State.{Pubkey, header_len, unpack_from_slice, is_initialized}
use bonfida_bot.Runtime.{Runtime, World, AccountInfo}
use bonfida_bot.Processor.Dispatch.{process_instruction}
use bonfida_bot.Processor.Redeem.{has_pending_orders}
use bonfida_bot.Pool.Frame.{IsRuntime}
use bonfida_bot.Pool.Step.{Pool, Step, Steps, pool_bytes}
use bonfida_bot.Pool.Moves.{HoldsPool}
use bonfida_bot.Pool.Refine.Program.{process_instruction-Step}

-- A run of the ledger: the program's instructions that succeed, and in between whatever leaves the
-- owner and the data of the program's accounts as they are.
pub data Run (rt : Runtime) (program_id : Pubkey) : World → World → Type 0 where
  done : (w : World) → Run rt program_id w w
  instruction :
      (accounts : List AccountInfo) (instruction_data : Bytes) (w v w' : World)
      → All IsByte instruction_data
      → process_instruction rt program_id accounts instruction_data w ≡ ok (tt, v)
      → Run rt program_id v w'
      → Run rt program_id w w'
  other :
      (w v w' : World)
      → ((key : Pubkey)
          → (w.ledger key).owner ≡ program_id
          → ((v.ledger key).owner ≡ program_id) × ((v.ledger key).bytes ≡ (w.ledger key).bytes))
      → Run rt program_id v w'
      → Run rt program_id w w'

HoldsPool-kept :
    (program_id key : Pubkey) (p : Pool) (w v : World)
    → HoldsPool program_id key p w
    → ((v.ledger key).owner ≡ program_id) × ((v.ledger key).bytes ≡ (w.ledger key).bytes)
    → HoldsPool program_id key p v
HoldsPool-kept program_id key p w v h (owner, bytes) = record {
  sized = h.sized;
  held = record { owner = owner; content = bytes ∙ h.held.content };
}

-- An account that holds a pool makes steps of the abstract pool, whatever is run.
Run-Steps :
    (rt : Runtime) (program_id key : Pubkey) (p : Pool) (w w' : World)
    → IsRuntime rt program_id
    → Run rt program_id w w'
    → HoldsPool program_id key p w
    → (p' : Pool) × Steps p p' × HoldsPool program_id key p' w'
Run-Steps rt program_id key p w w' laws (Run.done _) h = (p, Steps.done p, h)
Run-Steps rt program_id key p w w' laws (Run.instruction accounts input _ v _ bytes e run) h =
    let (q, step, held) =
      process_instruction-Step rt program_id key accounts input p w v laws bytes h e in
    let (p', steps, held') = Run-Steps rt program_id key q v w' laws run held in
    (p', Steps.step_then p q p' step steps, held')
Run-Steps rt program_id key p w w' laws (Run.other _ v _ keeps run) h =
    Run-Steps rt program_id key p v w' laws run
      (HoldsPool-kept program_id key p w v h (keeps key h.held.owner))

-- An account's data determine the pool that it holds.
pub HoldsPool-unique :
    (program_id key : Pubkey) (p q : Pool) (w : World)
    → HoldsPool program_id key p w
    → HoldsPool program_id key q w
    → p ≡ q
HoldsPool-unique program_id key p q w a b =
    let same : pool_bytes p ≡ pool_bytes q = sym a.held.content ∙ b.held.content in
    let headers : p.header ≡ q.header = ok-inj (
      sym (unpack_from_slice-header_bytes p.header p.rest a.sized)
      ∙ ap unpack_from_slice same
      ∙ unpack_from_slice-header_bytes q.header q.rest b.sized) in
    let rests : p.rest ≡ q.rest =
      sym (drop-header p.header p.rest a.sized)
      ∙ ap (drop header_len) same
      ∙ drop-header q.header q.rest b.sized in
    ap (λ h. record { header = h; rest = p.rest }) headers
    ∙ ap (λ r. record { header = q.header; rest = r }) rests

module _ (program_id key : Pubkey) (p : Pool) where
  -- The account holds an initialized pool with the terms of `p`.
  abbrev HasTerms : World → Type 0
  HasTerms w =
      (q : Pool) × HoldsPool program_id key q w × SameTerms p q × (is_initialized q.header ≡ true)

  -- Between the two worlds, a pool for which no order is pending is emptied.
  pub record IsEmptied (w v : World) : Type 0 where
    pub before : Pool
    pub after : Pool
    pub held_before : HoldsPool program_id key before w
    pub held_after : HoldsPool program_id key after v
    pub step : Step before after
    pub none_pending : has_pending_orders before.header.status ≡ false
    pub gone : is_initialized after.header ≡ false

  -- The account holds the terms of `p` in every world of the run up to one of the run's own
  -- instructions, and that instruction empties the pool.
  unfoldable pub WasEmptied : {rt : Runtime} {w w' : World} → Run rt program_id w w' → Type 0
  WasEmptied (Run.done w) = ⊥
  WasEmptied (Run.instruction accounts instruction_data w v w' bytes e run) =
      HasTerms w × (IsEmptied w v ⊎ WasEmptied run)
  WasEmptied (Run.other w v w' keeps run) = HasTerms w × WasEmptied run

  Run-terms :
      (rt : Runtime) (w w' : World)
      → IsRuntime rt program_id
      → (run : Run rt program_id w w') → HasTerms w
      → HasTerms w' ⊎ WasEmptied run
  unfolding WasEmptied
  Run-terms rt w _ laws (Run.done _) h = inl h
  Run-terms rt w w' laws (Run.instruction accounts input _ v _ bytes e run) (q, held, same, there) =
      let (r, step, held') =
        process_instruction-Step rt program_id key accounts input q w v laws bytes held e in
      elim (Step-terms q r step there) [
        | inr (none_pending, gone) ↦ inr (
          (q, held, same, there),
          inl (record {
            before = q;
            after = r;
            held_before = held;
            held_after = held';
            step = step;
            none_pending = none_pending;
            gone = gone;
          }),
        )
        | inl (same', still) ↦
            elim (Run-terms rt v w' laws run (r, held', SameTerms-trans p q r same same', still)) [
              | inl end ↦ inl end
              | inr gone_before ↦ inr ((q, held, same, there), inr gone_before)
            ]
      ]
  Run-terms rt w w' laws (Run.other _ v _ keeps run) (q, held, same, there) =
      elim (Run-terms rt v w' laws run
        (q, HoldsPool-kept program_id key q w v held (keeps key held.held.owner), same, there)) [
          | inl end ↦ inl end
          | inr gone_before ↦ inr ((q, held, same, there), gone_before)
        ]

module _ (rt : Runtime) (program_id key : Pubkey) (p : Pool) (w w' : World) where
  -- Whatever is run, but for calls of this program by itself, an account that holds an initialized pool goes on to hold one of the same
  -- size, with the same serum program, seed, signal provider, number of markets, markets, fee
  -- ratio and fee period, unless an instruction of this run empties the pool, while no order is
  -- pending; in every world up to that instruction these are the same.
  pub Run-SameTerms :
      IsRuntime rt program_id
      → (run : Run rt program_id w w') → HoldsPool program_id key p w
      → is_initialized p.header ≡ true
      → (p' : Pool) × HoldsPool program_id key p' w'
        × (length p.rest ≡ length p'.rest)
        × ((SameTerms p p' × (is_initialized p'.header ≡ true)) ⊎ WasEmptied program_id key p run)
  Run-SameTerms laws run h there =
      let (p', steps, held) = Run-Steps rt program_id key p w w' laws run h in
      elim (Run-terms program_id key p rt w w' laws run (p, h, SameTerms-refl p, there)) [
        | inl (q, held', same, still) ↦ (q, held', same.markets.size, inl (same, still))
        | inr gone_before ↦ (p', held, Steps-size p p' steps, inr gone_before)
      ]

  -- Whatever is run, but for calls of this program by itself, an account whose pool is uninitialized or unlocked goes on to hold one that
  -- is uninitialized or unlocked: it is never locked, and never waits for an order.
  pub Run-IsFree :
      IsRuntime rt program_id
      → Run rt program_id w w'
      → HoldsPool program_id key p w
      → IsFree p.header.status
      → (p' : Pool) × HoldsPool program_id key p' w' × IsFree p'.header.status
  Run-IsFree laws run h free =
      let (p', steps, held) = Run-Steps rt program_id key p w w' laws run h in
      (p', held, Steps-IsFree p p' steps free)
