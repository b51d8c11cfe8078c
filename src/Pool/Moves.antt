-- ===== src/Pool/Moves.antt =====
-- The handlers' runs that succeed, as steps of the abstract pool.
use bonfida_bot.Prelude.{◌≡◌}
use bonfida_bot.Outcome.{ok}
use bonfida_bot.State.{Pubkey}
use bonfida_bot.State.Layout.{IsSized}
use bonfida_bot.Runtime.{World, Action}
use bonfida_bot.Pool.Frame.{Holds, Keeps}
use bonfida_bot.Pool.Step.{Pool, pool_bytes, Step}

-- The account holds the pool, whose header has its sizes.
pub record HoldsPool (program_id key : Pubkey) (p : Pool) (w : World) : Type 0 where
  pub sized : IsSized p.header
  pub held : Holds program_id key (pool_bytes p) w

-- The account holds a pool that one step leads to.
abbrev pub Moves : Pubkey → Pubkey → Pool → World → Type 0
Moves program_id key p w' = (p' : Pool) × Step p p' × HoldsPool program_id key p' w'

-- Whichever pool the account holds, a run that succeeds makes one step of it.
pub record Refines (program_id key : Pubkey) {A : Type 0} (m : Action A) : Type 0 where
  pub at :
      (p : Pool) (w w' : World) (a : A)
      → HoldsPool program_id key p w
      → m w ≡ ok (a, w')
      → Moves program_id key p w'

module _ {program_id key : Pubkey} where
  pub Holds-Moves :
      (p : Pool) (w : World)
      → IsSized p.header
      → Holds program_id key (pool_bytes p) w
      → Moves program_id key p w
  Holds-Moves p w v h = (p, Step.kept p, record { sized = v; held = h })

  pub Keeps-Refines :
      {A : Type 0} (m : Action A) → Keeps program_id key m → Refines program_id key m
  Keeps-Refines m keeps = record {
    at = λ p w w' a h e. Holds-Moves p w' h.sized (keeps.at (pool_bytes p) w w' a h.held e);
  }
