-- ===== src/Pool/Step.antt =====
-- The pool as an abstract machine: the states that an account of the program can hold, and the
-- changes that one instruction can make to them.
use bonfida_bot.Prelude.{ℕ, ◌*◌, ◌≡◌, ◌⊎◌, true, false, length, take, replicate}
use bonfida_bot.Outcome.{ok}
use bonfida_bot.Bytes.{Bytes}
use bonfida_bot.State.{PoolHeader, PoolStatus, uninitialized, unlocked, is_initialized}
use bonfida_bot.State.Layout.{header_bytes}
use bonfida_bot.Processor.Settle.{settle_status}
use bonfida_bot.Processor.Redeem.{has_pending_orders}

-- The header, and the markets and assets behind it.
pub record Pool : Type 0 where
  pub header : PoolHeader
  pub rest : Bytes

-- The account's data.
abbrev pub pool_bytes : Pool → Bytes
pool_bytes p = header_bytes p.header p.rest

-- Two buffers of one length with the same first `n` bytes.
pub record SameFront (n : ℕ) (xs ys : Bytes) : Type 0 where
  pub size : length xs ≡ length ys
  pub front : take n xs ≡ take n ys

-- What an instruction can do to a pool.
pub data Step : Pool → Pool → Type 0 where
  -- Nothing, as most instructions do.
  kept : (p : Pool) → Step p p
  -- A pool is created in an account that holds none.
  created :
      (p : Pool) (h : PoolHeader) (rest : Bytes)
      → is_initialized p.header ≡ false
      → h.status ≡ unlocked
      → length p.rest ≡ length rest
      → Step p (record { header = h; rest = rest })
  -- An order is settled, entirely or not: assets are written behind the markets.
  settled :
      (h : PoolHeader) (after : PoolStatus) (rest rest' : Bytes)
      → is_initialized h ≡ true
      → (after ≡ h.status) ⊎ (settle_status h.status ≡ ok after)
      → SameFront (32 * h.number_of_markets) rest rest'
      → Step
          (record { header = h; rest = rest })
          (record { header = record h { status = after }; rest = rest' })
  -- Fees are collected: the clock is set.
  collected :
      (h : PoolHeader) (clock : ℕ) (rest : Bytes)
      → is_initialized h ≡ true
      → Step
          (record { header = h; rest = rest })
          (record { header = record h { last_fee_collection_timestamp = clock }; rest = rest })
  -- All pool tokens are redeemed while no order is pending.
  emptied :
      (h : PoolHeader) (rest : Bytes)
      → is_initialized h ≡ true
      → has_pending_orders h.status ≡ false
      → Step
          (record { header = h; rest = rest })
          (record {
            header = record h { status = uninitialized };
            rest = replicate (length rest) 0;
          })

-- Any number of steps.
pub data Steps : Pool → Pool → Type 0 where
  done : (p : Pool) → Steps p p
  step_then : (p q r : Pool) → Step p q → Steps q r → Steps p r
