-- ===== src/Pool/Live/Collection.antt =====
-- What a fee collection (`Processor::process_collect_fees`) needs on the ledger to succeed, and what
-- it leaves.
use bonfida_bot.Prelude.{ℕ, ◌+◌, ◌*◌, ◌/◌, ◌%◌, ◌^◌, ◌<◌, ◌≤◌, ◌≡◌, ◌≢◌, true, List, [], ◌∷◌}
use bonfida_bot.Outcome.{ok}
use bonfida_bot.Bytes.{Bytes}
use bonfida_bot.State.{Pubkey, is_initialized}
use bonfida_bot.Utils.{check_pool_key}
use bonfida_bot.Runtime.{Runtime, AccountInfo, AccountState, TokenAccount, World}
use bonfida_bot.Processor.Common.{mint_key_of, fee_address, bonfida_fee, bonfida_bnb}
use bonfida_bot.Processor.Fees.{fee_cycles, feeless_ratio, not_u16, collected_header}
use bonfida_bot.Processor.CollectFees.{CollectAccounts}
use bonfida_bot.Pool.Step.{Pool}
use bonfida_bot.Pool.Moves.{HoldsPool}
use bonfida_bot.Pool.Live.Mints.{IsMintOf}
use bonfida_bot.Pool.Live.Shares.{Payees, ArePayees, ArePaid, IsNoPayee}

-- The accounts as they are passed.
abbrev pub collect_list : CollectAccounts → List AccountInfo
collect_list a =
    a.spl_token ∷ a.clock ∷ a.pool ∷ a.mint ∷ a.signal_provider_pt ∷ a.bonfida_fee_pt
    ∷ a.bonfida_bnb_pt ∷ []

-- The fee accounts, and what they hold before.
abbrev pub collect_payees : CollectAccounts → TokenAccount → TokenAccount → TokenAccount → Payees
collect_payees a provider fee bnb = record {
  provider = a.signal_provider_pt;
  fee = a.bonfida_fee_pt;
  bnb = a.bonfida_bnb_pt;
  provider_before = provider;
  fee_before = fee;
  bnb_before = bnb;
}

-- The accounts are those of the pool `p`, and at the time `now`, `cycles` of its fee cycles have
-- passed.
pub record IsDue (rt : Runtime) (program_id : Pubkey) (w : World) (a : CollectAccounts) (p : Pool)
    (pool_seed : Bytes) (now cycles : ℕ) : Type 0 where
  pub spl : a.spl_token.key ≡ rt.spl_token_id
  pub pool_key : check_pool_key rt program_id a.pool.key pool_seed ≡ ok tt
  pub mint_key : mint_key_of rt pool_seed program_id ≡ ok a.mint.key
  pub initialized : is_initialized p.header ≡ true
  pub provider_key :
      a.signal_provider_pt.key ≡ rt.get_associated_token_address p.header.signal_provider a.mint.key
  pub fee_key : fee_address rt bonfida_fee a.mint.key ≡ ok a.bonfida_fee_pt.key
  pub bnb_key : fee_address rt bonfida_bnb a.mint.key ≡ ok a.bonfida_bnb_pt.key
  pub time : rt.unix_timestamp a.clock (w.ledger a.clock.key) ≡ ok now
  pub some_cycles : fee_cycles p.header now ≡ ok cycles
  pub positive : 1 ≤ cycles

-- The feeless ratio of these cycles is not 0, `tokens` are minted for them, cut off to a u64, and
-- there is room for these.
pub record IsCollection (rt : Runtime) (program_id : Pubkey) (Usable : AccountState → Type 0)
    (w : World) (a : CollectAccounts) (p : Pool) (pool_seed : Bytes) (now cycles supply tokens : ℕ)
    (provider fee bnb : TokenAccount) : Type 0 where
  pub called : IsDue rt program_id w a p pool_seed now cycles
  pub some_left : 0 < feeless_ratio p.header.fee_ratio cycles
  pub tokens_are :
      tokens
      ≡ not_u16 (feeless_ratio p.header.fee_ratio cycles)
        * supply
        / feeless_ratio p.header.fee_ratio cycles
        % 2 ^ 64
  pub room : supply + tokens < 2 ^ 64
  pub payees : ArePayees rt Usable w.ledger a.mint a.pool (collect_payees a provider fee bnb) tokens
  pub pool_from_mint : a.pool.key ≢ a.mint.key

-- The tokens are minted, half of them for the signal provider, the pool's clock is set, and no
-- other account has changed.
pub record IsCollected (rt : Runtime) (program_id : Pubkey) (Usable : AccountState → Type 0)
    (Authority : AccountState → Pubkey → Type 0) (w w' : World) (a : CollectAccounts) (p : Pool)
    (cycles supply tokens : ℕ) (provider fee bnb : TokenAccount) : Type 0 where
  pub minted : IsMintOf rt Usable Authority w' a.mint a.pool.key (supply + tokens)
  pub paid : ArePaid rt w'.ledger (collect_payees a provider fee bnb) tokens
  pub pool_after :
      HoldsPool program_id a.pool.key
        (record { header = collected_header p.header cycles; rest = p.rest })
        w'
  pub others :
      (k : Pubkey)
      → k ≢ a.mint.key
      → IsNoPayee (collect_payees a provider fee bnb) k
      → k ≢ a.pool.key
      → w'.ledger k ≡ w.ledger k
