-- ===== src/Pool/Live/Exit.antt =====
-- Leaving a pool while fees are due: whoever holds pool tokens collects the fees and then redeems.
use bonfida_bot.Prelude.{
  ℕ, ◌+◌, ◌^◌, ◌<◌, ◌≤◌, ◌≡◌, ◌≢◌, ap, ◌∙◌, List, [], ◌∷◌, ◌++◌, true, false, All,
}
use bonfida_bot.Outcome.{ok}
use bonfida_bot.Bytes.{Bytes}
use bonfida_bot.State.{Pubkey, PoolAsset, is_initialized}
use bonfida_bot.Runtime.{Runtime, AccountInfo, AccountState, TokenAccount, World}
use bonfida_bot.Pool.Live.Claim.{IsClaim, IsRedeemed, redeem_list}
use bonfida_bot.Pool.Live.Collection.{IsCollection, IsCollected, collect_list}
use bonfida_bot.Runtime.Tokens.{IsToken, IsMinting}
use bonfida_bot.Processor.Fees.{collected_header}
use bonfida_bot.Processor.Fees.Clock.{fee_cycles-collected_header}
use bonfida_bot.Processor.CollectFees.{CollectAccounts, process_collect_fees}
use bonfida_bot.Processor.Redeem.{RedeemAccounts, process_redeem, has_pending_orders}
use bonfida_bot.Processor.Redeem.Gates.{MayRedeem}
use bonfida_bot.Processor.Payments.{SameAt, IsAccount-same}
use bonfida_bot.Processor.Redeem.Payouts.{Payable-same}
use bonfida_bot.Pool.Step.{Pool}
use bonfida_bot.Pool.Moves.{HoldsPool}
use bonfida_bot.Pool.Live.Mints.{IsMintOf}
use bonfida_bot.Pool.Live.Redeem.{process_redeem-IsRedeemed}
use bonfida_bot.Pool.Live.Collect.{process_collect_fees-IsCollected}

-- The redemption's accounts beside the collection's.
abbrev pub redeeming : CollectAccounts → AccountInfo → AccountInfo → RedeemAccounts
redeeming c owner source = record {
  spl_token = c.spl_token;
  clock = c.clock;
  mint = c.mint;
  source_pool_token_owner = owner;
  source_pool_token = source;
  pool = c.pool;
}

-- No account that a collection of fees changes has this key.
pub record IsUntouched (c : CollectAccounts) (k : Pubkey) : Type 0 where
  pub from_mint : k ≢ c.mint.key
  pub from_provider : k ≢ c.signal_provider_pt.key
  pub from_fee : k ≢ c.bonfida_fee_pt.key
  pub from_bnb : k ≢ c.bonfida_bnb_pt.key
  pub from_pool : k ≢ c.pool.key

-- The pool after the collection.
abbrev pub collected_pool : Pool → ℕ → Pool
collected_pool p cycles = record { header = collected_header p.header cycles; rest = p.rest }

module _ {rt : Runtime} {program_id : Pubkey} {Usable : AccountState → Type 0}
    {Authority : AccountState → Pubkey → Type 0} (w w1 : World) (c : CollectAccounts) (p : Pool)
    (cycles supply tokens : ℕ) (provider fee bnb : TokenAccount)
    (after : IsCollected rt program_id Usable Authority w w1 c p cycles supply tokens provider fee
      bnb) where
  untouched_lem : (k : Pubkey) → IsUntouched c k → w1.ledger k ≡ w.ledger k
  untouched_lem k u =
      after.others k u.from_mint
        (record { from_provider = u.from_provider; from_fee = u.from_fee; from_bnb = u.from_bnb })
        u.from_pool

  SameAt-IsUntouched :
      (infos : List AccountInfo)
      → All (λ info. IsUntouched c info.key) infos
      → SameAt w.ledger w1.ledger infos
  SameAt-IsUntouched [] u = tt
  SameAt-IsUntouched (info ∷ infos) (u, us) =
      (untouched_lem info.key u, SameAt-IsUntouched infos us)

  -- A claim is kept by the collection.
  IsClaim-collected :
      (owner source : AccountInfo) (assets : List PoolAsset) (froms tos : List AccountInfo)
      (amount : ℕ) (t : TokenAccount)
      → All (λ info. IsUntouched c info.key) froms
      → All (λ info. IsUntouched c info.key) tos
      → IsUntouched c source.key
      → IsClaim rt Usable w (redeeming c owner source) p assets froms tos amount t (supply + tokens)
      → IsClaim rt Usable w1
          (redeeming c owner source)
          (collected_pool p cycles)
          assets
          froms
          tos
          amount
          t
          (supply + tokens)
  unfolding collected_header is_initialized
  IsClaim-collected owner source assets froms tos amount t uf ut us h = record {
    spl = h.spl;
    initialized = h.initialized;
    markets_fit = h.markets_fit;
    assets_are = h.assets_are;
    payable =
        Payable-same rt w.ledger w1.ledger amount (supply + tokens) Usable c.pool.key assets froms
          tos h.payable (SameAt-IsUntouched froms uf) (SameAt-IsUntouched tos ut);
    source_account =
        IsAccount-same w.ledger w1.ledger rt Usable source t (untouched_lem source.key us)
          h.source_account;
    source_mint = h.source_mint;
    source_owner = h.source_owner;
    enough = h.enough;
    issued = h.issued;
    some_issued = h.some_issued;
    pool_elsewhere = h.pool_elsewhere;
    source_from_mint = h.source_from_mint;
    source_from_froms = h.source_from_froms;
    source_from_tos = h.source_from_tos;
    mint_from_froms = h.mint_from_froms;
    mint_from_tos = h.mint_from_tos;
  }

  -- No fees are due after the collection, so that the redemption's checks are met.
  checks_met :
      (owner source : AccountInfo) (pool_seed : Bytes) (now : ℕ)
      → IsCollection rt program_id Usable w c p pool_seed now cycles supply tokens provider fee bnb
      → owner.is_signer ≡ true
      → has_pending_orders p.header.status ≡ false
      → IsUntouched c c.clock.key
      → now < 2 ^ 64
      → p.header.last_fee_collection_timestamp ≤ now
      → MayRedeem rt program_id w1
          (redeeming c owner source)
          (collected_header p.header cycles)
          pool_seed
  unfolding MayRedeem collected_header
  checks_met owner source pool_seed now h signer free clock fits past =
      let (_, _, none_due) =
        fee_cycles-collected_header p.header now cycles fits past h.called.some_cycles in
      (
        h.called.pool_key,
        h.called.mint_key,
        signer,
        after.pool_after.held.owner,
        free,
        (
          now,
          ap (rt.unix_timestamp c.clock) (untouched_lem c.clock.key clock) ∙ h.called.time,
          none_due,
        ),
      )

module _ {rt : Runtime} {program_id : Pubkey} {Usable : AccountState → Type 0}
    {Authority : AccountState → Pubkey → Type 0} (token : IsToken rt program_id Usable)
    (minting : IsMinting rt program_id Usable Authority) where
  -- If the token program behaves as documented: while no order is pending, whoever owns pool tokens
  -- can leave the pool although fees are due, if the fee period and the feeless ratio of the cycles
  -- that have passed are not 0, the clock is a u64 and not behind the pool's, the accounts are the right ones
  -- and differ, and there is room for all that is minted or paid. The collection of the fees
  -- succeeds, and then, at the same time, the redemption does and pays the shares of the supply that
  -- the collection leaves.
  pub collect-then-redeem :
      (w : World) (c : CollectAccounts) (owner source : AccountInfo) (p : Pool)
      (assets : List PoolAsset) (froms tos rest : List AccountInfo) (pool_seed : Bytes)
      (amount now cycles supply tokens : ℕ) (t provider fee bnb : TokenAccount)
      → HoldsPool program_id c.pool.key p w
      → has_pending_orders p.header.status ≡ false
      → now < 2 ^ 64
      → p.header.last_fee_collection_timestamp ≤ now
      → IsMintOf rt Usable Authority w c.mint c.pool.key supply
      → IsCollection rt program_id Usable w c p pool_seed now cycles supply tokens provider fee bnb
      → IsClaim rt Usable w (redeeming c owner source) p assets froms tos amount t (supply + tokens)
      → owner.is_signer ≡ true
      → IsUntouched c c.clock.key
      → IsUntouched c source.key
      → All (λ info. IsUntouched c info.key) froms
      → All (λ info. IsUntouched c info.key) tos
      → (w1 : World) × (w2 : World) × (process_collect_fees rt program_id
            (collect_list c)
            pool_seed
            w
          ≡ ok (tt, w1))
        × IsCollected rt program_id Usable Authority w w1 c p cycles supply tokens provider fee bnb
        × (process_redeem rt program_id
              (redeem_list (redeeming c owner source) (froms ++ (tos ++ rest)))
              pool_seed
              amount
              w1
            ≡ ok (tt, w2))
        × IsRedeemed rt program_id w1 w2
            (redeeming c owner source)
            (collected_pool p cycles)
            froms
            tos
            amount
            t
            (supply + tokens)
  collect-then-redeem w c owner source p assets froms tos rest pool_seed amount now cycles supply
        tokens t provider fee bnb held free fits past mintable h claim signer clock us uf ut =
      let (w1, paid_in, after) =
        process_collect_fees-IsCollected minting w c p pool_seed now cycles supply tokens provider
          fee bnb h held mintable in
      let (w2, redeemed, paid) =
        process_redeem-IsRedeemed token w1 (redeeming c owner source) (collected_pool p cycles)
          assets froms tos pool_seed amount t (supply + tokens)
          (IsClaim-collected w w1 c p cycles supply tokens provider fee bnb after owner source
            assets froms tos amount t uf ut us claim)
          (checks_met w w1 c p cycles supply tokens provider fee bnb after owner source pool_seed
            now h signer free clock fits past)
          after.pool_after after.minted.mint_account rest in
      (w1, w2, paid_in, after, redeemed, paid)
