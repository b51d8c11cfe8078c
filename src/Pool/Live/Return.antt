-- ===== src/Pool/Live/Return.antt =====
-- Buying into a pool and leaving it: `Processor::process_deposit`, then `Processor::process_redeem`.
use bonfida_bot.Pool.Live.Access.{check_pool_key_lem}
use bonfida_bot.Pool.Live.Returning.{IsNoGain, Payable-bought, no_gain_lem}
use bonfida_bot.Pool.Live.Redeem.{process_redeem-IsRedeemed}
use bonfida_bot.Pool.Live.Deposit.{process_deposit-IsPurchased}
use bonfida_bot.Pool.Live.Claim.{IsClaim, IsRedeemed, redeem_list}
use bonfida_bot.Pool.Live.Purchase.{IsPurchase, IsPurchased, IsOutside, IsUnminted, deposit_list}
use bonfida_bot.Pool.Live.Mints.{IsMintOf}
use bonfida_bot.Pool.Moves.{HoldsPool}
use bonfida_bot.Pool.Step.{Pool}
use bonfida_bot.Processor.Redeem.Gates.{MayRedeem}
use bonfida_bot.Processor.Redeem.{RedeemAccounts, process_redeem, fees_are_due, has_pending_orders}
use bonfida_bot.Processor.Deposit.{DepositAccounts, pool_token_fee, process_deposit}
use bonfida_bot.Processor.Payments.{Each}
use bonfida_bot.Runtime.Tokens.{IsToken, IsMinting}
use bonfida_bot.Runtime.{Runtime, World, AccountInfo, AccountState, TokenAccount}
use bonfida_bot.Bytes.{Bytes}
use bonfida_bot.State.{Pubkey, PoolAsset}
use bonfida_bot.Prelude.{ℕ, ◌+◌, ◌-◌, ◌≤◌, ◌≡◌, sym, ap, ◌∙◌, List, ◌++◌, false, arith}
use bonfida_bot.Outcome.{ok}

-- The accounts of the redemption beside those of the deposit.
abbrev pub returning : DepositAccounts → AccountInfo → AccountInfo → RedeemAccounts
returning a owner clock = record {
  spl_token = a.spl_token;
  clock = clock;
  mint = a.mint;
  source_pool_token_owner = owner;
  source_pool_token = a.target_pool_token;
  pool = a.pool;
}

-- What the target holds after the deposit.
abbrev pub bought_tokens : DepositAccounts → Pool → TokenAccount → ℕ → TokenAccount
bought_tokens a p target amount = record target {
  amount = target.amount + (amount - pool_token_fee p.header.fee_ratio amount);
}

-- The clock that the redemption reads is no account that the deposit changes, and no fees are due.
pub record IsClock (rt : Runtime) (w : World) (a : DepositAccounts) (p : Pool)
    (tos froms : List AccountInfo) (clock : AccountInfo) : Type 0 where
  pub now : ℕ
  pub time : rt.unix_timestamp clock (w.ledger clock.key) ≡ ok now
  pub none_due : fees_are_due p.header now ≡ false
  pub clock_outside : IsOutside tos froms clock.key
  pub clock_unminted : IsUnminted a clock.key

module _ {rt : Runtime} {program_id : Pubkey} {Usable : AccountState → Type 0}
    {Authority : AccountState → Pubkey → Type 0} (w w1 : World) (a : DepositAccounts)
    (owner clock : AccountInfo) (p : Pool) (assets : List PoolAsset) (tos froms : List AccountInfo)
    (pool_seed : Bytes) (amount supply back : ℕ) (target provider fee bnb : TokenAccount)
    (h : IsPurchase rt program_id Usable w a owner p assets tos froms pool_seed amount supply target
      provider fee bnb)
    (after : IsPurchased rt program_id Usable Authority w w1 a p tos froms amount supply target
      provider fee bnb) where
  -- What was bought is a claim.
  IsClaim-purchased :
      target.owner ≡ owner.key
      → back ≤ amount
      → back ≤ (bought_tokens a p target amount).amount
      → IsClaim rt Usable w1
          (returning a owner clock)
          p
          assets
          tos
          froms
          back
          (bought_tokens a p target amount)
          (supply + amount)
  IsClaim-purchased mine part enough =
      let some_issued = h.some_issued in
      record {
        spl = h.spl;
        initialized = h.initialized;
        markets_fit = h.markets_fit;
        assets_are = h.assets_are;
        payable =
            Payable-bought rt Usable a.pool.key owner.key amount supply back w.ledger w1.ledger
              h.some_issued part assets tos froms h.buyable after.bought;
        source_account = record {
          unpacked = after.target_after;
          writable = h.to_target.payee.writable;
          usable = after.target_usable;
        };
        source_mint = h.to_target.payee_mint;
        source_owner = mine;
        enough = enough;
        issued = omega arith;
        some_issued = omega arith;
        pool_elsewhere = record {
          from_froms = h.pool_outside.from_tos;
          from_tos = h.pool_outside.from_froms;
          from_source = λ e. h.to_target.payee_from_pool (sym e);
          from_mint = h.pool_from_mint;
        };
        source_from_mint = h.to_target.payee_from_mint;
        source_from_froms = h.target_outside.from_tos;
        source_from_tos = h.target_outside.from_froms;
        mint_from_froms = h.mint_outside.from_tos;
        mint_from_tos = h.mint_outside.from_froms;
      }

  -- The checks of the redemption are met.
  return_checks :
      IsClock rt w a p tos froms clock
      → MayRedeem rt program_id w1 (returning a owner clock) p.header pool_seed
  unfolding MayRedeem has_pending_orders
  return_checks c = (
    check_pool_key_lem rt program_id a.pool.key pool_seed h.pool_key,
    h.mint_key,
    h.signer,
    after.pool_after.held.owner,
    ap has_pending_orders h.open_to_all,
    (
      c.now,
      ap (rt.unix_timestamp clock) (after.others clock.key c.clock_outside c.clock_unminted)
          ∙ c.time,
      c.none_due,
    ),
  )

module _ {rt : Runtime} {program_id : Pubkey} {Usable : AccountState → Type 0}
    {Authority : AccountState → Pubkey → Type 0} (token : IsToken rt program_id Usable)
    (minting : IsMinting rt program_id Usable Authority) where
  -- If the token program behaves as documented: whoever can buy `amount` pool tokens for a target
  -- account of their own can redeem at once, while no fees are due and the clock is none of the
  -- accounts that the deposit changes, any `back` tokens up to `amount` that the target then holds.
  -- The deposit succeeds, then the redemption does and pays its shares to the accounts that have
  -- paid, and none of these holds more of its asset than before the deposit.
  pub deposit-then-redeem :
      (w : World) (a : DepositAccounts) (owner clock : AccountInfo) (p : Pool)
      (assets : List PoolAsset) (tos froms rest rest' : List AccountInfo) (pool_seed : Bytes)
      (amount supply back : ℕ) (target provider fee bnb : TokenAccount)
      → HoldsPool program_id a.pool.key p w
      → IsMintOf rt Usable Authority w a.mint a.pool.key supply
      → IsPurchase rt program_id Usable w a owner p assets tos froms pool_seed amount supply target
          provider fee bnb
      → IsClock rt w a p tos froms clock
      → target.owner ≡ owner.key
      → back ≤ amount
      → back ≤ (bought_tokens a p target amount).amount
      → (w1 : World) × (w2 : World) × (process_deposit rt program_id
            (deposit_list a owner tos froms rest)
            pool_seed
            amount
            w
          ≡ ok (tt, w1))
        × (process_redeem rt program_id
              (redeem_list (returning a owner clock) (tos ++ (froms ++ rest')))
              pool_seed
              back
              w1
            ≡ ok (tt, w2))
        × IsRedeemed rt program_id w1 w2
            (returning a owner clock)
            p
            tos
            froms
            back
            (bought_tokens a p target amount)
            (supply + amount)
        × Each (IsNoGain rt w.ledger w2.ledger) tos froms
  deposit-then-redeem w a owner clock p assets tos froms rest rest' pool_seed amount supply back
        target provider fee bnb held mintable h c mine part enough =
      let (w1, bought, after) =
        process_deposit-IsPurchased token minting w a owner p assets tos froms pool_seed amount
          supply target provider fee bnb h held mintable rest in
      let (w2, redeemed, paid) =
        process_redeem-IsRedeemed token w1 (returning a owner clock) p assets tos froms pool_seed
          back (bought_tokens a p target amount) (supply + amount)
          (IsClaim-purchased w w1 a owner clock p assets tos froms pool_seed amount supply back
            target provider fee bnb h after mine part enough)
          (return_checks w w1 a owner clock p assets tos froms pool_seed amount supply back target
            provider fee bnb h after c)
          after.pool_after after.minted.mint_account rest' in
      (
        w1,
        w2,
        bought,
        redeemed,
        paid,
        no_gain_lem rt Usable a.pool.key owner.key amount supply back w.ledger w1.ledger
            h.some_issued part assets tos froms h.buyable after.bought w2.ledger paid.paid,
      )
