-- ===== src/Pool/Live/Collect.antt =====
-- `Processor::process_collect_fees` succeeds, and mints the fees.
use bonfida_bot.Prelude.{ℕ, ◌+◌, ◌≡◌, ◌≢◌, refl, arith, ◌==◌, sym, ◌∙◌, ap}
use bonfida_bot.Outcome.{incorrect_program_id, ok, invalid_argument}
use bonfida_bot.Bytes.{Bytes}
use bonfida_bot.State.{Pubkey}
use bonfida_bot.Utils.{check_pool_key}
use bonfida_bot.Runtime.{Runtime, AccountState, TokenAccount, World}
use bonfida_bot.Runtime.Progress.{step_lift, step, step_same, step_check}
use bonfida_bot.Pool.Live.Collection.{collect_payees, collect_list, IsCollection, IsCollected}
use bonfida_bot.Runtime.Tokens.{IsMinting}
use bonfida_bot.Processor.Common.{
  mint_key_of, fee_address, bonfida_fee, bonfida_bnb, mint_supply, read_header,
  locked_operation_error,
}
use bonfida_bot.Processor.Fees.{fee_cycles, feeless_ratio, tokens_to_mint, collected_header}
use bonfida_bot.Processor.CollectFees.{
  CollectAccounts, collect_checks, collect_due, collect_accounts, collect_pay, process_collect_fees,
}
use bonfida_bot.Processor.Fees.Minting.{tokens_to_mint-eq-ok}
use bonfida_bot.Pool.Step.{Pool}
use bonfida_bot.Pool.Moves.{HoldsPool}
use bonfida_bot.Pool.Live.Access.{
  read_header_held, mint_supply_lem, write_header_held, HoldsPool-same, check_pool_key-eq-ok,
}
use bonfida_bot.Pool.Refine.Collect.{collected_header-IsSized}
use bonfida_bot.Pool.Live.Shares.{ArePaid, ArePaid-same, IsNoPayee, shares_live}
use bonfida_bot.Pool.Live.Mints.{IsMintOf-same, IsMintOf}

collect_accounts_lem :
    (rt : Runtime) (program_id : Pubkey) (a : CollectAccounts) (w : World)
    → a.spl_token.key ≡ rt.spl_token_id
    → collect_accounts rt program_id (collect_list a) w ≡ ok (a, w)
unfolding collect_accounts
collect_accounts_lem rt program_id a w e =
    step_same a.spl_token.key rt.spl_token_id incorrect_program_id _ w e refl

module _ {rt : Runtime} {program_id : Pubkey} {Usable : AccountState → Type 0}
    {Authority : AccountState → Pubkey → Type 0}
    (minting : IsMinting rt program_id Usable Authority) (w : World) (a : CollectAccounts)
    (p : Pool) (pool_seed : Bytes) (now cycles supply tokens : ℕ) (provider fee bnb : TokenAccount)
    (h : IsCollection rt program_id Usable w a p pool_seed now cycles supply tokens provider fee
      bnb)
    (held : HoldsPool program_id a.pool.key p w)
    (mintable : IsMintOf rt Usable Authority w a.mint a.pool.key supply) where
  checks_live : collect_checks rt program_id a pool_seed w ≡ ok ((a.mint.key, p.header), w)
  unfolding collect_checks
  checks_live =
      step_lift (check_pool_key rt program_id a.pool.key pool_seed) _ w h.called.pool_key (
        step_lift (mint_key_of rt pool_seed program_id) _ w h.called.mint_key (
          step_same a.mint.key a.mint.key invalid_argument _ w refl (
            step (read_header a.pool) _ w (read_header_held a.pool p w held h.called.initialized) (
              step_lift (fee_address rt bonfida_fee a.mint.key) _ w h.called.fee_key (
                step_lift (fee_address rt bonfida_bnb a.mint.key) _ w h.called.bnb_key (
                  step_same a.signal_provider_pt.key
                    (rt.get_associated_token_address p.header.signal_provider a.mint.key)
                    invalid_argument _ w h.called.provider_key
                    (step_same a.bonfida_fee_pt.key a.bonfida_fee_pt.key invalid_argument _ w refl (
                      step_same a.bonfida_bnb_pt.key a.bonfida_bnb_pt.key invalid_argument _ w refl
                        refl))))))))

  due_live : collect_due rt program_id a p.header w ≡ ok ((cycles, tokens), w)
  unfolding collect_due
  due_live = step_lift (rt.unix_timestamp a.clock (w.ledger a.clock.key)) _ w h.called.time (
      step_lift (fee_cycles p.header now) _ w h.called.some_cycles (
        step_check (cycles == 0) locked_operation_error _ w
          (let some_cycle = h.called.positive in ground arith)
          (step (mint_supply rt a.mint) _ w
            (mint_supply_lem rt a.mint w supply mintable.mint_account.unpacked)
            (step_lift (tokens_to_mint (feeless_ratio p.header.fee_ratio cycles) supply) _ w
              (tokens_to_mint-eq-ok (feeless_ratio p.header.fee_ratio cycles) supply h.some_left
                ∙ ap ok (sym h.tokens_are))
              refl))))

  pay_live :
      (w' : World) × (collect_pay rt program_id a pool_seed a.mint.key tokens w ≡ ok (tt, w'))
      × IsMintOf rt Usable Authority w' a.mint a.pool.key (supply + tokens)
      × ArePaid rt w'.ledger (collect_payees a provider fee bnb) tokens
      × ((k : Pubkey)
          → k ≢ a.mint.key
          → IsNoPayee (collect_payees a provider fee bnb) k
          → w'.ledger k ≡ w.ledger k)
  unfolding collect_pay
  pay_live =
      shares_live minting a.spl_token a.mint a.pool pool_seed h.called.spl
        (check_pool_key-eq-ok rt program_id a.pool.key pool_seed h.called.pool_key)
        (collect_payees a provider fee bnb) tokens supply w w h.payees refl refl refl mintable
        h.room

  -- If the token program behaves as documented: a collection of fees for at least one cycle that has
  -- passed, of a fee period that is not 0, succeeds if the feeless ratio of the cycles is not 0 and
  -- the accounts are the right ones, differ, and have room for the tokens. The tokens, cut off to a
  -- u64, are minted for the fee accounts by their shares, the pool's clock is set, and no other
  -- account changes.
  pub process_collect_fees-IsCollected :
      (w' : World) × (process_collect_fees rt program_id (collect_list a) pool_seed w ≡ ok (tt, w'))
      × IsCollected rt program_id Usable Authority w w' a p cycles supply tokens provider fee bnb
  unfolding process_collect_fees
  process_collect_fees-IsCollected =
      let (w1, run, m1, paid, others) = pay_live in
      let new = collected_header p.header cycles in
      let x = h.payees in
      let held1 =
        HoldsPool-same program_id a.pool.key p w w1
          (others a.pool.key h.pool_from_mint (record {
            from_provider = λ e. x.to_provider.payee_from_pool (sym e);
            from_fee = λ e. x.to_fee.payee_from_pool (sym e);
            from_bnb = λ e. x.to_bnb.payee_from_pool (sym e);
          }))
          held in
      let (w2, written, held2, rest) =
        write_header_held a.pool p w1 held1 new
          (collected_header-IsSized p.header cycles held.sized) in
      let mint_kept = rest a.mint.key (λ e. h.pool_from_mint (sym e)) in
      (
        w2,
        step (collect_accounts rt program_id (collect_list a)) _ w
            (collect_accounts_lem rt program_id a w h.called.spl)
            (step (collect_checks rt program_id a pool_seed) _ w checks_live (
              step (collect_due rt program_id a p.header) _ w due_live
                (step (collect_pay rt program_id a pool_seed a.mint.key tokens) _ w run written))),
        record {
          minted =
              IsMintOf-same rt Usable Authority w1 w2 a.mint a.pool.key (supply + tokens) mint_kept
                m1;
          paid =
              ArePaid-same rt w1.ledger w2.ledger (collect_payees a provider fee bnb) tokens
                (rest a.signal_provider_pt.key x.to_provider.payee_from_pool)
                (rest a.bonfida_fee_pt.key x.to_fee.payee_from_pool)
                (rest a.bonfida_bnb_pt.key x.to_bnb.payee_from_pool) paid;
          pool_after = held2;
          others = λ k km y other. rest k other ∙ others k km y;
        },
      )
