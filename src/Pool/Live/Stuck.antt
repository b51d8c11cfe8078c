-- ===== src/Pool/Live/Stuck.antt =====
-- A pool whose fees are due and cannot be collected: `Processor::process_collect_fees` divides by
-- the feeless ratio, and `Processor::process_redeem` refuses while fees are due.
use bonfida_bot.Pool.Front.{ok-inj}
use bonfida_bot.Pool.Writes.{read_header-Holds}
use bonfida_bot.Pool.Moves.{HoldsPool}
use bonfida_bot.Pool.Step.{Pool}
use bonfida_bot.Processor.Fees.Minting.{tokens_to_mint-eq-panicked}
use bonfida_bot.Processor.Fees.{fee_cycles, feeless_ratio}
use bonfida_bot.Processor.Redeem.Gates.{MayRedeem, HasPassed, process_redeem-eq-ok}
use bonfida_bot.Processor.Redeem.{RedeemAccounts, redeem_accounts, process_redeem, fees_are_due}
use bonfida_bot.Processor.CollectFees.Payment.{HasCollected, process_collect_fees-eq-ok}
use bonfida_bot.Processor.CollectFees.{CollectAccounts, collect_accounts, process_collect_fees}
use bonfida_bot.Processor.Common.{read_header}
use bonfida_bot.Runtime.{Runtime, World, AccountInfo, lift-eq-ok}
use bonfida_bot.Bytes.{Bytes}
use bonfida_bot.State.{Pubkey}
use bonfida_bot.Prelude.{ℕ, ◌≡◌, ◌≢◌, sym, ap, ◌∙◌, subst, List, true}
use bonfida_bot.Outcome.{ok}

-- Whichever account the runtime takes for the clock tells this time.
abbrev pub TellsTime : Runtime → World → ℕ → Type 0
TellsTime rt w now =
    (clock : AccountInfo) (t : ℕ) → rt.unix_timestamp clock (w.ledger clock.key) ≡ ok t → t ≡ now

-- Fees of the pool are due, and their feeless ratio is 0.
pub record IsStuck (p : Pool) (now : ℕ) : Type 0 where
  pub cycles : ℕ
  pub due : fees_are_due p.header now ≡ true
  pub some_cycles : fee_cycles p.header now ≡ ok cycles
  pub nothing_left : feeless_ratio p.header.fee_ratio cycles ≡ 0

module _ (rt : Runtime) (program_id : Pubkey) (w : World) (p : Pool) (now : ℕ)
    (time : TellsTime rt w now) (stuck : IsStuck p now) where
  not_collected :
      (accounts : List AccountInfo) (c : CollectAccounts) (pool_seed : Bytes) (w' : World)
      → HoldsPool program_id c.pool.key p w
      → collect_accounts rt program_id accounts w ≡ ok (c, w)
      → process_collect_fees rt program_id accounts pool_seed w ≢ ok (tt, w')
  unfolding HasCollected
  not_collected accounts c pool_seed w' h given e =
      let (
        a, header, t, cycles, supply, tokens, _, _, _, given', read, _, told, found, _, _, minted,
        _, _,
      ) =
        process_collect_fees-eq-ok rt program_id accounts pool_seed w w' e in
      let account_is : a ≡ c = cc in
      let read' : read_header c.pool w ≡ ok (header, w) =
        subst (λ x. read_header x.pool w ≡ ok (header, w)) account_is read in
      let (header_is, _) =
        read_header-Holds c.pool p.header header p.rest w w h.held h.sized read' in
      let now_is : t ≡ now =
        time a.clock t (lift-eq-ok (rt.unix_timestamp a.clock (w.ledger a.clock.key)) w told).0 in
      let found' = stuck.some_cycles in
      let cycles_are : cycles ≡ stuck.cycles = ok-inj (
        sym found
        ∙ (ap (λ h. fee_cycles h t) header_is ∙ ap (fee_cycles p.header) now_is)
        ∙ found') in
      let none : feeless_ratio header.fee_ratio cycles ≡ 0 =
        ap (λ h. feeless_ratio h.fee_ratio cycles) header_is
        ∙ ap (feeless_ratio p.header.fee_ratio) cycles_are
        ∙ stuck.nothing_left in
      let lost =
        (tokens_to_mint-eq-panicked (feeless_ratio header.fee_ratio cycles) supply).1 none in
      cc

  not_redeemed :
      (accounts rest : List AccountInfo) (r : RedeemAccounts) (pool_seed : Bytes) (amount : ℕ)
      (w' : World)
      → HoldsPool program_id r.pool.key p w
      → redeem_accounts rt program_id accounts w ≡ ok ((r, rest), w)
      → process_redeem rt program_id accounts pool_seed amount w ≢ ok (tt, w')
  unfolding HasPassed MayRedeem
  not_redeemed accounts rest r pool_seed amount w' h given e =
      let (a, rest', header, source, given', read, checks, _, _) =
        process_redeem-eq-ok rt program_id accounts pool_seed amount w w' e in
      let (_, _, _, _, _, (t, told, not_due)) = checks in
      let account_is : a ≡ r = cc in
      let read' : read_header r.pool w ≡ ok (header, w) =
        subst (λ x. read_header x.pool w ≡ ok (header, w)) account_is read in
      let (header_is, _) =
        read_header-Holds r.pool p.header header p.rest w w h.held h.sized read' in
      let now_is : t ≡ now = time a.clock t told in
      let due' : fees_are_due header t ≡ fees_are_due p.header now =
        ap (λ h. fees_are_due h t) header_is ∙ ap (fees_are_due p.header) now_is in
      let due = stuck.due in cc

-- While fees of a pool are due whose feeless ratio is 0, as with a fee ratio of 0xFFFF,
-- and if all accounts that the runtime takes for the clock tell one time, neither a collection of
-- the fees nor a redemption of any number of pool tokens succeeds for this pool, with any accounts.
pub collect-and-redeem_stuck :
    (rt : Runtime) (program_id key : Pubkey) (w w' w'' : World) (p : Pool) (now : ℕ)
    (collect_infos redeem_infos rest : List AccountInfo) (c : CollectAccounts) (r : RedeemAccounts)
    (pool_seed : Bytes) (amount : ℕ)
    → HoldsPool program_id key p w
    → TellsTime rt w now
    → IsStuck p now
    → collect_accounts rt program_id collect_infos w ≡ ok (c, w)
    → c.pool.key ≡ key
    → redeem_accounts rt program_id redeem_infos w ≡ ok ((r, rest), w)
    → r.pool.key ≡ key
    → (process_collect_fees rt program_id collect_infos pool_seed w ≢ ok (tt, w'))
      × (process_redeem rt program_id redeem_infos pool_seed amount w ≢ ok (tt, w''))
collect-and-redeem_stuck rt program_id key w w' w'' p now collect_infos redeem_infos rest c r
      pool_seed amount held time stuck given_c c_is given_r r_is =
    (
      not_collected rt program_id w p now time stuck collect_infos c pool_seed w'
          (subst (λ k. HoldsPool program_id k p w) (sym c_is) held) given_c,
      not_redeemed rt program_id w p now time stuck redeem_infos rest r pool_seed amount w''
          (subst (λ k. HoldsPool program_id k p w) (sym r_is) held) given_r,
    )
