-- ===== src/Pool/Live/Redeem.antt =====
-- `Processor::process_redeem` succeeds, and pays.
use bonfida_bot.Prelude.{
  ℕ, ◌*◌, ◌-◌, ◌≡◌, refl, true, List, [], ◌++◌, arith, length, drop, if◌then◌else◌, ◌==◌, ltb, sym,
  subst, ap, ◌∙◌, Bool, false,
}
use bonfida_bot.Outcome.{incorrect_program_id, ok, insufficient_funds}
use bonfida_bot.Bytes.{Bytes}
use bonfida_bot.State.{Pubkey, PoolAsset}
use bonfida_bot.Assets.{unpack_assets}
use bonfida_bot.Runtime.{◌>>◌, pure, Runtime, AccountInfo, AccountState, TokenAccount, World}
use bonfida_bot.Runtime.Progress.{step_same, step_lift, step, step_check, invoke_signed_lem}
use bonfida_bot.Processor.Redeem.Paying.{buy_out-pays}
use bonfida_bot.Processor.Payments.{Apart, Others-SameAt, IsAccount-same, length-Separate}
use bonfida_bot.Processor.Redeem.Payouts.{PaidOut, PaidOut-after, IsPayable}
use bonfida_bot.Pool.Live.Access.{
  emptied_pool, read_header_held, asset_bytes_held, reset_pool_held, HoldsPool-same,
  mint_supply_lem, check_pool_key-eq-ok, next_accounts_lem,
}
use bonfida_bot.Pool.Live.Claim.{redeem_list, IsClaim, IsRedeemed}
use bonfida_bot.Runtime.Tokens.{IsMint, Holding, Supply, IsToken, Signs, Others}
use bonfida_bot.Processor.Common.{mint_supply, read_header, asset_bytes, next_accounts}
use bonfida_bot.Processor.Redeem.{
  reset_pool, redeem_checks, RedeemAccounts, burn_tokens, redeem_accounts, buy_out, process_redeem,
}
use bonfida_bot.Processor.Redeem.Gates.{
  MayRedeem, redeem_checks-MayRedeem, check_pool_key-MayRedeem,
}
use bonfida_bot.Pool.Step.{Pool}
use bonfida_bot.Pool.Moves.{HoldsPool}

redeem_accounts_lem :
    (rt : Runtime) (program_id : Pubkey) (a : RedeemAccounts) (rest : List AccountInfo) (w : World)
    → a.spl_token.key ≡ rt.spl_token_id
    → redeem_accounts rt program_id (redeem_list a rest) w ≡ ok ((a, rest), w)
unfolding redeem_accounts
redeem_accounts_lem rt program_id a rest w e =
    step_same a.spl_token.key rt.spl_token_id incorrect_program_id _ w e refl

module _ {rt : Runtime} {program_id : Pubkey} {Usable : AccountState → Type 0}
    (token : IsToken rt program_id Usable) (w : World) (a : RedeemAccounts) (p : Pool)
    (assets : List PoolAsset) (froms tos : List AccountInfo) (pool_seed : Bytes) (amount : ℕ)
    (source : TokenAccount) (supply : ℕ)
    (h : IsClaim rt Usable w a p assets froms tos amount source supply)
    (checks : MayRedeem rt program_id w a p.header pool_seed)
    (pool_held : HoldsPool program_id a.pool.key p w)
    (minted : IsMint rt Usable w.ledger a.mint (record { supply = supply })) where
  burn_live :
      (w1 : World)
      → w1.ledger a.source_pool_token.key ≡ w.ledger a.source_pool_token.key
      → w1.ledger a.mint.key ≡ w.ledger a.mint.key
      → (w2 : World) × (burn_tokens rt program_id a amount w1 ≡ ok (tt, w2))
        × Holding rt w2.ledger a.source_pool_token.key source (source.amount - amount)
        × Supply rt w2.ledger a.mint.key (supply - amount)
        × Others w1.ledger w2.ledger a.source_pool_token.key a.mint.key
  unfolding burn_tokens MayRedeem
  burn_live w1 same_source same_mint =
      let mint : IsMint rt Usable w1.ledger a.mint (record { supply = supply }) = record {
        unpacked = ap (λ s. rt.unpack_mint s.bytes) same_mint ∙ minted.unpacked;
        writable = minted.writable;
        usable = subst Usable (sym same_mint) minted.usable;
      } in
      let (i, ledger', built, runs, less, fewer, others) =
        token.burns a.spl_token a.source_pool_token a.mint a.source_pool_token_owner [] amount
          w1.ledger source (record { supply = supply }) h.spl
          (IsAccount-same w.ledger w1.ledger rt Usable a.source_pool_token source same_source
            h.source_account)
          mint h.source_from_mint h.source_mint h.source_owner (Signs.itself [] checks.2) h.enough
          h.issued in
      (
        _,
        step_lift
            (rt.burn a.spl_token.key a.source_pool_token.key a.mint.key
              a.source_pool_token_owner.key [] amount)
            _ w1 built (invoke_signed_lem rt i _ _ w1 ledger' runs),
        less,
        fewer,
        others,
      )

  reset_live :
      (all : Bool) (w2 : World)
      → HoldsPool program_id a.pool.key p w2
      → (w' : World) × ((if all then reset_pool a.pool p.header else pure tt) w2 ≡ ok (tt, w'))
        × HoldsPool program_id a.pool.key (if all then emptied_pool p else p) w'
        × Others w2.ledger w'.ledger a.pool.key a.pool.key
  reset_live true w2 held =
      let (w', run, held', others) = reset_pool_held a.pool p w2 held in
      (w', run, held', λ k other _. others k other)
  reset_live false w2 held = (w2, refl, held, λ k _ _. refl)

  -- The end of the redemption, after the payments.
  finish :
      (w1 : World)
      → PaidOut rt amount supply w.ledger w1.ledger froms tos
      → ((k : Pubkey) → Apart k froms → Apart k tos → w1.ledger k ≡ w.ledger k)
      → (w' : World) × ((burn_tokens rt program_id a amount
              >> (if amount == supply then reset_pool a.pool p.header else pure tt))
            w1
          ≡ ok (tt, w'))
        × IsRedeemed rt program_id w w' a p froms tos amount source supply
  finish w1 paid elsewhere =
      let source_key = a.source_pool_token.key in
      let mint_key = a.mint.key in
      let away = h.pool_elsewhere in
      let (w2, burnt, less, fewer, others) =
        burn_live w1 (elsewhere source_key h.source_from_froms h.source_from_tos)
          (elsewhere mint_key h.mint_from_froms h.mint_from_tos) in
      let held =
        HoldsPool-same program_id a.pool.key p w w2
          (others a.pool.key away.from_source away.from_mint
            ∙ elsewhere a.pool.key away.from_froms away.from_tos)
          pool_held in
      let (w', reset, held', others') = reset_live (amount == supply) w2 held in
      (
        w',
        step (burn_tokens rt program_id a amount) _ w1 burnt reset,
        record {
          paid =
              PaidOut-after rt w2.ledger w'.ledger amount supply w.ledger froms tos
                (PaidOut-after rt w1.ledger w2.ledger amount supply w.ledger froms tos paid
                  (Others-SameAt w1.ledger w2.ledger source_key mint_key froms others
                    h.source_from_froms h.mint_from_froms)
                  (Others-SameAt w1.ledger w2.ledger source_key mint_key tos others
                    h.source_from_tos h.mint_from_tos))
                (Others-SameAt w2.ledger w'.ledger a.pool.key a.pool.key froms others'
                  away.from_froms away.from_froms)
                (Others-SameAt w2.ledger w'.ledger a.pool.key a.pool.key tos others' away.from_tos
                  away.from_tos);
          source_after =
              ap (λ s. rt.unpack_account s.bytes)
                (others' source_key (λ e. away.from_source (sym e)) (λ e. away.from_source (sym e)))
              ∙ less;
          supply_after =
              ap (λ s. rt.unpack_mint s.bytes)
                (others' mint_key (λ e. away.from_mint (sym e)) (λ e. away.from_mint (sym e)))
              ∙ fewer;
          pool_after = held';
          others = λ k x other.
              others' k other other
              ∙ others k x.from_source x.from_mint
              ∙ elsewhere k x.from_froms x.from_tos;
        },
      )

  -- If the token program behaves as documented: a redemption whose accounts are the right ones,
  -- whose checks are met and whose tokens are in the source account succeeds.
  pub process_redeem-IsRedeemed :
      (rest : List AccountInfo)
      → (w' : World) × (process_redeem rt program_id
            (redeem_list a (froms ++ (tos ++ rest)))
            pool_seed
            amount
            w
          ≡ ok (tt, w'))
        × IsRedeemed rt program_id w w' a p froms tos amount source supply
  unfolding process_redeem
  process_redeem-IsRedeemed rest =
      let (nf, nt) =
        length-Separate (IsPayable rt Usable a.pool.key amount supply w.ledger) assets froms tos
          h.payable in
      let (w1, paid, shares, elsewhere) =
        buy_out-pays token a pool_seed h.spl
          (check_pool_key-eq-ok rt program_id a.pool.key pool_seed
            (check_pool_key-MayRedeem rt program_id w a p.header pool_seed checks))
          amount supply assets froms tos w h.some_issued h.issued h.payable in
      let (w', end, redeemed) = finish w1 shares elsewhere in
      (
        w',
        step (redeem_accounts rt program_id (redeem_list a (froms ++ (tos ++ rest)))) _ w
            (redeem_accounts_lem rt program_id a (froms ++ (tos ++ rest)) w h.spl)
            (step (read_header a.pool) _ w (read_header_held a.pool p w pool_held h.initialized) (
              step (asset_bytes a.pool p.header) _ w
                (asset_bytes_held a.pool p w pool_held h.markets_fit)
                (step_lift (unpack_assets (drop (32 * p.header.number_of_markets) p.rest)) _ w
                  h.assets_are
                  (step_lift (next_accounts (length assets) (froms ++ (tos ++ rest))) _ w
                    (next_accounts_lem assets froms (tos ++ rest) nf)
                    (step_lift (next_accounts (length assets) (tos ++ rest)) _ w
                      (next_accounts_lem assets tos rest nt)
                      (step (redeem_checks rt program_id a p.header pool_seed) _ w
                        (redeem_checks-MayRedeem rt program_id a p.header pool_seed w checks)
                        (step (mint_supply rt a.mint) _ w
                          (mint_supply_lem rt a.mint w supply minted.unpacked)
                          (step_lift (rt.unpack_account (w.ledger a.source_pool_token.key).bytes) _
                            w h.source_account.unpacked
                            (step_check (ltb source.amount amount) insufficient_funds _ w
                              (ground arith)
                              (step
                                (buy_out rt program_id a pool_seed amount supply assets froms tos) _
                                w paid end)))))))))),
        redeemed,
      )
