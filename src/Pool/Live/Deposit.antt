-- ===== src/Pool/Live/Deposit.antt =====
-- `Processor::process_deposit` succeeds, charges the shares, and mints the tokens.
use bonfida_bot.Pool.Live.Minted.{mints_live, IsBought-after}
use bonfida_bot.Assets.{unpack_assets}
use bonfida_bot.Pool.Live.Access.{
  HoldsPool-same, read_header_held, asset_bytes_held, mint_supply_lem, next_accounts_lem,
}
use bonfida_bot.Processor.Deposit.Paying.{buy_in_limit_live, buy_in_live}
use bonfida_bot.Pool.Live.Charges.{deposit_accounts_lem, check_unlocked_lem, some_paid, moved_of}
use bonfida_bot.Processor.Common.{
  bonfida_fee, bonfida_bnb, mint_key_of, fee_address, mint_supply, read_header, asset_bytes,
  next_accounts,
}
use bonfida_bot.Bytes.{Bytes}
use bonfida_bot.Pool.Step.{Pool}
use bonfida_bot.Prelude.{
  ℕ, ◌≡◌, refl, sym, ap, ◌∙◌, List, [], ◌∷◌, ◌++◌, arith, not, ◌-◌, subst, length, drop, min, ◌*◌,
  ◌^◌,
}
use bonfida_bot.Outcome.{ok, invalid_argument, unwrap_result}
use bonfida_bot.State.{Pubkey, PoolAsset}
use bonfida_bot.Runtime.{
  Runtime, AccountInfo, World, AccountState, TokenAccount, ◌>>=◌, ◌>>◌, require_not,
}
use bonfida_bot.Runtime.Progress.{step_same, step, step_lift, step_check}
use bonfida_bot.Processor.Payments.{length-Separate, SameAt-self}
use bonfida_bot.Processor.Deposit.{
  DepositAccounts, deposit_accounts, check_unlocked, pool_token_fee, deposit_checks, mint_deposit,
  buy_in_limit, buy_in, process_deposit,
}
use bonfida_bot.Processor.Deposit.Limit.{buy_in_limit-IsLimit}
use bonfida_bot.Pool.Live.Purchase.{deposit_list, IsUnminted, IsPurchase, IsOutside, IsPurchased}
use bonfida_bot.Runtime.Tokens.{IsToken, IsMinting}
use bonfida_bot.Pool.Live.Mints.{IsMintOf}
use bonfida_bot.Processor.Deposit.Payments.{IsBuyable}
use bonfida_bot.Pool.Moves.{HoldsPool}

module _ {rt : Runtime} {program_id : Pubkey} {Usable : AccountState → Type 0}
    {Authority : AccountState → Pubkey → Type 0} (token : IsToken rt program_id Usable)
    (minting : IsMinting rt program_id Usable Authority) (w : World) (a : DepositAccounts)
    (owner : AccountInfo) (p : Pool) (assets : List PoolAsset) (tos froms : List AccountInfo)
    (pool_seed : Bytes) (amount supply : ℕ) (target provider fee bnb : TokenAccount)
    (h : IsPurchase rt program_id Usable w a owner p assets tos froms pool_seed amount supply target
      provider fee bnb)
    (held : HoldsPool program_id a.pool.key p w)
    (mintable : IsMintOf rt Usable Authority w a.mint a.pool.key supply) where
  checks_live :
      deposit_checks rt program_id a owner p.header pool_seed w ≡ ok ((a.pool.key, a.mint.key), w)
  unfolding deposit_checks
  checks_live =
      step_lift (unwrap_result (rt.create_program_address (pool_seed ∷ []) program_id)) _ w
        (ap unwrap_result h.pool_key)
        (step_lift (mint_key_of rt pool_seed program_id) _ w h.mint_key (
          step_lift (fee_address rt bonfida_fee a.mint.key) _ w h.fee_key (
            step_lift (fee_address rt bonfida_bnb a.mint.key) _ w h.bnb_key (
              step_same a.pool.key a.pool.key invalid_argument _ w refl (
                step_same a.mint.key a.mint.key invalid_argument _ w refl (
                  step_check (not owner.is_signer) invalid_argument _ w (ap not h.signer) (
                    step_same (w.ledger a.pool.key).owner program_id invalid_argument _ w
                      held.held.owner
                      (step_same a.signal_provider_pt.key
                        (rt.get_associated_token_address p.header.signal_provider a.mint.key)
                        invalid_argument _ w h.provider_key
                        (step_same a.bonfida_fee_pt.key a.bonfida_fee_pt.key invalid_argument _ w
                          refl
                          (step_same a.bonfida_bnb_pt.key a.bonfida_bnb_pt.key invalid_argument _ w
                            refl
                            (step_lift (check_unlocked p.header.status) _ w
                              (check_unlocked_lem p.header.status h.open_to_all) refl)))))))))))

  -- If the token program behaves as documented: a deposit of some pool tokens into an unlocked pool
  -- succeeds, whether or not fees are due, if there are pool tokens, the accounts are the right ones,
  -- differ, and have room for what they get, every source holds the share of the pool's holding, some
  -- share is not 0, and for each asset the number of pool tokens that the source can pay for is a
  -- u64 or the pool holds nothing. Every source pays its share of the asset, the tokens are minted
  -- for the target and, by the shares of the fee, for the fee accounts, and no other account changes.
  pub process_deposit-IsPurchased :
      (rest : List AccountInfo)
      → (w' : World) × (process_deposit rt program_id
            (deposit_list a owner tos froms rest)
            pool_seed
            amount
            w
          ≡ ok (tt, w'))
        × IsPurchased rt program_id Usable Authority w w' a p tos froms amount supply target
            provider fee bnb
  unfolding process_deposit
  process_deposit-IsPurchased rest =
      let (nt, nf) =
        length-Separate (IsBuyable rt Usable a.pool.key owner.key amount supply w.ledger) assets tos
          froms h.buyable in
      let most : ℕ = 2 ^ 64 - 1 in
      let (amounts, limit, limited, all, fits) =
        buy_in_limit_live rt program_id Usable a.pool.key owner.key amount supply assets tos froms
          most w h.buyable in
      let (_, found) =
        buy_in_limit-IsLimit rt program_id supply tos froms most limit amounts w w (omega arith)
          fits limited in
      let room = h.room in
      let reached = found.greatest amount (omega arith) all in
      let effective : min amount limit ≡ amount = omega arith in
      let (moved, v, paid, zeros, bought, elsewhere) =
        buy_in_live token a owner h.spl h.signer a.pool.key amount supply assets tos froms amounts w
          w h.some_issued h.buyable all (SameAt-self w.ledger tos) (SameAt-self w.ledger froms) in
      let outside =
        λ (k : Pubkey) (o : IsOutside tos froms k). elsewhere k o.from_tos o.from_froms in
      let (v', minting_done, minted, got, usable, shares, same) =
        mints_live minting w a owner p assets tos froms pool_seed amount supply target provider fee
          bnb h held mintable v outside in
      let pool_unminted : IsUnminted a a.pool.key = record {
        from_mint = h.pool_from_mint;
        from_target = λ e. h.to_target.payee_from_pool (sym e);
        from_provider = λ e. h.payees.to_provider.payee_from_pool (sym e);
        from_fee = λ e. h.payees.to_fee.payee_from_pool (sym e);
        from_bnb = λ e. h.payees.to_bnb.payee_from_pool (sym e);
      } in
      let end =
        step (buy_in rt program_id a owner a.pool.key amount supply assets tos froms amounts)
          (λ moved.
            require_not (not moved) invalid_argument
            >> mint_deposit rt program_id a pool_seed a.mint.key amount
                (pool_token_fee p.header.fee_ratio amount))
          w paid
          (step_check (not moved) invalid_argument _ v
            (moved_of moved
              (λ e. some_paid rt w amount supply tos froms amounts all h.some_share (zeros e)))
            minting_done) in
      let at_limit =
        subst
          (λ n.
            (buy_in rt program_id a owner a.pool.key n supply assets tos froms amounts >>= λ moved.
            require_not (not moved) invalid_argument
            >> mint_deposit rt program_id a pool_seed a.mint.key n
                (pool_token_fee p.header.fee_ratio n))
              w
            ≡ ok (tt, v'))
          (sym effective) end in
      (
        v',
        step (deposit_accounts rt program_id (deposit_list a owner tos froms rest)) _ w
            (deposit_accounts_lem rt program_id a owner tos froms rest w h.spl)
            (step (read_header a.pool) _ w (read_header_held a.pool p w held h.initialized) (
              step (asset_bytes a.pool p.header) _ w
                (asset_bytes_held a.pool p w held h.markets_fit)
                (step_lift (unpack_assets (drop (32 * p.header.number_of_markets) p.rest)) _ w
                  h.assets_are
                  (step_lift (next_accounts (length assets) (tos ++ (owner ∷ (froms ++ rest)))) _ w
                    (next_accounts_lem assets tos (owner ∷ (froms ++ rest)) nt)
                    (step_lift (next_accounts (length assets) (froms ++ rest)) _ w
                      (next_accounts_lem assets froms rest nf)
                      (step (deposit_checks rt program_id a owner p.header pool_seed) _ w
                        checks_live
                        (step (mint_supply rt a.mint) _ w
                          (mint_supply_lem rt a.mint w supply mintable.mint_account.unpacked)
                          (step (buy_in_limit rt program_id supply tos froms most) _ w limited
                            at_limit)))))))),
        record {
          bought =
              IsBought-after minting w a owner p assets tos froms pool_seed amount supply target
                provider fee bnb h held mintable v v' same bought;
          minted = minted;
          target_after = got;
          target_usable = usable;
          paid = shares;
          pool_after =
              HoldsPool-same program_id a.pool.key p w v'
                (same a.pool.key pool_unminted ∙ outside a.pool.key h.pool_outside) held;
          others = λ k o u. same k u ∙ outside k o;
        },
      )
