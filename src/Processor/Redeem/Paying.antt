-- ===== src/Processor/Redeem/Paying.antt =====
-- The payments of a redemption, the loop over the assets in `process_redeem`: they all succeed.
use bonfida_bot.Prelude.{
  inl, inr, ℕ, zero, suc, ◌+◌, ◌-◌, ◌^◌, ◌≤◌, ◌<◌, ◌≡◌, ◌≢◌, refl, sym, ap, ◌∙◌, [], ◌∷◌, arith,
  List, not,
}
use bonfida_bot.Outcome.{ok, invalid_argument}
use bonfida_bot.Bytes.{Bytes, eq_bytes}
use bonfida_bot.State.{Pubkey, PoolAsset}
use bonfida_bot.Runtime.{
  ◌>>=◌, ◌>>◌, lift, require_not, Runtime, World, AccountInfo, AccountState, TokenAccount, lift,
  require_not,
}
use bonfida_bot.Runtime.Progress.{step_lift, step, step_same, invoke_signed_lem}
use bonfida_bot.Runtime.Tokens.{IsToken, IsAccount, Signs, Holding, Others}
use bonfida_bot.Processor.Redeem.{RedeemAccounts, pay_out, redeem_amount, buy_out}
use bonfida_bot.Processor.Redeem.Payouts.{
  Payable, PaidOut, Payable-same, PaidOut-same, redeem_amount-eq-share,
}
use bonfida_bot.Processor.Payments.{share, Apart, Separate, Each, Others-SameAt}
use bonfida_bot.Processor.Common.{token_account}
use mathlib.Core.Bool.{not}

same_amount :
    (rt : Runtime) (bytes : Bytes) (t : TokenAccount) (n : ℕ)
    → n ≡ t.amount
    → rt.unpack_account bytes ≡ ok t
    → rt.unpack_account bytes ≡ ok (record t { amount = n })
same_amount rt bytes t n e h = h ∙ ap (λ (m : ℕ). ok (record t { amount = m })) (sym e)

module _ {rt : Runtime} {program_id : Pubkey} {Usable : AccountState → Type 0}
    (token : IsToken rt program_id Usable) (a : RedeemAccounts) (pool_seed : Bytes)
    (is_token : a.spl_token.key ≡ rt.spl_token_id)
    (signs : rt.create_program_address (pool_seed ∷ []) program_id ≡ ok a.pool.key) where
  pay_out-pays :
      (from to : AccountInfo) (t u : TokenAccount) (n : ℕ) (w : World)
      → IsAccount rt Usable w.ledger from t
      → IsAccount rt Usable w.ledger to u
      → from.key ≢ to.key
      → t.mint ≡ u.mint
      → t.owner ≡ a.pool.key
      → n ≤ t.amount
      → u.amount + n < 2 ^ 64
      → (w' : World) × (pay_out rt program_id a pool_seed from to n w ≡ ok (tt, w'))
        × Holding rt w'.ledger from.key t (t.amount - n)
        × Holding rt w'.ledger to.key u (u.amount + n)
        × Others w.ledger w'.ledger from.key to.key
  unfolding pay_out
  pay_out-pays from to t u zero w hf ht apart mint owned enough room = (
    w,
    refl,
    same_amount rt _ t (t.amount - 0) (omega arith) hf.unpacked,
    same_amount rt _ u (u.amount + 0) (omega arith) ht.unpacked,
    λ k _ _. refl,
  )
  pay_out-pays from to t u (suc n) w hf ht apart mint owned enough room =
      let (i, ledger', built, runs, paid, received, _, _, others) =
        token.transfers a.spl_token from to a.pool (a.spl_token ∷ from ∷ to ∷ a.pool ∷ [])
          ((pool_seed ∷ []) ∷ []) (suc n) w.ledger t u is_token
          (inl refl, inr (inl refl), inr (inr (inl refl)), inr (inr (inr (inl refl)))) hf ht apart
          mint owned (Signs.by_seed pool_seed signs) enough room in
      (
        _,
        step_lift (rt.transfer a.spl_token.key from.key to.key a.pool.key [] (suc n)) _ w built
            (invoke_signed_lem rt i _ _ w ledger' runs),
        paid,
        received,
        others,
      )

  -- Each asset's share goes from the pool's account to the target, and no other account changes.
  pub buy_out-pays :
      (amount supply : ℕ) (assets : List PoolAsset) (froms tos : List AccountInfo) (w : World)
      → 0 < supply
      → amount ≤ supply
      → Payable rt Usable a.pool.key amount supply w.ledger assets froms tos
      → (w' : World) × (buy_out rt program_id a pool_seed amount supply assets froms tos w
          ≡ ok (tt, w'))
        × PaidOut rt amount supply w.ledger w'.ledger froms tos
        × ((k : Pubkey) → Apart k froms → Apart k tos → w'.ledger k ≡ w.ledger k)
  unfolding buy_out
  buy_out-pays amount supply [] _ _ w pos part Separate.no_asset =
      (w, refl, Each.no_pair, λ k _ _. refl)
  buy_out-pays amount supply (asset ∷ assets) _ _ w pos part
        (Separate.asset_then _ from to _ froms tos h ff ft tf tt' rest) =
      let n = share amount h.held.amount supply in
      let (computed, enough) = redeem_amount-eq-share amount h.held.amount supply pos part h.fits in
      let (w1, paid, from_after, to_after, others) =
        pay_out-pays from to h.held h.target n w h.from_account h.to_account h.apart h.same_mint
          h.owned enough h.room in
      let (w', runs, more, elsewhere) = buy_out-pays amount supply assets froms tos w1 pos part (
        Payable-same rt w.ledger w1.ledger amount supply Usable a.pool.key assets froms tos rest
          (Others-SameAt w.ledger w1.ledger from.key to.key froms others ff tf)
          (Others-SameAt w.ledger w1.ledger from.key to.key tos others ft tt')) in
      (
        w',
        step
            (do
              require_not
                  (not (
                    eq_bytes (rt.get_associated_token_address a.pool.key asset.mint_address)
                      from.key))
                  invalid_argument
              pool_asset ← token_account rt from
              paid ← lift (redeem_amount amount pool_asset.amount supply)
              pay_out rt program_id a pool_seed from to paid)
            (λ _. buy_out rt program_id a pool_seed amount supply assets froms tos) w
            (step_same (rt.get_associated_token_address a.pool.key asset.mint_address) from.key
              invalid_argument _ w h.address
              (step_lift (rt.unpack_account (w.ledger from.key).bytes) _ w h.from_account.unpacked
                (step_lift (redeem_amount amount h.held.amount supply) _ w computed paid)))
            runs,
        Each.pair_then from to froms tos
            (record {
              held = h.held;
              target = h.target;
              held_before = h.from_account.unpacked;
              target_before = h.to_account.unpacked;
              held_after =
                  ap (λ s. rt.unpack_account s.bytes) (elsewhere from.key ff ft) ∙ from_after;
              target_after =
                  ap (λ s. rt.unpack_account s.bytes) (elsewhere to.key tf tt') ∙ to_after;
            })
            (PaidOut-same rt w.ledger w1.ledger amount supply w'.ledger froms tos more
              (Others-SameAt w.ledger w1.ledger from.key to.key froms others ff tf)
              (Others-SameAt w.ledger w1.ledger from.key to.key tos others ft tt')),
        λ k (x, xs) (y, ys). elsewhere k xs ys ∙ others k x y,
      )
