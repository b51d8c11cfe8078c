-- ===== src/Processor/Deposit/Paying.antt =====
-- The two loops of `process_deposit` over the assets, `buy_in_limit` and `buy_in`: they succeed.
use bonfida_bot.Prelude.{
  ℕ, zero, suc, ◌+◌, ◌-◌, ◌%◌, ◌^◌, ◌≤◌, ◌<◌, ◌≡◌, ◌≢◌, refl, sym, ap, ◌∙◌, inl, inr, List, [], ◌∷◌,
  All, arith, min, Bool, true, false, ◌||◌, subst,
}
use bonfida_bot.Outcome.{ok, invalid_argument}
use bonfida_bot.Bytes.{Bytes}
use bonfida_bot.State.{Pubkey, PoolAsset}
use bonfida_bot.Runtime.{Runtime, World, AccountInfo, AccountState, TokenAccount, invoke}
use bonfida_bot.Runtime.Progress.{step_lift, step, step_same, invoke_signed_lem}
use bonfida_bot.Runtime.Tokens.{IsToken, IsAccount, Signs, Holding, Others}
use bonfida_bot.Processor.Payments.{share, Apart, SameAt, Separate, Each, IsAccount-same}
use bonfida_bot.Processor.Deposit.{
  DepositAccounts, affordable, deposit_amount, buy_in_limit, pay_in, buy_in,
}
use bonfida_bot.Processor.Deposit.Limit.{Affords, Fits, Sources}
use bonfida_bot.Processor.Deposit.Payments.{IsBuyable, IsBought, deposit_amount-eq-share, share-le}

module _ (rt : Runtime) (program_id : Pubkey) (Usable : AccountState → Type 0) where
  -- The first loop finds the pool's amounts, and the sources can pay.
  pub buy_in_limit_live :
      (pool_key owner_key : Pubkey) (amount supply : ℕ) (assets : List PoolAsset)
      (tos froms : List AccountInfo) (most : ℕ) (w : World)
      → Separate (IsBuyable rt Usable pool_key owner_key amount supply w.ledger) assets tos froms
      → (amounts : List ℕ) × (limit : ℕ) × (buy_in_limit rt program_id supply tos froms most w
          ≡ ok ((amounts, limit), w))
        × Affords rt w supply amount tos froms amounts
        × Fits rt w supply tos froms amounts
  unfolding buy_in_limit
  buy_in_limit_live pool_key owner_key amount supply [] _ _ most w Separate.no_asset =
      ([], most, refl, Sources.nothing [], Sources.nothing [])
  buy_in_limit_live pool_key owner_key amount supply (asset ∷ assets) _ _ most w
        (Separate.asset_then _ to from _ tos froms h _ _ _ _ rest) =
      let (amounts, limit, run, all, fits) =
        buy_in_limit_live pool_key owner_key amount supply assets tos froms
          (min (affordable h.owned.amount supply h.held.amount) most) w rest in
      (
        h.held.amount ∷ amounts,
        limit,
        step_lift (rt.unpack_account (w.ledger to.key).bytes) _ w h.to_account.unpacked (
            step_lift (rt.unpack_account (w.ledger from.key).bytes) _ w h.from_account.unpacked (
              step
                (buy_in_limit rt program_id supply tos froms
                  (min (affordable h.owned.amount supply h.held.amount) most))
                _ w run refl)),
        Sources.one_more to from tos froms h.held.amount amounts h.held h.owned
            h.to_account.unpacked h.from_account.unpacked refl h.enough all,
        Sources.one_more to from tos froms h.held.amount amounts h.held h.owned
            h.to_account.unpacked h.from_account.unpacked refl h.untruncated fits,
      )

or_false : (x y : Bool) → x || y ≡ false → (x ≡ false) × (y ≡ false)
or_false false y e = (refl, e)
or_false true y e = cc

same_holding :
    (rt : Runtime) (bytes : Bytes) (t : TokenAccount) (n : ℕ)
    → n ≡ t.amount
    → rt.unpack_account bytes ≡ ok t
    → rt.unpack_account bytes ≡ ok (record t { amount = n })
same_holding rt bytes t n e h = h ∙ ap (λ (m : ℕ). ok (record t { amount = m })) (sym e)

SameAt-Others :
    (w v v' : World) (a b : Pubkey) (infos : List AccountInfo)
    → SameAt w.ledger v.ledger infos
    → Others v.ledger v'.ledger a b
    → Apart a infos
    → Apart b infos
    → SameAt w.ledger v'.ledger infos
SameAt-Others w v v' a b [] same others x y = tt
SameAt-Others w v v' a b (info ∷ infos) (s, ss) others (x, xs) (y, ys) = (
  others info.key (λ e. x (sym e)) (λ e. y (sym e)) ∙ s,
  SameAt-Others w v v' a b infos ss others xs ys,
)

module _ {rt : Runtime} {program_id : Pubkey} {Usable : AccountState → Type 0}
    (token : IsToken rt program_id Usable) (a : DepositAccounts) (owner : AccountInfo)
    (is_token : a.spl_token.key ≡ rt.spl_token_id) (signs : owner.is_signer ≡ true) where
  pay_in_live :
      (from to : AccountInfo) (t u : TokenAccount) (n : ℕ) (w : World)
      → IsAccount rt Usable w.ledger from t
      → IsAccount rt Usable w.ledger to u
      → from.key ≢ to.key
      → t.mint ≡ u.mint
      → t.owner ≡ owner.key
      → n ≤ t.amount
      → t.amount < 2 ^ 64
      → u.amount + n < 2 ^ 64
      → (moved : Bool) × (w' : World) × (pay_in rt program_id a owner from to n w ≡ ok (moved, w'))
        × (moved ≡ false → n ≡ 0)
        × Holding rt w'.ledger from.key t (t.amount - n)
        × Holding rt w'.ledger to.key u (u.amount + n)
        × Usable (w'.ledger from.key)
        × Usable (w'.ledger to.key)
        × Others w.ledger w'.ledger from.key to.key
  unfolding pay_in
  pay_in_live from to t u zero w hf ht apart mint owned enough fits room = (
    false,
    w,
    refl,
    λ _. refl,
    same_holding rt _ t (t.amount - 0) (omega arith) hf.unpacked,
    same_holding rt _ u (u.amount + 0) (omega arith) ht.unpacked,
    hf.usable,
    ht.usable,
    λ k _ _. refl,
  )
  pay_in_live from to t u (suc n) w hf ht apart mint owned enough fits room =
      let infos = from ∷ to ∷ a.spl_token ∷ owner ∷ [] in
      let (i, ledger', built, runs, paid, received, usable, usable', others) =
        token.transfers a.spl_token from to owner infos [] (suc n) w.ledger t u is_token
          (inr (inr (inl refl)), inl refl, inr (inl refl), inr (inr (inr (inl refl)))) hf ht apart
          mint owned (Signs.itself [] signs) enough room in
      let small : suc n % 2 ^ 64 ≡ suc n = omega arith in
      (
        true,
        _,
        step_lift (rt.transfer a.spl_token.key from.key to.key owner.key [] (suc n % 2 ^ 64)) _ w
            (ap (λ m. rt.transfer a.spl_token.key from.key to.key owner.key [] m) small ∙ built)
            (step (invoke rt i infos) _ w (invoke_signed_lem rt i infos [] w ledger' runs) refl),
        (λ e. cc),
        paid,
        received,
        usable,
        usable',
        others,
      )

  -- The second loop: each source pays the share of what the pool holds of the asset, and no other
  -- account changes. It tells that nothing was paid only if all shares are 0.
  pub buy_in_live :
      (pool_key : Pubkey) (amount supply : ℕ) (assets : List PoolAsset)
      (tos froms : List AccountInfo) (amounts : List ℕ) (w v : World)
      → 0 < supply
      → Separate (IsBuyable rt Usable pool_key owner.key amount supply w.ledger) assets tos froms
      → Affords rt w supply amount tos froms amounts
      → SameAt w.ledger v.ledger tos
      → SameAt w.ledger v.ledger froms
      → (moved : Bool) × (v' : World) × (buy_in rt program_id a owner pool_key amount supply assets
            tos froms amounts v
          ≡ ok (moved, v'))
        × (moved ≡ false → All (λ held. share amount held supply ≡ 0) amounts)
        × Each (IsBought rt Usable amount supply w.ledger v'.ledger) tos froms
        × ((k : Pubkey) → Apart k tos → Apart k froms → v'.ledger k ≡ v.ledger k)
  unfolding buy_in
  buy_in_live pool_key amount supply [] _ _ _ w v pos Separate.no_asset (Sources.nothing _) st sf =
      (false, v, refl, λ _. tt, Each.no_pair, λ k _ _. refl)
  buy_in_live pool_key amount supply (asset ∷ assets) _ _ _ w v pos
        (Separate.asset_then _ to from _ tos froms h tt' tf ft ff rest)
        (Sources.one_more _ _ _ _ n amounts held owned e1 e2 same pays others') (st, sts)
        (sf, sfs) =
      let held_is : held ≡ h.held = (let there = h.to_account.unpacked in cc) in
      let amount_is : h.held.amount ≡ n = ap (λ t. t.amount) (sym held_is) ∙ same in
      let paid = share amount h.held.amount supply in
      let computed : deposit_amount amount n supply ≡ ok paid =
        ap (λ m. deposit_amount amount m supply) (sym amount_is)
        ∙ deposit_amount-eq-share amount h.held.amount supply pos in
      let covered = share-le amount h.held.amount h.owned.amount supply pos h.enough in
      let (moved, v1, run, still, less, more, usable, usable', others) =
        pay_in_live from to h.owned h.held paid v
          (IsAccount-same w.ledger v.ledger rt Usable from h.owned sf h.from_account)
          (IsAccount-same w.ledger v.ledger rt Usable to h.held st h.to_account) h.apart h.same_mint
          h.owner_is covered h.owned_fits h.room in
      let (moved', v', run', still', bought, elsewhere) =
        buy_in_live pool_key amount supply assets tos froms amounts w v1 pos rest others'
          (SameAt-Others w v v1 from.key to.key tos sts others ft tt')
          (SameAt-Others w v v1 from.key to.key froms sfs others ff tf) in
      (
        moved || moved',
        v',
        step_same (rt.get_associated_token_address pool_key asset.mint_address) to.key
            invalid_argument _ v h.address
            (step_lift (deposit_amount amount n supply) _ v computed (
              step (pay_in rt program_id a owner from to paid) _ v run (
                step (buy_in rt program_id a owner pool_key amount supply assets tos froms amounts)
                  _ v1 run' refl))),
        λ e.
            let both = or_false moved moved' e in
            (ap (λ m. share amount m supply) (sym amount_is) ∙ still both.0, still' both.1),
        Each.pair_then to from tos froms
            (record {
              held = h.held;
              owned = h.owned;
              held_before = h.to_account.unpacked;
              owned_before = h.from_account.unpacked;
              held_after = ap (λ s. rt.unpack_account s.bytes) (elsewhere to.key tt' tf) ∙ more;
              owned_after = ap (λ s. rt.unpack_account s.bytes) (elsewhere from.key ft ff) ∙ less;
              held_usable = subst Usable (sym (elsewhere to.key tt' tf)) usable';
              owned_usable = subst Usable (sym (elsewhere from.key ft ff)) usable;
            })
            bought,
        λ k (x, xs) (y, ys). elsewhere k xs ys ∙ others k y x,
      )
