-- ===== src/Pool/Live/Returning.antt =====
-- Between a deposit (`Processor::process_deposit`) and a redemption (`Processor::process_redeem`) of
-- what it bought: the token accounts for one asset.
use bonfida_bot.Processor.Redeem.Profit.{redeem_amount-le-deposit_amount}
use bonfida_bot.Processor.Redeem.Payouts.{
  IsPayable, IsPaid, Payable, PaidOut, redeem_amount-eq-share,
}
use bonfida_bot.Processor.Deposit.Payments.{IsBuyable, IsBought, deposit_amount-eq-share, share-le}
use bonfida_bot.Processor.Payments.{share, Separate, Each, Separate-with, Each-with}
use bonfida_bot.Runtime.Tokens.{Holding}
use bonfida_bot.Runtime.{Runtime, Ledger, AccountInfo, AccountState, TokenAccount}
use bonfida_bot.State.{Pubkey, PoolAsset}
use bonfida_bot.Prelude.{ℕ, ◌+◌, ◌-◌, ◌≤◌, ◌<◌, ◌≡◌, sym, ap, ◌∙◌, List, arith}
use bonfida_bot.Outcome.{ok}

-- The source account has no more than before.
pub record IsNoGain (rt : Runtime) (ledger ledger' : Ledger) (to from : AccountInfo) : Type 0 where
  pub owned : TokenAccount
  pub left : ℕ
  pub owned_before : rt.unpack_account (ledger from.key).bytes ≡ ok owned
  pub owned_after : Holding rt ledger' from.key owned left
  pub no_gain : left ≤ owned.amount

-- The amounts of one asset: what comes back is no more than what was paid, which the source had.
record IsCovered (amount supply back held owned : ℕ) : Type 0 where
  covered : share amount held supply ≤ owned
  no_more :
      share back (held + share amount held supply) (supply + amount) ≤ share amount held supply

module _ (rt : Runtime) (Usable : AccountState → Type 0) (pool_key owner_key : Pubkey)
    (amount supply back : ℕ) (ledger ledger' : Ledger) (some_issued : 0 < supply)
    (part : back ≤ amount) where
  -- An asset that could be bought, and was.
  abbrev BuyableBought : PoolAsset → AccountInfo → AccountInfo → Type 0
  BuyableBought asset to from =
      IsBuyable rt Usable pool_key owner_key amount supply ledger asset to from
      × IsBought rt Usable amount supply ledger ledger' to from

  covered_lem :
      (asset : PoolAsset) (to from : AccountInfo)
      (h : IsBuyable rt Usable pool_key owner_key amount supply ledger asset to from)
      → IsCovered amount supply back h.held.amount h.owned.amount
  covered_lem asset to from h =
      let paid = share amount h.held.amount supply in
      let bought = deposit_amount-eq-share amount h.held.amount supply some_issued in
      let room = h.room in
      let (redeemed, _) =
        redeem_amount-eq-share back (h.held.amount + paid) (supply + amount) (omega arith)
          (omega arith) room in
      record {
        covered = share-le amount h.held.amount h.owned.amount supply some_issued h.enough;
        no_more =
            redeem_amount-le-deposit_amount amount h.held.amount supply paid back _ bought part
              redeemed;
      }

  -- What was bought can be paid back.
  bought_payable :
      (asset : PoolAsset) (to from : AccountInfo)
      → BuyableBought asset to from
      → IsPayable rt Usable pool_key back (supply + amount) ledger' asset to from
  bought_payable asset to from (h, b) =
      let held_is : b.held ≡ h.held =
        (let x = h.to_account.unpacked in let y = b.held_before in cc) in
      let owned_is : b.owned ≡ h.owned =
        (let x = h.from_account.unpacked in let y = b.owned_before in cc) in
      let paid = share amount h.held.amount supply in
      let c = covered_lem asset to from h in
      let affords = c.covered in
      let less = c.no_more in
      let fits = h.owned_fits in
      record {
        held = record h.held { amount = h.held.amount + paid };
        target = record h.owned { amount = h.owned.amount - paid };
        address = h.address;
        from_account = record {
          unpacked =
              b.held_after
              ∙ ap
                  (λ (t : TokenAccount).
                    ok (record t { amount = t.amount + share amount t.amount supply }))
                  held_is;
          writable = h.to_account.writable;
          usable = b.held_usable;
        };
        to_account = record {
          unpacked =
              b.owned_after
              ∙ ap
                  (λ (t : TokenAccount).
                    ok (record t { amount = t.amount - share amount b.held.amount supply }))
                  owned_is
              ∙ ap
                  (λ (t : TokenAccount).
                    ok (record h.owned { amount = h.owned.amount - share amount t.amount supply }))
                  held_is;
          writable = h.from_account.writable;
          usable = b.owned_usable;
        };
        apart = λ e. h.apart (sym e);
        same_mint = sym h.same_mint;
        owned = h.held_by_pool;
        fits = h.room;
        room = omega arith;
      }

  -- After both, the source has gained nothing.
  IsNoGain-bought :
      (last : Ledger) (asset : PoolAsset) (to from : AccountInfo)
      → BuyableBought asset to from
      → IsPaid rt back (supply + amount) ledger' last to from
      → IsNoGain rt ledger last to from
  unfolding bought_payable
  IsNoGain-bought last asset to from x y =
      let z = bought_payable asset to from x in
      let (h, b) = x in
      let held_is : y.held ≡ z.held =
        (let u = z.from_account.unpacked in let v = y.held_before in cc) in
      let target_is : y.target ≡ z.target =
        (let u = z.to_account.unpacked in let v = y.target_before in cc) in
      let c = covered_lem asset to from h in
      let affords = c.covered in
      let less = c.no_more in
      record {
        owned = h.owned;
        left = z.target.amount + share back z.held.amount (supply + amount);
        owned_before = h.from_account.unpacked;
        owned_after =
            y.target_after
            ∙ ap
                (λ (t : TokenAccount).
                  ok (record t { amount = t.amount + share back y.held.amount (supply + amount) }))
                target_is
            ∙ ap
                (λ (t : TokenAccount). ok (record z.target {
                  amount = z.target.amount + share back t.amount (supply + amount);
                }))
                held_is;
        no_gain = omega arith;
      }

  module _ (assets : List PoolAsset) (tos froms : List AccountInfo)
      (h : Separate (IsBuyable rt Usable pool_key owner_key amount supply ledger) assets tos froms)
      (b : Each (IsBought rt Usable amount supply ledger ledger') tos froms) where
    pub Payable-bought : Payable rt Usable pool_key back (supply + amount) ledger' assets tos froms
    Payable-bought =
        Separate-with _ _ _ (λ asset to from x y. bought_payable asset to from (x, y)) assets tos
          froms h b

    pub no_gain_lem :
        (last : Ledger)
        → PaidOut rt back (supply + amount) ledger' last tos froms
        → Each (IsNoGain rt ledger last) tos froms
    no_gain_lem last paid =
        Each-with BuyableBought (IsPaid rt back (supply + amount) ledger' last)
          (IsNoGain rt ledger last) (IsNoGain-bought last) assets tos froms
          (Separate-with _ _ _ (λ asset to from x y. (x, y)) assets tos froms h b) paid
