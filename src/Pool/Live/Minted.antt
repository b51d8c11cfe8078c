-- ===== src/Pool/Live/Minted.antt =====
-- The mints of a deposit (`Processor::process_deposit`), after its sources have paid.
use bonfida_bot.Pool.Moves.{HoldsPool}
use bonfida_bot.Pool.Live.Charges.{All-IsUnminted, SameAt-IsUnminted}
use bonfida_bot.Processor.Common.{sub_u64, mint_pool_tokens}
use bonfida_bot.Bytes.{Bytes}
use bonfida_bot.Pool.Step.{Pool}
use bonfida_bot.Prelude.{ℕ, ◌≡◌, sym, ap, ◌∙◌, List, arith, ◌+◌, ◌-◌, subst}
use bonfida_bot.Outcome.{ok}
use bonfida_bot.State.{Pubkey, PoolAsset}
use bonfida_bot.Runtime.{Runtime, AccountInfo, World, AccountState, TokenAccount}
use bonfida_bot.Runtime.Progress.{step}
use bonfida_bot.Processor.Payments.{Apart, Each, Each-same}
use bonfida_bot.Processor.Deposit.{DepositAccounts, pool_token_fee, mint_deposit}
use bonfida_bot.Pool.Live.Purchase.{IsUnminted, deposit_payees, IsPurchase, IsOutside}
use bonfida_bot.Runtime.Tokens.{IsMinting, Holding}
use bonfida_bot.Pool.Live.Mints.{IsMintOf, IsMintOf-same}
use bonfida_bot.Pool.Live.Shares.{ArePaid, payee_live, shares_live}
use bonfida_bot.Processor.Deposit.Payments.{IsBought}
use bonfida_bot.Processor.Deposit.Amounts.{pool_token_fee-sum}

module _ {rt : Runtime} {program_id : Pubkey} {Usable : AccountState → Type 0}
    {Authority : AccountState → Pubkey → Type 0}
    (minting : IsMinting rt program_id Usable Authority) (w : World) (a : DepositAccounts)
    (owner : AccountInfo) (p : Pool) (assets : List PoolAsset) (tos froms : List AccountInfo)
    (pool_seed : Bytes) (amount supply : ℕ) (target provider fee bnb : TokenAccount)
    (h : IsPurchase rt program_id Usable w a owner p assets tos froms pool_seed amount supply target
      provider fee bnb)
    (held : HoldsPool program_id a.pool.key p w)
    (mintable : IsMintOf rt Usable Authority w a.mint a.pool.key supply) where
  -- The tokens are minted for the target and, by the shares of the fee, for the fee accounts.
  pub mints_live :
      (v : World)
      → ((k : Pubkey) → IsOutside tos froms k → v.ledger k ≡ w.ledger k)
      → (v' : World) × (mint_deposit rt program_id a pool_seed a.mint.key amount
            (pool_token_fee p.header.fee_ratio amount)
            v
          ≡ ok (tt, v'))
        × IsMintOf rt Usable Authority v' a.mint a.pool.key (supply + amount)
        × Holding rt v'.ledger a.target_pool_token.key target
            (target.amount + (amount - pool_token_fee p.header.fee_ratio amount))
        × Usable (v'.ledger a.target_pool_token.key)
        × ArePaid rt v'.ledger
            (deposit_payees a provider fee bnb)
            (pool_token_fee p.header.fee_ratio amount)
        × ((k : Pubkey) → IsUnminted a k → v'.ledger k ≡ v.ledger k)
  unfolding mint_deposit
  mints_live v outer =
      let x = deposit_payees a provider fee bnb in
      let n = pool_token_fee p.header.fee_ratio amount in
      let room = h.room in
      let (less, _) =
        pool_token_fee-sum p.header.fee_ratio amount held.sized.fee_ratio h.some_tokens
          (omega arith) in
      let left : sub_u64 amount n ≡ amount - n = omega arith in
      let ft = h.target_no_payee in
      let (v1, run1, m1, got1, usable, o1) =
        payee_live minting a.spl_token a.mint a.pool pool_seed h.spl h.pool_key a.target_pool_token
          target (sub_u64 amount n) amount supply w v h.to_target
          (outer a.target_pool_token.key h.target_outside)
          (IsMintOf-same rt Usable Authority w v a.mint a.pool.key supply
            (outer a.mint.key h.mint_outside) mintable)
          (omega arith) (omega arith) in
      let (v2, run2, m2, got2, o2) =
        shares_live minting a.spl_token a.mint a.pool pool_seed h.spl h.pool_key x n
          (supply + sub_u64 amount n) w v1 h.payees
          (o1 x.provider.key h.payees.to_provider.payee_from_mint (λ e. ft.from_provider (sym e))
            ∙ outer x.provider.key h.provider_outside)
          (o1 x.fee.key h.payees.to_fee.payee_from_mint (λ e. ft.from_fee (sym e))
            ∙ outer x.fee.key h.fee_outside)
          (o1 x.bnb.key h.payees.to_bnb.payee_from_mint (λ e. ft.from_bnb (sym e))
            ∙ outer x.bnb.key h.bnb_outside)
          m1 (omega arith) in
      let total : supply + sub_u64 amount n + n ≡ supply + amount = omega arith in
      (
        v2,
        step
            (mint_pool_tokens rt a.spl_token a.mint a.target_pool_token a.pool a.mint.key
              a.target_pool_token.key pool_seed (sub_u64 amount n))
            _ v run1 run2,
        subst (λ k. IsMintOf rt Usable Authority v2 a.mint a.pool.key k) total m2,
        ap (λ y. rt.unpack_account y.bytes)
              (o2 a.target_pool_token.key h.to_target.payee_from_mint ft)
            ∙ got1
            ∙ ap (λ (k : ℕ). ok (record target { amount = target.amount + k })) left,
        subst Usable (sym (o2 a.target_pool_token.key h.to_target.payee_from_mint ft)) usable,
        got2,
        λ k u.
            o2 k u.from_mint (record {
              from_provider = u.from_provider;
              from_fee = u.from_fee;
              from_bnb = u.from_bnb;
            })
            ∙ o1 k u.from_mint u.from_target,
      )

  -- What was bought is kept by the mints.
  pub IsBought-after :
      (v v' : World)
      → ((k : Pubkey) → IsUnminted a k → v'.ledger k ≡ v.ledger k)
      → Each (IsBought rt Usable amount supply w.ledger v.ledger) tos froms
      → Each (IsBought rt Usable amount supply w.ledger v'.ledger) tos froms
  IsBought-after v v' same bought =
      let outside =
        λ (infos : List AccountInfo) (m : Apart a.mint.key infos)
            (t : Apart a.target_pool_token.key infos) (q : Apart a.signal_provider_pt.key infos)
            (f : Apart a.bonfida_fee_pt.key infos) (b : Apart a.bonfida_bnb_pt.key infos).
          SameAt-IsUnminted a v.ledger v'.ledger infos same (All-IsUnminted a infos m t q f b) in
      Each-same v.ledger v'.ledger (IsBought rt Usable amount supply w.ledger v.ledger)
        (IsBought rt Usable amount supply w.ledger v'.ledger)
        (λ to from st sf x. record {
          held = x.held;
          owned = x.owned;
          held_before = x.held_before;
          owned_before = x.owned_before;
          held_after = ap (λ s. rt.unpack_account s.bytes) st ∙ x.held_after;
          owned_after = ap (λ s. rt.unpack_account s.bytes) sf ∙ x.owned_after;
          held_usable = subst Usable (sym st) x.held_usable;
          owned_usable = subst Usable (sym sf) x.owned_usable;
        })
        tos froms bought
        (outside tos h.mint_outside.from_tos h.target_outside.from_tos h.provider_outside.from_tos
          h.fee_outside.from_tos h.bnb_outside.from_tos)
        (outside froms h.mint_outside.from_froms h.target_outside.from_froms
          h.provider_outside.from_froms h.fee_outside.from_froms h.bnb_outside.from_froms)
