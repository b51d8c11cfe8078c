-- ===== src/Pool/Live/Shares.antt =====
-- The mints that share a fee out among the signal provider and the two fee accounts: they all
-- succeed.
use bonfida_bot.Prelude.{ℕ, ◌+◌, ◌^◌, ◌<◌, ◌≡◌, ◌≢◌, sym, subst, ap, ◌∙◌, [], ◌∷◌, arith, ◌≤◌}
use bonfida_bot.Outcome.{ok}
use bonfida_bot.Bytes.{Bytes}
use bonfida_bot.State.{Pubkey}
use bonfida_bot.Runtime.{Runtime, AccountInfo, AccountState, Ledger, TokenAccount, World, ◌>>◌}
use bonfida_bot.Runtime.Progress.{step}
use bonfida_bot.Runtime.Tokens.{IsMinting, IsAccount, Holding}
use bonfida_bot.Processor.Common.{mint_pool_tokens}
use bonfida_bot.Processor.Payments.{IsAccount-same}
use bonfida_bot.Processor.Fees.{share_out}
use bonfida_bot.Processor.Fees.Split.{share_out-sum}
use bonfida_bot.Pool.Live.Mints.{IsMintOf, mint_pool_tokens_live}

-- The three accounts, and what they hold before.
pub record Payees : Type 0 where
  pub provider : AccountInfo
  pub fee : AccountInfo
  pub bnb : AccountInfo
  pub provider_before : TokenAccount
  pub fee_before : TokenAccount
  pub bnb_before : TokenAccount

-- An account of pool tokens, which has room for `n` of them.
pub record IsPayee (rt : Runtime) (Usable : AccountState → Type 0) (ledger : Ledger)
    (mint pool to : AccountInfo) (u : TokenAccount) (n : ℕ) : Type 0 where
  pub payee : IsAccount rt Usable ledger to u
  pub payee_mint : u.mint ≡ mint.key
  pub payee_from_mint : to.key ≢ mint.key
  pub payee_from_pool : to.key ≢ pool.key
  pub payee_room : u.amount + n < 2 ^ 64

pub record ArePayees (rt : Runtime) (Usable : AccountState → Type 0) (ledger : Ledger)
    (mint pool : AccountInfo) (x : Payees) (n : ℕ) : Type 0 where
  pub to_provider : IsPayee rt Usable ledger mint pool x.provider x.provider_before n
  pub to_fee : IsPayee rt Usable ledger mint pool x.fee x.fee_before n
  pub to_bnb : IsPayee rt Usable ledger mint pool x.bnb x.bnb_before n
  pub provider_from_fee : x.provider.key ≢ x.fee.key
  pub provider_from_bnb : x.provider.key ≢ x.bnb.key
  pub fee_from_bnb : x.fee.key ≢ x.bnb.key

-- Each has got its share of `n` tokens.
pub record ArePaid (rt : Runtime) (ledger : Ledger) (x : Payees) (n : ℕ) : Type 0 where
  pub provider_after :
      Holding rt ledger x.provider.key x.provider_before
        (x.provider_before.amount + (share_out n).signal_provider)
  pub fee_after :
      Holding rt ledger x.fee.key x.fee_before (x.fee_before.amount + (share_out n).bonfida_fee)
  pub bnb_after :
      Holding rt ledger x.bnb.key x.bnb_before (x.bnb_before.amount + (share_out n).bonfida_bnb)

pub record IsNoPayee (x : Payees) (k : Pubkey) : Type 0 where
  pub from_provider : k ≢ x.provider.key
  pub from_fee : k ≢ x.fee.key
  pub from_bnb : k ≢ x.bnb.key

-- Other ledgers with the same accounts.
pub ArePaid-same :
    (rt : Runtime) (ledger ledger' : Ledger) (x : Payees) (n : ℕ)
    → ledger' x.provider.key ≡ ledger x.provider.key
    → ledger' x.fee.key ≡ ledger x.fee.key
    → ledger' x.bnb.key ≡ ledger x.bnb.key
    → ArePaid rt ledger x n
    → ArePaid rt ledger' x n
ArePaid-same rt ledger ledger' x n p f b h = record {
  provider_after = ap (λ s. rt.unpack_account s.bytes) p ∙ h.provider_after;
  fee_after = ap (λ s. rt.unpack_account s.bytes) f ∙ h.fee_after;
  bnb_after = ap (λ s. rt.unpack_account s.bytes) b ∙ h.bnb_after;
}

module _ {rt : Runtime} {program_id : Pubkey} {Usable : AccountState → Type 0}
    {Authority : AccountState → Pubkey → Type 0}
    (minting : IsMinting rt program_id Usable Authority) (spl mint pool : AccountInfo)
    (pool_seed : Bytes) (is_token : spl.key ≡ rt.spl_token_id)
    (signs : rt.create_program_address (pool_seed ∷ []) program_id ≡ ok pool.key) where
  -- A mint for an account that is as it was on the first ledger.
  pub payee_live :
      (to : AccountInfo) (u : TokenAccount) (n most supply : ℕ) (w v : World)
      → IsPayee rt Usable w.ledger mint pool to u most
      → v.ledger to.key ≡ w.ledger to.key
      → IsMintOf rt Usable Authority v mint pool.key supply
      → n ≤ most
      → supply + n < 2 ^ 64
      → (v' : World) × (mint_pool_tokens rt spl mint to pool mint.key to.key pool_seed n v
          ≡ ok (tt, v'))
        × IsMintOf rt Usable Authority v' mint pool.key (supply + n)
        × Holding rt v'.ledger to.key u (u.amount + n)
        × Usable (v'.ledger to.key)
        × ((k : Pubkey) → k ≢ mint.key → k ≢ to.key → v'.ledger k ≡ v.ledger k)
  payee_live to u n most supply w v x same m part room =
      let enough = x.payee_room in
      mint_pool_tokens_live minting spl mint pool pool_seed is_token signs to u n supply v m
        (IsAccount-same w.ledger v.ledger rt Usable to u same x.payee)
        (λ e. x.payee_from_mint (sym e)) x.payee_mint room (omega arith)

  pub shares_live :
      (x : Payees) (n supply : ℕ) (w v : World)
      → ArePayees rt Usable w.ledger mint pool x n
      → v.ledger x.provider.key ≡ w.ledger x.provider.key
      → v.ledger x.fee.key ≡ w.ledger x.fee.key
      → v.ledger x.bnb.key ≡ w.ledger x.bnb.key
      → IsMintOf rt Usable Authority v mint pool.key supply
      → supply + n < 2 ^ 64
      → (v' : World) × ((mint_pool_tokens rt spl mint x.provider pool mint.key x.provider.key
                pool_seed
                (share_out n).signal_provider
              >> (mint_pool_tokens rt spl mint x.fee pool mint.key x.fee.key pool_seed
                    (share_out n).bonfida_fee
                  >> mint_pool_tokens rt spl mint x.bnb pool mint.key x.bnb.key pool_seed
                      (share_out n).bonfida_bnb))
            v
          ≡ ok (tt, v'))
        × IsMintOf rt Usable Authority v' mint pool.key (supply + n)
        × ArePaid rt v'.ledger x n
        × ((k : Pubkey) → k ≢ mint.key → IsNoPayee x k → v'.ledger k ≡ v.ledger k)
  shares_live x n supply w v h sp sf sb m room =
      let s = share_out n in
      let (sum, _, _) = share_out-sum n (omega arith) in
      let p_mint = h.to_provider.payee_from_mint in
      let f_mint = h.to_fee.payee_from_mint in
      let b_mint = h.to_bnb.payee_from_mint in
      let (w1, run1, m1, got1, _, o1) =
        payee_live x.provider x.provider_before s.signal_provider n supply w v h.to_provider sp m
          (omega arith) (omega arith) in
      let (w2, run2, m2, got2, _, o2) =
        payee_live x.fee x.fee_before s.bonfida_fee n (supply + s.signal_provider) w w1 h.to_fee
          (o1 x.fee.key f_mint (λ e. h.provider_from_fee (sym e)) ∙ sf) m1 (omega arith)
          (omega arith) in
      let (w3, run3, m3, got3, _, o3) =
        payee_live x.bnb x.bnb_before s.bonfida_bnb n (supply + s.signal_provider + s.bonfida_fee) w
          w2 h.to_bnb
          (o2 x.bnb.key b_mint (λ e. h.fee_from_bnb (sym e))
            ∙ o1 x.bnb.key b_mint (λ e. h.provider_from_bnb (sym e))
            ∙ sb)
          m2 (omega arith) (omega arith) in
      let total : supply + s.signal_provider + s.bonfida_fee + s.bonfida_bnb ≡ supply + n =
        omega arith in
      (
        w3,
        step
            (mint_pool_tokens rt spl mint x.provider pool mint.key x.provider.key pool_seed
              s.signal_provider)
            _ v run1
            (step
              (mint_pool_tokens rt spl mint x.fee pool mint.key x.fee.key pool_seed s.bonfida_fee) _
              w1 run2 run3),
        subst (λ k. IsMintOf rt Usable Authority w3 mint pool.key k) total m3,
        record {
          provider_after =
              ap (λ y. rt.unpack_account y.bytes)
                (o3 x.provider.key p_mint h.provider_from_bnb
                  ∙ o2 x.provider.key p_mint h.provider_from_fee)
              ∙ got1;
          fee_after =
              ap (λ y. rt.unpack_account y.bytes) (o3 x.fee.key f_mint h.fee_from_bnb) ∙ got2;
          bnb_after = got3;
        },
        λ k km y. o3 k km y.from_bnb ∙ o2 k km y.from_fee ∙ o1 k km y.from_provider,
      )
