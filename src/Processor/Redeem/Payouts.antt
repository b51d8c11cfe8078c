-- ===== src/Processor/Redeem/Payouts.antt =====
-- What the payments of a redemption need, and what they leave in the token accounts.
use bonfida_bot.Prelude.{
  ℕ, zero, suc, ◌+◌, ◌*◌, ◌/◌, ◌^◌, ◌≤◌, ◌<◌, ◌≡◌, ◌≢◌, List, arith, ◌-◌, sym, ap, ◌∙◌,
}
use bonfida_bot.Outcome.{ok}
use bonfida_bot.State.{Pubkey, PoolAsset}
use bonfida_bot.Runtime.{Runtime, Ledger, AccountInfo, AccountState, TokenAccount}
use bonfida_bot.Runtime.Tokens.{IsAccount, Holding}
use bonfida_bot.Processor.Payments.{
  share, Separate, Each, SameAt, Separate-same, Each-same, IsAccount-same,
}
use native.Mathlib.Nat.{div-le_of_le-mul, mul-le-mul_right}
use bonfida_bot.Processor.Redeem.{redeem_amount}

pub redeem_amount-eq-share :
    (amount held supply : ℕ)
    → 0 < supply
    → amount ≤ supply
    → held < 2 ^ 64
    → (redeem_amount amount held supply ≡ ok (share amount held supply))
      × (share amount held supply ≤ held)
unfolding redeem_amount
redeem_amount-eq-share amount held zero pos part fits = absurd (omega arith)
redeem_amount-eq-share amount held (suc n) pos part fits =
    let whole : amount * held ≤ suc n * held = mul-le-mul_right held part in
    let small : amount * held / suc n ≤ held = div-le_of_le-mul (suc n) whole in
    (ground arith, small)

-- The pool's account for an asset and the target's account are token accounts of one mint, they
-- differ, and the target has room for its share.
pub record IsPayable (rt : Runtime) (Usable : AccountState → Type 0) (pool_key : Pubkey)
    (amount supply : ℕ) (ledger : Ledger) (asset : PoolAsset) (from to : AccountInfo) : Type 0 where
  pub held : TokenAccount
  pub target : TokenAccount
  pub address : rt.get_associated_token_address pool_key asset.mint_address ≡ from.key
  pub from_account : IsAccount rt Usable ledger from held
  pub to_account : IsAccount rt Usable ledger to target
  pub apart : from.key ≢ to.key
  pub same_mint : held.mint ≡ target.mint
  pub owned : held.owner ≡ pool_key
  pub fits : held.amount < 2 ^ 64
  pub room : target.amount + share amount held.amount supply < 2 ^ 64

-- So for each asset, with accounts that all differ.
abbrev pub Payable :
    Runtime
    → (AccountState → Type 0)
    → Pubkey
    → ℕ
    → ℕ
    → Ledger
    → List PoolAsset
    → List AccountInfo
    → List AccountInfo
    → Type 0
Payable rt Usable pool_key amount supply ledger =
    Separate (IsPayable rt Usable pool_key amount supply ledger)

-- The share has gone from one account to the other.
pub record IsPaid (rt : Runtime) (amount supply : ℕ) (ledger ledger' : Ledger)
    (from to : AccountInfo) : Type 0 where
  pub held : TokenAccount
  pub target : TokenAccount
  pub held_before : rt.unpack_account (ledger from.key).bytes ≡ ok held
  pub target_before : rt.unpack_account (ledger to.key).bytes ≡ ok target
  pub held_after : Holding rt ledger' from.key held (held.amount - share amount held.amount supply)
  pub target_after :
      Holding rt ledger' to.key target (target.amount + share amount held.amount supply)

abbrev pub PaidOut :
    Runtime → ℕ → ℕ → Ledger → Ledger → List AccountInfo → List AccountInfo → Type 0
PaidOut rt amount supply ledger ledger' = Each (IsPaid rt amount supply ledger ledger')

module _ (rt : Runtime) (ledger ledger' : Ledger) (amount supply : ℕ) where
  pub Payable-same :
      (Usable : AccountState → Type 0) (pool_key : Pubkey) (assets : List PoolAsset)
      (froms tos : List AccountInfo)
      → Payable rt Usable pool_key amount supply ledger assets froms tos
      → SameAt ledger ledger' froms
      → SameAt ledger ledger' tos
      → Payable rt Usable pool_key amount supply ledger' assets froms tos
  Payable-same Usable pool_key =
      Separate-same ledger ledger' (IsPayable rt Usable pool_key amount supply ledger)
        (IsPayable rt Usable pool_key amount supply ledger')
        λ asset from to sf st h. record {
          held = h.held;
          target = h.target;
          address = h.address;
          from_account = IsAccount-same ledger ledger' rt Usable from h.held sf h.from_account;
          to_account = IsAccount-same ledger ledger' rt Usable to h.target st h.to_account;
          apart = h.apart;
          same_mint = h.same_mint;
          owned = h.owned;
          fits = h.fits;
          room = h.room;
        }

  -- Another ledger before the payments, with the same accounts.
  pub PaidOut-same :
      (after : Ledger) (froms tos : List AccountInfo)
      → PaidOut rt amount supply ledger' after froms tos
      → SameAt ledger ledger' froms
      → SameAt ledger ledger' tos
      → PaidOut rt amount supply ledger after froms tos
  PaidOut-same after =
      Each-same ledger ledger' (IsPaid rt amount supply ledger' after)
        (IsPaid rt amount supply ledger after)
        λ from to sf st h. record {
          held = h.held;
          target = h.target;
          held_before = ap (λ s. rt.unpack_account s.bytes) (sym sf) ∙ h.held_before;
          target_before = ap (λ s. rt.unpack_account s.bytes) (sym st) ∙ h.target_before;
          held_after = h.held_after;
          target_after = h.target_after;
        }

  -- Another ledger after them.
  pub PaidOut-after :
      (before : Ledger) (froms tos : List AccountInfo)
      → PaidOut rt amount supply before ledger froms tos
      → SameAt ledger ledger' froms
      → SameAt ledger ledger' tos
      → PaidOut rt amount supply before ledger' froms tos
  PaidOut-after before =
      Each-same ledger ledger' (IsPaid rt amount supply before ledger)
        (IsPaid rt amount supply before ledger')
        λ from to sf st h. record {
          held = h.held;
          target = h.target;
          held_before = h.held_before;
          target_before = h.target_before;
          held_after = ap (λ s. rt.unpack_account s.bytes) sf ∙ h.held_after;
          target_after = ap (λ s. rt.unpack_account s.bytes) st ∙ h.target_after;
        }
