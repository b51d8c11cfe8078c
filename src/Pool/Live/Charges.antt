-- ===== src/Pool/Live/Charges.antt =====
-- What the run of a deposit (`Processor::process_deposit`) meets on the way: its accounts, its status, a
-- payment that is not 0, and the accounts that the mints leave alone.
use bonfida_bot.Prelude.{
  ℕ, ◌≡◌, refl, sym, ap, ◌∙◌, inl, inr, List, [], ◌∷◌, ◌++◌, All, arith, Bool, true, false, not,
}
use bonfida_bot.Outcome.{ok, incorrect_program_id}
use bonfida_bot.State.{Pubkey, PoolStatus, unlocked}
use bonfida_bot.Runtime.{Runtime, AccountInfo, Ledger, World}
use bonfida_bot.Runtime.Progress.{step_same}
use bonfida_bot.Processor.Payments.{share, Apart, SameAt}
use bonfida_bot.Processor.Deposit.{DepositAccounts, deposit_accounts, check_unlocked}
use bonfida_bot.Processor.Deposit.Limit.{Affords, Sources}
use bonfida_bot.Pool.Front.{ok-inj}
use bonfida_bot.Pool.Live.Purchase.{deposit_list, SomeShare, IsUnminted}

pub deposit_accounts_lem :
    (rt : Runtime) (program_id : Pubkey) (a : DepositAccounts) (owner : AccountInfo)
    (tos froms rest : List AccountInfo) (w : World)
    → a.spl_token.key ≡ rt.spl_token_id
    → deposit_accounts rt program_id (deposit_list a owner tos froms rest) w
      ≡ ok ((a, tos ++ (owner ∷ (froms ++ rest))), w)
unfolding deposit_accounts
deposit_accounts_lem rt program_id a owner tos froms rest w e =
    step_same a.spl_token.key rt.spl_token_id incorrect_program_id _ w e refl

pub check_unlocked_lem : (status : PoolStatus) → status ≡ unlocked → check_unlocked status ≡ ok tt
unfolding check_unlocked
check_unlocked_lem status e = rw e refl

-- A share that is not 0 is paid.
pub some_paid :
    (rt : Runtime) (w : World) (amount supply : ℕ) (tos froms : List AccountInfo) (amounts : List ℕ)
    → Affords rt w supply amount tos froms amounts
    → SomeShare rt w.ledger amount supply tos
    → All (λ held. share amount held supply ≡ 0) amounts
    → ⊥
some_paid rt w amount supply [] _ _ (Sources.nothing froms) s zeros = s
some_paid rt w amount supply (to ∷ tos) _ _
      (Sources.one_more _ from _ froms n amounts held owned e1 e2 same pays rest)
      (inl (t, there, some_share)) (zeroed, zeros) =
    let held_is : t.amount ≡ n = ap (λ x. x.amount) (ok-inj (sym there ∙ e1)) ∙ same in
    let share_is = ap (λ m. share amount m supply) held_is in omega arith
some_paid rt w amount supply (to ∷ tos) _ _
      (Sources.one_more _ from _ froms n amounts held owned e1 e2 same pays rest) (inr more)
      (zeroed, zeros) =
    some_paid rt w amount supply tos froms amounts rest more zeros

pub moved_of : (moved : Bool) → (moved ≡ false → ⊥) → not moved ≡ false
moved_of true h = refl
moved_of false h = absurd (h refl)

-- The accounts are none that are minted to.
pub All-IsUnminted :
    (a : DepositAccounts) (infos : List AccountInfo)
    → Apart a.mint.key infos
    → Apart a.target_pool_token.key infos
    → Apart a.signal_provider_pt.key infos
    → Apart a.bonfida_fee_pt.key infos
    → Apart a.bonfida_bnb_pt.key infos
    → All (λ info. IsUnminted a info.key) infos
All-IsUnminted a [] m t p f b = tt
All-IsUnminted a (info ∷ infos) (m, ms) (t, ts) (p, ps) (f, fs) (b, bs) = (
  record {
    from_mint = λ e. m (sym e);
    from_target = λ e. t (sym e);
    from_provider = λ e. p (sym e);
    from_fee = λ e. f (sym e);
    from_bnb = λ e. b (sym e);
  },
  All-IsUnminted a infos ms ts ps fs bs,
)

pub SameAt-IsUnminted :
    (a : DepositAccounts) (ledger ledger' : Ledger) (infos : List AccountInfo)
    → ((k : Pubkey) → IsUnminted a k → ledger' k ≡ ledger k)
    → All (λ info. IsUnminted a info.key) infos
    → SameAt ledger ledger' infos
SameAt-IsUnminted a ledger ledger' [] same u = tt
SameAt-IsUnminted a ledger ledger' (info ∷ infos) same (u, us) =
    (same info.key u, SameAt-IsUnminted a ledger ledger' infos same us)
