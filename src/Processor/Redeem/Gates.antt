-- ===== src/Processor/Redeem/Gates.antt =====
-- What a successful redemption has checked.
use bonfida_bot.Prelude.{
  ◌≡◌, true, false, arith, ltb, length, ℕ, ◌≤◌, sym, subst, ap, ◌∙◌, not, List, refl,
}
use bonfida_bot.Outcome.{ok, insufficient_funds, invalid_argument}
use bonfida_bot.Bytes.{Bytes}
use bonfida_bot.Assets.{unpack_assets}
use bonfida_bot.State.{Pubkey, PoolHeader}
use bonfida_bot.Runtime.{Runtime, World, ◌>>◌, AccountInfo, TokenAccount, Action, require_not-eq-ok}
use bonfida_bot.Runtime.Progress.{step_lift, step_same, step_check}
use bonfida_bot.Runtime.Inversion.{lift-then, reads-then, then, check-then, same-then}
use bonfida_bot.Processor.Redeem.{
  redeem_checks, RedeemAccounts, has_pending_orders, fees_are_due, redeem_accounts, process_redeem,
}
use bonfida_bot.Processor.Common.{
  mint_key_of, locked_operation_error, mint_supply, read_header, next_accounts, asset_bytes,
}
use bonfida_bot.Processor.Reads.{
  read_header-eq-ok, asset_bytes-eq-ok, mint_supply-eq-ok, redeem_accounts-eq-ok,
}
use bonfida_bot.Utils.{check_pool_key}

module _ (rt : Runtime) (program_id : Pubkey) where
  -- The checks that a redemption makes on the accounts `a`, the header, and the seed.
  unfoldable pub MayRedeem : World → RedeemAccounts → PoolHeader → Bytes → Type 0
  MayRedeem w a header pool_seed =
      (check_pool_key rt program_id a.pool.key pool_seed ≡ ok tt)
      × (mint_key_of rt pool_seed program_id ≡ ok a.mint.key)
      × (a.source_pool_token_owner.is_signer ≡ true)
      × ((w.ledger a.pool.key).owner ≡ program_id)
      × (has_pending_orders header.status ≡ false)
      × ((now : ℕ) × (rt.unix_timestamp a.clock (w.ledger a.clock.key) ≡ ok now)
          × (fees_are_due header now ≡ false))

  pub redeem_checks-then :
      {B : Type 0} {G : Type 0} {x : B × World} (a : RedeemAccounts) (header : PoolHeader)
      (pool_seed : Bytes) (k : Action B) (w : World)
      → (redeem_checks rt program_id a header pool_seed >> k) w ≡ ok x
      → (MayRedeem w a header pool_seed → k w ≡ ok x → G)
      → G
  unfolding redeem_checks MayRedeem
  redeem_checks-then {x = x} a header pool_seed k w h f =
      then (redeem_checks rt program_id a header pool_seed) _ w h λ _ v e h'.
        lift-then (check_pool_key rt program_id a.pool.key pool_seed) _ w e λ _ pool_ok e.
          lift-then (mint_key_of rt pool_seed program_id) _ w e λ key key_ok e.
            same-then key a.mint.key invalid_argument _ w e λ same e.
              check-then (not a.source_pool_token_owner.is_signer) invalid_argument _ w e
                λ signer e.
                  same-then (w.ledger a.pool.key).owner program_id invalid_argument _ w e λ owner e.
                    check-then (has_pending_orders header.status) locked_operation_error _ w e
                      λ pending e.
                        lift-then (rt.unix_timestamp a.clock (w.ledger a.clock.key)) _ w e
                          λ now time e.
                            let (due, unchanged) =
                              require_not-eq-ok (fees_are_due header now) locked_operation_error w
                                e in
                            f
                              (
                                pool_ok,
                                key_ok ∙ ap ok same,
                                ground arith,
                                owner,
                                pending,
                                (now, time, due),
                              )
                              (subst (λ u. k u ≡ ok x) (sym unchanged) h')

  -- The redemption's accounts and header pass the checks, and the source account holds the tokens.
  unfoldable pub HasPassed : List AccountInfo → Bytes → ℕ → World → Type 0
  HasPassed accounts pool_seed amount w =
      (a : RedeemAccounts) × (rest : List AccountInfo) × (header : PoolHeader)
      × (source : TokenAccount) × (redeem_accounts rt program_id accounts w ≡ ok ((a, rest), w))
      × (read_header a.pool w ≡ ok (header, w))
      × MayRedeem w a header pool_seed
      × (rt.unpack_account (w.ledger a.source_pool_token.key).bytes ≡ ok source)
      × (amount ≤ source.amount)

  -- A redemption that succeeds has made the checks, and the redeemed tokens are in the account
  -- that they are taken from.
  pub process_redeem-eq-ok :
      (accounts : List AccountInfo) (pool_seed : Bytes) (amount : ℕ) (w w' : World)
      → process_redeem rt program_id accounts pool_seed amount w ≡ ok (tt, w')
      → HasPassed accounts pool_seed amount w
  unfolding process_redeem HasPassed
  process_redeem-eq-ok accounts pool_seed amount w w' h =
      reads-then (redeem_accounts rt program_id accounts) _ w
        (λ p v. redeem_accounts-eq-ok rt program_id accounts w v p) h
        λ (a, rest) got h.
          reads-then (read_header a.pool) _ w (λ hd v. read_header-eq-ok a.pool w v hd) h
            λ header read h.
              reads-then (asset_bytes a.pool header) _ w
                (λ tail v. asset_bytes-eq-ok a.pool header w v tail) h
                λ tail _ h. lift-then (unpack_assets tail) _ w h λ assets _ h.
                  lift-then (next_accounts (length assets) rest) _ w h λ (froms, rest') _ h.
                    lift-then (next_accounts (length assets) rest') _ w h λ (tos, rest'') _ h.
                      redeem_checks-then a header pool_seed _ w h λ checked h.
                        reads-then (mint_supply rt a.mint) _ w
                          (λ s v. mint_supply-eq-ok rt a.mint w v s) h
                          λ supply _ h.
                            lift-then (rt.unpack_account (w.ledger a.source_pool_token.key).bytes) _
                              w h
                              λ source held h.
                                check-then (ltb source.amount amount) insufficient_funds _ w h
                                  λ enough h. (
                                    a,
                                    rest,
                                    header,
                                    source,
                                    got,
                                    read,
                                    checked,
                                    held,
                                    ground arith,
                                  )

  -- The checks succeed where they are met.
  pub redeem_checks-MayRedeem :
      (a : RedeemAccounts) (header : PoolHeader) (pool_seed : Bytes) (w : World)
      → MayRedeem w a header pool_seed
      → redeem_checks rt program_id a header pool_seed w ≡ ok (tt, w)
  unfolding redeem_checks MayRedeem
  redeem_checks-MayRedeem a header pool_seed w
        (pool_ok, mint_ok, signer, owner, free, (now, time, not_due)) =
      step_lift (check_pool_key rt program_id a.pool.key pool_seed) _ w pool_ok (
        step_lift (mint_key_of rt pool_seed program_id) _ w mint_ok (
          step_same a.mint.key a.mint.key invalid_argument _ w refl (
            step_check (not a.source_pool_token_owner.is_signer) invalid_argument _ w
              (ap not signer)
              (step_same (w.ledger a.pool.key).owner program_id invalid_argument _ w owner (
                step_check (has_pending_orders header.status) locked_operation_error _ w free (
                  step_lift (rt.unix_timestamp a.clock (w.ledger a.clock.key)) _ w time
                    (rw not_due refl)))))))

  -- What they say of the pool's key.
  pub check_pool_key-MayRedeem :
      (w : World) (a : RedeemAccounts) (header : PoolHeader) (pool_seed : Bytes)
      → MayRedeem w a header pool_seed
      → check_pool_key rt program_id a.pool.key pool_seed ≡ ok tt
  unfolding MayRedeem
  check_pool_key-MayRedeem w a header pool_seed h = h.0
