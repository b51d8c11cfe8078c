-- ===== src/Processor/CollectFees/Payment.antt =====
-- What a fee collection that succeeds has called.
use bonfida_bot.Prelude.{
  ℕ, ◌≡◌, [], ◌∷◌, ◌++◌, ◌+◌, ◌≤◌, ap, ◌∙◌, List, append_assoc, arith, ◌==◌, zero, suc, ◌^◌, ◌<◌,
  sym, subst,
}
use bonfida_bot.Outcome.{invalid_argument, ok}
use bonfida_bot.Bytes.{Bytes}
use bonfida_bot.State.{Pubkey, PoolHeader}
use bonfida_bot.Runtime.{Runtime, Instruction, World, AccountInfo, lift}
use bonfida_bot.Utils.{check_pool_key}
use bonfida_bot.Processor.Mints.{instructions, mint_pool_tokens-eq-ok, write_header-calls}
use bonfida_bot.Processor.Reads.{read_header-eq-ok, mint_supply-eq-ok}
use bonfida_bot.Processor.Fees.{
  share_out, fee_cycles, feeless_ratio, tokens_to_mint, collected_header,
}
use bonfida_bot.Processor.Fees.Split.{share_out-sum}
use bonfida_bot.Runtime.Inversion.{then, reads-then, lift-then, check-then, same-then}
use bonfida_bot.Processor.Common.{
  bonfida_fee, bonfida_bnb, mint_pool_tokens, timestamp, mint_supply, read_header,
  locked_operation_error, mint_key_of, fee_address,
}
use bonfida_bot.Processor.CollectFees.{
  collect_pay, CollectAccounts, collect_accounts, collect_checks, process_collect_fees, collect_due,
}

three_calls :
    (xs us vs ys : List Instruction) (i j k : Instruction)
    → us ≡ xs ++ (i ∷ [])
    → vs ≡ us ++ (j ∷ [])
    → ys ≡ vs ++ (k ∷ [])
    → ys ≡ xs ++ (i ∷ j ∷ k ∷ [])
three_calls xs us vs ys i j k ci cj ck =
    ck
    ∙ ap (λ l. l ++ (k ∷ [])) (cj ∙ ap (λ l. l ++ (j ∷ [])) ci ∙ append_assoc xs (i ∷ []) (j ∷ []))
    ∙ append_assoc xs (i ∷ j ∷ []) (k ∷ [])

tokens_to_mint-lt :
    (feeless total tokens : ℕ) → tokens_to_mint feeless total ≡ ok tokens → tokens < 2 ^ 64
unfolding tokens_to_mint
tokens_to_mint-lt zero total tokens h = cc
tokens_to_mint-lt (suc n) total tokens h = ground arith

module _ (rt : Runtime) (program_id : Pubkey) where
  -- Three instructions that mint pool tokens for the pool's three fee accounts were appended.
  unfoldable pub HasMinted : CollectAccounts → Pubkey → ℕ → ℕ → ℕ → World → World → Type 0
  HasMinted a mint_key provider fee bnb w w' =
      (i : Instruction) × (j : Instruction) × (k : Instruction) × (rt.mint_to a.spl_token.key
          mint_key a.signal_provider_pt.key a.pool.key [] provider
        ≡ ok i)
      × (rt.mint_to a.spl_token.key mint_key a.bonfida_fee_pt.key a.pool.key [] fee ≡ ok j)
      × (rt.mint_to a.spl_token.key mint_key a.bonfida_bnb_pt.key a.pool.key [] bnb ≡ ok k)
      × (instructions w' ≡ instructions w ++ (i ∷ j ∷ k ∷ []))

  minted_then :
      (a : CollectAccounts) (mint_key : Pubkey) (provider fee bnb : ℕ) (u v w w' : World)
      → HasMinted a mint_key provider fee bnb u v
      → w ≡ u
      → instructions w' ≡ instructions v
      → HasMinted a mint_key provider fee bnb w w'
  unfolding HasMinted
  minted_then a mint_key provider fee bnb u v w w' (i, j, k, ei, ej, ek, called) e after =
      (i, j, k, ei, ej, ek, after ∙ called ∙ ap (λ x. instructions x ++ (i ∷ j ∷ k ∷ [])) (sym e))

  collect_accounts-eq-ok :
      (accounts : List AccountInfo) (w w' : World) (a : CollectAccounts)
      → collect_accounts rt program_id accounts w ≡ ok (a, w')
      → w ≡ w'
  unfolding collect_accounts
  collect_accounts-eq-ok accounts w w' a h = ground arith

  pub collect_checks-eq-ok :
      (a : CollectAccounts) (pool_seed : Bytes) (w w' : World) (p : Pubkey × PoolHeader)
      → collect_checks rt program_id a pool_seed w ≡ ok (p, w')
      → (w ≡ w')
  unfolding collect_checks read_header
  collect_checks-eq-ok a pool_seed w w' p h = ground arith

  pub collect_checks-header :
      (a : CollectAccounts) (pool_seed : Bytes) (w : World) (mint_key : Pubkey)
      (header : PoolHeader)
      → collect_checks rt program_id a pool_seed w ≡ ok ((mint_key, header), w)
      → (mint_key ≡ a.mint.key)
        × (read_header a.pool w ≡ ok (header, w))
        × (a.signal_provider_pt.key
            ≡ rt.get_associated_token_address header.signal_provider mint_key)
  unfolding collect_checks
  collect_checks-header a pool_seed w mint_key header h =
      lift-then (check_pool_key rt program_id a.pool.key pool_seed) _ w h λ _ _ h.
        lift-then (mint_key_of rt pool_seed program_id) _ w h λ key _ h.
          same-then key a.mint.key invalid_argument _ w h λ same h.
            reads-then (read_header a.pool) _ w (λ hd v. read_header-eq-ok a.pool w v hd) h
              λ hd read h. lift-then (fee_address rt bonfida_fee key) _ w h λ fee_key _ h.
                lift-then (fee_address rt bonfida_bnb key) _ w h λ bnb_key _ h.
                  same-then a.signal_provider_pt.key
                    (rt.get_associated_token_address hd.signal_provider key) invalid_argument _ w h
                    λ provider h.
                      same-then a.bonfida_fee_pt.key fee_key invalid_argument _ w h λ _ h.
                        same-then a.bonfida_bnb_pt.key bnb_key invalid_argument _ w h λ _ h.
                          let key_is : key ≡ mint_key = cc in
                          let header_is : hd ≡ header = cc in
                          (
                            sym key_is ∙ same,
                            read ∙ ap (λ x. ok (x, w)) header_is,
                            provider
                                ∙ ap (λ x. rt.get_associated_token_address x.signal_provider key)
                                    header_is
                                ∙ ap (rt.get_associated_token_address header.signal_provider)
                                    key_is,
                          )

  collect_pay-eq-ok :
      (a : CollectAccounts) (pool_seed : Bytes) (mint_key : Pubkey) (tokens : ℕ) (w w' : World)
      → collect_pay rt program_id a pool_seed mint_key tokens w ≡ ok (tt, w')
      → let s = share_out tokens in
        HasMinted a mint_key s.signal_provider s.bonfida_fee s.bonfida_bnb w w'
  unfolding collect_pay HasMinted
  collect_pay-eq-ok a pool_seed mint_key tokens w w' h =
      let s = share_out tokens in
      then
        (mint_pool_tokens rt a.spl_token a.mint a.signal_provider_pt a.pool mint_key
          a.signal_provider_pt.key pool_seed s.signal_provider)
        _ w h
        λ _ u eu h.
          then
            (mint_pool_tokens rt a.spl_token a.mint a.bonfida_fee_pt a.pool mint_key
              a.bonfida_fee_pt.key pool_seed s.bonfida_fee)
            _ u h
            λ _ v ev h.
              let (i, ei, ci) =
                mint_pool_tokens-eq-ok rt a.spl_token a.mint a.signal_provider_pt a.pool mint_key
                  a.signal_provider_pt.key pool_seed s.signal_provider w u eu in
              let (j, ej, cj) =
                mint_pool_tokens-eq-ok rt a.spl_token a.mint a.bonfida_fee_pt a.pool mint_key
                  a.bonfida_fee_pt.key pool_seed s.bonfida_fee u v ev in
              let (k, ek, ck) =
                mint_pool_tokens-eq-ok rt a.spl_token a.mint a.bonfida_bnb_pt a.pool mint_key
                  a.bonfida_bnb_pt.key pool_seed s.bonfida_bnb v w' h in
              (
                i,
                j,
                k,
                ei,
                ej,
                ek,
                three_calls (instructions w) (instructions u) (instructions v) (instructions w') i j
                    k ci cj ck,
              )

  -- The fees that were due were collected.
  unfoldable pub HasCollected : List AccountInfo → World → World → Type 0
  HasCollected accounts w w' =
      (a : CollectAccounts) × (header : PoolHeader) × (now cycles supply tokens provider fee
        bnb : ℕ)
      × (collect_accounts rt program_id accounts w ≡ ok (a, w))
      × (read_header a.pool w ≡ ok (header, w))
      × (a.signal_provider_pt.key
          ≡ rt.get_associated_token_address header.signal_provider a.mint.key)
      × (timestamp rt a.clock w ≡ ok (now, w))
      × (fee_cycles header now ≡ ok cycles)
      × (1 ≤ cycles)
      × (mint_supply rt a.mint w ≡ ok (supply, w))
      × (tokens_to_mint (feeless_ratio header.fee_ratio cycles) supply ≡ ok tokens)
      × (provider + fee + bnb ≡ tokens)
      × HasMinted a a.mint.key provider fee bnb w w'

  -- A fee collection that succeeds has found at least one cycle due at the time of the clock. The
  -- tokens that it mints for the signal provider and the two fee accounts add up to the tokens
  -- that the supply and the fees of the cycles determine, and it calls nothing else.
  pub process_collect_fees-eq-ok :
      (accounts : List AccountInfo) (pool_seed : Bytes) (w w' : World)
      → process_collect_fees rt program_id accounts pool_seed w ≡ ok (tt, w')
      → HasCollected accounts w w'
  unfolding process_collect_fees collect_due HasCollected
  process_collect_fees-eq-ok accounts pool_seed w w' h =
      reads-then (collect_accounts rt program_id accounts) _ w
        (λ p v. collect_accounts-eq-ok accounts w v p) h
        λ a got h.
          reads-then (collect_checks rt program_id a pool_seed) _ w
            (λ p v. collect_checks-eq-ok a pool_seed w v p) h
            λ (mint_key, header) checked h.
              let (key, read, provider_key) =
                collect_checks-header a pool_seed w mint_key header checked in
              then (collect_due rt program_id a header) _ w h λ (cycles, tokens) u due h.
                lift-then (rt.unix_timestamp a.clock (w.ledger a.clock.key)) _ w due λ now time due.
                  lift-then (fee_cycles header now) _ w due λ cycles' some_cycles due.
                    check-then (cycles' == 0) locked_operation_error _ w due λ positive due.
                      reads-then (mint_supply rt a.mint) _ w
                        (λ s v. mint_supply-eq-ok rt a.mint w v s) due
                        λ supply minted due.
                          lift-then (tokens_to_mint (feeless_ratio header.fee_ratio cycles') supply)
                            _ w due
                            λ tokens' amount due.
                              let tokens_is : tokens' ≡ tokens = cc in
                              let world_is : w ≡ u = cc in
                              let s = share_out tokens in
                              then (collect_pay rt program_id a pool_seed mint_key tokens) _ u h
                                λ _ v paid h.
                                  let (sum, _, _) = share_out-sum tokens (
                                    subst (λ t. t < 2 ^ 64) tokens_is
                                      (tokens_to_mint-lt _ supply tokens' amount)) in
                                  let at_mint : HasMinted a a.mint.key s.signal_provider
                                      s.bonfida_fee s.bonfida_bnb u v =
                                    subst
                                      (λ m.
                                        HasMinted a m s.signal_provider s.bonfida_fee s.bonfida_bnb
                                          u v)
                                      key
                                      (collect_pay-eq-ok a pool_seed mint_key tokens u v paid) in
                                  (
                                    a,
                                    header,
                                    now,
                                    cycles',
                                    supply,
                                    tokens,
                                    s.signal_provider,
                                    s.bonfida_fee,
                                    s.bonfida_bnb,
                                    got,
                                    read,
                                    provider_key
                                        ∙ ap
                                            (rt.get_associated_token_address header.signal_provider)
                                            key,
                                    ap (λ r. lift r w) time,
                                    some_cycles,
                                    ground arith,
                                    minted,
                                    amount ∙ ap ok tokens_is,
                                    sum,
                                    minted_then a a.mint.key s.signal_provider s.bonfida_fee
                                        s.bonfida_bnb u v w w' at_mint world_is
                                        (write_header-calls a.pool (collected_header header cycles)
                                          v w' h),
                                  )
