-- ===== src/Processor/Deposit/Mints.antt =====
-- The pool tokens that a deposit mints.
use bonfida_bot.Processor.Common.{sub_u64, mint_pool_tokens}
use bonfida_bot.Runtime.{Runtime, Instruction, World}
use bonfida_bot.Processor.Mints.{instructions, mint_pool_tokens-eq-ok}
use bonfida_bot.Processor.Fees.{share_out}
use bonfida_bot.Prelude.{ℕ, ◌≡◌, ◌∙◌, List, [], ◌∷◌, ◌++◌, ap}
use bonfida_bot.Outcome.{ok}
use bonfida_bot.Bytes.{Bytes}
use bonfida_bot.State.{Pubkey}
use bonfida_bot.Runtime.Inversion.{then}
use bonfida_bot.Processor.Deposit.{DepositAccounts, mint_deposit}

module _ (rt : Runtime) (program_id : Pubkey) where
  -- The instructions end with four that mint the tokens of a deposit: to the target what the fee
  -- leaves, and the shares of the fee to the three fee accounts.
  unfoldable pub EndsWithMints : DepositAccounts → Pubkey → ℕ → ℕ → World → Type 0
  EndsWithMints a mint_key effective fee w =
      (before : List Instruction) × (i : Instruction) × (j : Instruction) × (k : Instruction)
      × (l : Instruction) × (rt.mint_to a.spl_token.key mint_key a.target_pool_token.key a.pool.key
            [] (sub_u64 effective fee)
          ≡ ok i)
      × (rt.mint_to a.spl_token.key mint_key a.signal_provider_pt.key a.pool.key []
            (share_out fee).signal_provider
          ≡ ok j)
      × (rt.mint_to a.spl_token.key mint_key a.bonfida_fee_pt.key a.pool.key []
            (share_out fee).bonfida_fee
          ≡ ok k)
      × (rt.mint_to a.spl_token.key mint_key a.bonfida_bnb_pt.key a.pool.key []
            (share_out fee).bonfida_bnb
          ≡ ok l)
      × (instructions w ≡ (((before ++ (i ∷ [])) ++ (j ∷ [])) ++ (k ∷ [])) ++ (l ∷ []))

  pub mint_deposit-eq-ok :
      (a : DepositAccounts) (pool_seed : Bytes) (mint_key : Pubkey) (effective fee : ℕ)
      (w w' : World)
      → mint_deposit rt program_id a pool_seed mint_key effective fee w ≡ ok (tt, w')
      → EndsWithMints a mint_key effective fee w'
  unfolding mint_deposit EndsWithMints
  mint_deposit-eq-ok a pool_seed mint_key effective fee w w' h =
      let s = share_out fee in
      then
        (mint_pool_tokens rt a.spl_token a.mint a.target_pool_token a.pool mint_key
          a.target_pool_token.key pool_seed (sub_u64 effective fee))
        _ w h
        λ _ t et h.
          then
            (mint_pool_tokens rt a.spl_token a.mint a.signal_provider_pt a.pool mint_key
              a.signal_provider_pt.key pool_seed s.signal_provider)
            _ t h
            λ _ u eu h.
              then
                (mint_pool_tokens rt a.spl_token a.mint a.bonfida_fee_pt a.pool mint_key
                  a.bonfida_fee_pt.key pool_seed s.bonfida_fee)
                _ u h
                λ _ v ev h.
                  let (i, ei, ci) =
                    mint_pool_tokens-eq-ok rt a.spl_token a.mint a.target_pool_token a.pool mint_key
                      a.target_pool_token.key pool_seed _ w t et in
                  let (j, ej, cj) =
                    mint_pool_tokens-eq-ok rt a.spl_token a.mint a.signal_provider_pt a.pool
                      mint_key a.signal_provider_pt.key pool_seed s.signal_provider t u eu in
                  let (k, ek, ck) =
                    mint_pool_tokens-eq-ok rt a.spl_token a.mint a.bonfida_fee_pt a.pool mint_key
                      a.bonfida_fee_pt.key pool_seed s.bonfida_fee u v ev in
                  let (l, el, cl) =
                    mint_pool_tokens-eq-ok rt a.spl_token a.mint a.bonfida_bnb_pt a.pool mint_key
                      a.bonfida_bnb_pt.key pool_seed s.bonfida_bnb v w' h in
                  (
                    instructions w,
                    i,
                    j,
                    k,
                    l,
                    ei,
                    ej,
                    ek,
                    el,
                    cl
                        ∙ ap (λ x. x ++ (l ∷ []))
                            (ck ∙ ap (λ x. x ++ (k ∷ [])) (cj ∙ ap (λ x. x ++ (j ∷ [])) ci)),
                  )
