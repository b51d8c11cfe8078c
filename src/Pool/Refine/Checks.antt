-- ===== src/Pool/Refine/Checks.antt =====
-- The checks of `process_create`: they change nothing, and no pool is overwritten.
use bonfida_bot.Pool.Moves.{HoldsPool}
use bonfida_bot.Pool.Step.{Pool}
use bonfida_bot.Pool.Frame.{Keeps, keeps_rules}
use bonfida_bot.Runtime.Inversion.{lift-then, check-then, same-then}
use bonfida_bot.Prelude.{
  ◌≡◌, ◌∙◌, ap, sym, List, [], ◌∷◌, arith, length, subst, false, refl, some, ℕ,
}
use bonfida_bot.Outcome.{ok, invalid_argument, unwrap_result}
use bonfida_bot.Bytes.{Bytes, index, slice, concat-append, slice_middle}
use bonfida_bot.State.{Pubkey, header_len, is_initialized, unpack_from_slice}
use bonfida_bot.State.Layout.{
  header_bytes, header_parts, length-header_bytes, unpack_from_slice-header_bytes,
}
use bonfida_bot.Runtime.{Runtime, World, AccountInfo}
use bonfida_bot.Processor.Common.{mint_key_of}
use bonfida_bot.Processor.Create.{CreateAccounts, create_accounts, create_checks}

module _ (rt : Runtime) (program_id : Pubkey) where
  pub create_accounts-Keeps :
      {key : Pubkey} (n : ℕ) (accounts : List AccountInfo)
      → Keeps program_id key (create_accounts rt program_id n accounts)
  unfolding create_accounts
  create_accounts-Keeps n accounts = search keeps_rules depth 40

  pub create_checks-Keeps :
      {key : Pubkey} (a : CreateAccounts) (pool_seed : Bytes) (markets : List Pubkey) (period : ℕ)
      → Keeps program_id key (create_checks rt program_id a pool_seed markets period)
  unfolding create_checks
  create_checks-Keeps a pool_seed markets period = search keeps_rules depth 40

  -- No pool is overwritten.
  pub create_checks-uninitialized :
      (a : CreateAccounts) (pool_seed : Bytes) (markets : List Pubkey) (period : ℕ) (p : Pool)
      (w w' : World) (keys : Pubkey × Pubkey)
      → HoldsPool program_id a.pool.key p w
      → create_checks rt program_id a pool_seed markets period w ≡ ok (keys, w')
      → is_initialized p.header ≡ false
  unfolding create_checks
  create_checks-uninitialized a pool_seed markets period p w w' keys h e =
      lift-then (unwrap_result (rt.create_program_address (pool_seed ∷ []) program_id)) _ w e
        λ pool_key _ e. lift-then (mint_key_of rt pool_seed program_id) _ w e λ mint_key _ e.
          same-then pool_key a.pool.key invalid_argument _ w e λ _ e.
            same-then mint_key a.mint.key invalid_argument _ w e λ _ e.
              lift-then (index 0 header_len (w.ledger a.pool.key).bytes) _ w e λ front read e.
                lift-then (unwrap_result (unpack_from_slice front)) _ w e λ old unpacked e.
                  check-then (is_initialized old) invalid_argument _ w e λ none_there _.
                    let full : length (header_bytes p.header []) ≡ header_len =
                      omega (arith, length-header_bytes p.header [] h.sized) in
                    let first : slice 0 header_len (w.ledger a.pool.key).bytes
                        ≡ some (header_bytes p.header []) =
                      ap (slice 0 header_len)
                        (h.held.content ∙ concat-append (header_parts p.header) p.rest)
                      ∙ slice_middle [] (header_bytes p.header []) p.rest 0 header_len refl
                          (omega arith) in
                    let front_is : header_bytes p.header [] ≡ front =
                      (let read' = rw first at read in cc) in
                    let back : unpack_from_slice front ≡ ok p.header =
                      ap unpack_from_slice (sym front_is)
                      ∙ unpack_from_slice-header_bytes p.header [] h.sized in
                    let old_is : p.header ≡ old = (let unpacked' = rw back at unpacked in cc) in
                    subst (λ x. is_initialized x ≡ false) (sym old_is) none_there
