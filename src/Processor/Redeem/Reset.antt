-- ===== src/Processor/Redeem/Reset.antt =====
-- What the redemption of all pool tokens leaves of the pool.
use bonfida_bot.State.Header.{IsHeader-IsSized}
use bonfida_bot.State.Layout.{header_bytes, IsSized}
use bonfida_bot.Assets.{unpack_assets}
use bonfida_bot.Outcome.{ok, uninitialized_account, err, Result, insufficient_funds}
use bonfida_bot.Processor.Reads.{
  redeem_accounts-eq-ok, read_header-eq-ok, asset_bytes-eq-ok, mint_supply-eq-ok,
}
use bonfida_bot.Processor.Redeem.Gates.{redeem_checks-then}
use bonfida_bot.Prelude.{
  ℕ, length, take, drop, replicate, length-take, length-drop, ◌-◌, ◌≤◌, ◌≡◌, refl, ap, ◌∙◌, [], ◌∷◌,
  ◌++◌, arith, leb, Bool-cases, length-append, drop-append, sym, subst, inl, inr, ltb, ==_iff, All,
  false, none, List,
}
use bonfida_bot.Bytes.{Bytes, IsByte, slice}
use bonfida_bot.Utils.{fill_slice}
use bonfida_bot.State.{PoolHeader, header_len, uninitialized, Pubkey, is_initialized}
use bonfida_bot.Runtime.{AccountInfo, World, put_data, Runtime}
use bonfida_bot.Runtime.Inversion.{then, lift-then, reads-then, check-then}
use bonfida_bot.Processor.Common.{
  read_header, with_tail, write_header, mint_supply, next_accounts, asset_bytes,
}
use bonfida_bot.Processor.Headers.{
  put_data_self, write_header_lem, with_tail_lem, read_header_lem, read_header-IsHeader,
}
use bonfida_bot.Processor.Redeem.{
  reset_pool, RedeemAccounts, redeem_accounts, buy_out, burn_tokens, process_redeem,
}

pub fill_slice-zero : (target : Bytes) → fill_slice target 0 ≡ replicate (length target) 0
unfolding fill_slice
fill_slice-zero [] = refl
fill_slice-zero (b ∷ target) = ap (λ l. 0 ∷ l) (fill_slice-zero target)

pub reset-IsSized :
    (header : PoolHeader) → IsSized header → IsSized (record header { status = uninitialized })
reset-IsSized header v = record {
  serum_program_id = v.serum_program_id;
  seed = v.seed;
  signal_provider = v.signal_provider;
  status = tt;
  number_of_markets = v.number_of_markets;
  fee_ratio = v.fee_ratio;
  last_fee_collection_timestamp = v.last_fee_collection_timestamp;
  fee_collection_period = v.fee_collection_period;
}

-- The pool after the reset: an uninitialized header, then zeros, so that no header can be read
-- from it.
unfoldable pub IsReset : AccountInfo → PoolHeader → World → Type 0
IsReset pool header w =
    ((n : ℕ) × ((w.ledger pool.key).bytes
        ≡ header_bytes (record header { status = uninitialized }) (replicate n 0)))
    × (read_header pool w ≡ err uninitialized_account)

world_of : {v w : World} → Path (Result (Unit {0} × World)) (ok (tt, v)) (ok (tt, w)) → v ≡ w
world_of e = cc

pub reset_pool-bytes :
    (pool : AccountInfo) (header : PoolHeader) (w w' : World)
    → header_len ≤ length (w.ledger pool.key).bytes
    → IsSized header
    → reset_pool pool header w ≡ ok (tt, w')
    → (w'.ledger pool.key).bytes
      ≡ header_bytes
          (record header { status = uninitialized })
          (replicate (length (w.ledger pool.key).bytes - header_len) 0)
unfolding reset_pool
reset_pool-bytes pool header w w' big v h =
    let old = (w.ledger pool.key).bytes in
    let new = take header_len old ++ replicate (length old - header_len) 0 in
    let w1 : World = record w { ledger = put_data pool.key new w.ledger } in
    let filled : with_tail header_len (λ tail. ok (fill_slice tail 0)) old ≡ ok new =
      with_tail_lem header_len (λ tail. ok (fill_slice tail 0)) old big
      ∙ ap (λ t. ok (take header_len old ++ t))
          (fill_slice-zero (drop header_len old)
            ∙ ap (λ n. replicate n 0) (length-drop header_len old)) in
    let there : (w1.ledger pool.key).bytes ≡ new = put_data_self pool.key new w.ledger in
    let size : length (take header_len old) ≡ header_len =
      omega (arith, length-take header_len old) in
    let big' : header_len ≤ length (w1.ledger pool.key).bytes =
      subst (λ l. header_len ≤ length l) (sym there)
        (omega
          (arith, length-append (take header_len old) (replicate (length old - header_len) 0))) in
    let written =
      write_header_lem pool (record header { status = uninitialized }) w1 (reset-IsSized header v)
        big' in
    let behind : drop header_len (w1.ledger pool.key).bytes
        ≡ replicate (length old - header_len) 0 =
      ap (drop header_len) there ∙ drop-append header_len (take header_len old) _ size in
    let step : reset_pool pool header w
        ≡ write_header pool (record header { status = uninitialized }) w1 =
      rw filled refl in
    let same : w' ≡ record w1 {
      ledger =
          put_data pool.key
            (header_bytes (record header { status = uninitialized })
              (drop header_len (w1.ledger pool.key).bytes))
            w1.ledger;
    } =
      world_of (sym h ∙ step ∙ written) in
    ap (λ u. (u.ledger pool.key).bytes) same
    ∙ put_data_self pool.key _ w1.ledger
    ∙ ap (header_bytes (record header { status = uninitialized })) behind

tail_none :
    (old : Bytes) → leb header_len (length old) ≡ false → slice header_len (length old) old ≡ none
unfolding slice
tail_none old h = rw h refl

-- A reset that succeeds leaves an uninitialized header and zeros behind it.
pub reset_pool-IsReset :
    (pool : AccountInfo) (header : PoolHeader) (w w' : World)
    → IsSized header
    → reset_pool pool header w ≡ ok (tt, w')
    → IsReset pool header w'
unfolding reset_pool IsReset with_tail is_initialized
reset_pool-IsReset pool header w w' v h =
    elim (Bool-cases (leb header_len (length (w.ledger pool.key).bytes))) [
      | inl fits ↦
          let n = length (w.ledger pool.key).bytes - header_len in
          let e = reset_pool-bytes pool header w w' (ground arith) v h in
          (
            (n, e),
            read_header_lem pool (record header { status = uninitialized }) (replicate n 0) w'
                (reset-IsSized header v) e,
          )
      | inr short ↦ let h' = rw (tail_none (w.ledger pool.key).bytes short) at h in cc
    ]

module _ (rt : Runtime) (program_id : Pubkey) where
  unfoldable ResetsIfAll : List AccountInfo → ℕ → World → World → Type 0
  ResetsIfAll accounts amount w w' =
      (a : RedeemAccounts) × (rest : List AccountInfo) × (header : PoolHeader) × (supply : ℕ)
      × (redeem_accounts rt program_id accounts w ≡ ok ((a, rest), w))
      × (read_header a.pool w ≡ ok (header, w))
      × (mint_supply rt a.mint w ≡ ok (supply, w))
      × (amount ≡ supply → IsReset a.pool header w')

  process_redeem-ResetsIfAll :
      (accounts : List AccountInfo) (pool_seed : Bytes) (amount : ℕ) (w w' : World)
      → ((key : Pubkey) → All IsByte (w.ledger key).bytes)
      → process_redeem rt program_id accounts pool_seed amount w ≡ ok (tt, w')
      → ResetsIfAll accounts amount w w'
  unfolding process_redeem ResetsIfAll
  process_redeem-ResetsIfAll accounts pool_seed amount w w' bytes h =
      reads-then (redeem_accounts rt program_id accounts) _ w
        (λ p v. redeem_accounts-eq-ok rt program_id accounts w v p) h
        λ (a, rest) got h.
          reads-then (read_header a.pool) _ w (λ hd v. read_header-eq-ok a.pool w v hd) h
            λ header read h.
              reads-then (asset_bytes a.pool header) _ w
                (λ tail v. asset_bytes-eq-ok a.pool header w v tail) h
                λ tail _ h. lift-then (unpack_assets tail) _ w h λ assets _ h.
                  lift-then (next_accounts (length assets) rest) _ w h λ (froms, rest') _ h.
                    lift-then (next_accounts (length assets) rest') _ w h λ (tos, rest'') _ h.
                      redeem_checks-then rt program_id a header pool_seed _ w h λ checked h.
                        reads-then (mint_supply rt a.mint) _ w
                          (λ s v. mint_supply-eq-ok rt a.mint w v s) h
                          λ supply minted h.
                            lift-then (rt.unpack_account (w.ledger a.source_pool_token.key).bytes) _
                              w h
                              λ source held h.
                                check-then (ltb source.amount amount) insufficient_funds _ w h
                                  λ enough h.
                                    then
                                      (buy_out rt program_id a pool_seed amount supply assets froms
                                        tos)
                                      _ w h
                                      λ _ v _ h.
                                        then (burn_tokens rt program_id a amount) _ v h λ _ u _ h.
                                          let valid = IsHeader-IsSized header (
                                            read_header-IsHeader a.pool header w w
                                              (bytes a.pool.key) read) in
                                          (
                                            a,
                                            rest,
                                            header,
                                            supply,
                                            got,
                                            read,
                                            minted,
                                            λ all.
                                                reset_pool-IsReset a.pool header u w' valid
                                                  (rw ((==_iff amount supply).1 all) at h),
                                          )

  -- If all data on the ledger are bytes, a redemption that succeeds, and redeems the whole
  -- supply of the pool's mint, leaves an uninitialized header and zeros behind it, so that no
  -- header can be read from the pool.
  pub process_redeem-IsReset :
      (accounts rest : List AccountInfo) (pool_seed : Bytes) (amount : ℕ) (w w' : World)
      (a : RedeemAccounts) (header : PoolHeader)
      → ((key : Pubkey) → All IsByte (w.ledger key).bytes)
      → redeem_accounts rt program_id accounts w ≡ ok ((a, rest), w)
      → read_header a.pool w ≡ ok (header, w)
      → mint_supply rt a.mint w ≡ ok (amount, w)
      → process_redeem rt program_id accounts pool_seed amount w ≡ ok (tt, w')
      → IsReset a.pool header w'
  unfolding ResetsIfAll
  process_redeem-IsReset accounts rest pool_seed amount w w' a header bytes got read all h =
      let (b, rest', header', supply, got', read', supply_is, reset) =
        process_redeem-ResetsIfAll accounts pool_seed amount w w' bytes h in
      let accounts_are : b ≡ a = cc in
      let header_is : header' ≡ header =
        (let read'' = ap (λ x. read_header x.pool w) accounts_are in cc) in
      let amount_is : amount ≡ supply =
        (let supply' = ap (λ x. mint_supply rt x.mint w) accounts_are in cc) in
      subst (λ x. IsReset x.pool header w') accounts_are
        (subst (λ x. IsReset b.pool x w') header_is (reset amount_is))
