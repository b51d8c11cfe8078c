-- ===== src/Pool/Writes.antt =====
-- The handlers' writes into a pool account whose data are a header and what follows it.
use bonfida_bot.Pool.Sizes.{length-pack_asset_at}
use bonfida_bot.Runtime.Inversion.{lift-then, then}
use bonfida_bot.Utils.{fill_slice}
use bonfida_bot.Processor.Redeem.Reset.{fill_slice-zero, reset-IsSized}
use bonfida_bot.Prelude.{
  ℕ, ◌*◌, ◌≤◌, ◌≡◌, ◌≢◌, ◌⊎◌, inl, inr, refl, sym, subst, ap, ◌∙◌, true, Bool-cases, arith, length,
  drop, [], drop-append, replicate,
}
use bonfida_bot.Outcome.{ok}
use bonfida_bot.Bytes.{Bytes, eq_bytes, eq_of_eq_bytes, eq_bytes_self, concat-append}
use bonfida_bot.Assets.{pack_asset_at}
use bonfida_bot.State.{Pubkey, PoolHeader, PoolAsset, header_len, is_initialized, uninitialized}
use bonfida_bot.State.Layout.{header_bytes, IsSized, header_parts, length-header_bytes}
use bonfida_bot.Runtime.{AccountInfo, World, Ledger, put_data, write_data}
use bonfida_bot.Processor.Common.{read_header, write_header, with_tail, assets_begin}
use bonfida_bot.Processor.Headers.{read_header_lem, write_header_lem, put_data_self}
use bonfida_bot.Processor.Settle.{write_asset}
use bonfida_bot.Processor.Redeem.{reset_pool}
use bonfida_bot.Pool.Frame.{Holds, Keeps, keeps_rules}
use bonfida_bot.Pool.Step.{SameFront}
use bonfida_bot.Pool.Front.{with_tail-header, with_tail-SameFront, SameFront-header}

pub same_key : (a b : Pubkey) → (a ≡ b) ⊎ (a ≢ b)
same_key a b = elim (Bool-cases (eq_bytes a b)) [
  | inl same ↦ inl (eq_of_eq_bytes a b same)
  | inr apart ↦ inr (λ e. let apart' = rw (e, eq_bytes_self b) at apart in cc)
]

put_data_owner :
    (key : Pubkey) (bytes : Bytes) (ledger : Ledger)
    → (put_data key bytes ledger key).owner ≡ (ledger key).owner
unfolding put_data
put_data_owner key bytes ledger = rw (eq_bytes_self key) refl

module _ {program_id : Pubkey} where
  -- A write into the account itself.
  pub write_data-Holds :
      (info : AccountInfo) (old new : Bytes) (w w' : World)
      → Holds program_id info.key old w
      → write_data info new w ≡ ok (tt, w')
      → Holds program_id info.key new w'
  write_data-Holds info old new w w' h e =
      let after : record w { ledger = put_data info.key new w.ledger } ≡ w' = cc in
      subst (Holds program_id info.key new) after (record {
        owner = put_data_owner info.key new w.ledger ∙ h.owner;
        content = put_data_self info.key new w.ledger;
      })

  -- The header that is read is the pool's.
  pub read_header-Holds :
      (pool : AccountInfo) (h header : PoolHeader) (rest : Bytes) (w w' : World)
      → Holds program_id pool.key (header_bytes h rest) w
      → IsSized h
      → read_header pool w ≡ ok (header, w')
      → (header ≡ h) × (is_initialized h ≡ true)
  read_header-Holds pool h header rest w w' held v e =
      let e' = sym (read_header_lem pool h rest w v held.content) ∙ e in
      elim (Bool-cases (is_initialized h)) [
        | inl there ↦ let e'' = rw there at e' in (cc, there)
        | inr none_there ↦ let e'' = rw none_there at e' in cc
      ]

  pub write_header-Holds :
      (pool : AccountInfo) (h h' : PoolHeader) (rest : Bytes) (w w' : World)
      → Holds program_id pool.key (header_bytes h rest) w
      → IsSized h
      → IsSized h'
      → write_header pool h' w ≡ ok (tt, w')
      → Holds program_id pool.key (header_bytes h' rest) w'
  write_header-Holds pool h h' rest w w' held v v' e =
      let full : length (header_bytes h []) ≡ header_len =
        omega (arith, length-header_bytes h [] v) in
      let behind : drop header_len (w.ledger pool.key).bytes ≡ rest =
        ap (drop header_len) (held.content ∙ concat-append (header_parts h) rest)
        ∙ drop-append header_len (header_bytes h []) rest full in
      let big : header_len ≤ length (w.ledger pool.key).bytes =
        omega (arith, ap length held.content, length-header_bytes h rest v) in
      let written = write_header_lem pool h' w v' big in
      write_data-Holds pool (header_bytes h rest) (header_bytes h' rest) w w' held
        (subst (λ r. write_data pool (header_bytes h' r) w ≡ ok (tt, w')) behind (sym written ∙ e))

  pub write_asset-Holds :
      (pool : AccountInfo) (h : PoolHeader) (rest : Bytes) (asset : PoolAsset) (i : ℕ)
      (w w' : World)
      → Holds program_id pool.key (header_bytes h rest) w
      → IsSized h
      → write_asset pool h asset i w ≡ ok (tt, w')
      → (rest' : Bytes) × SameFront (32 * h.number_of_markets) rest rest'
        × Holds program_id pool.key (header_bytes h rest') w'
  unfolding write_asset
  write_asset-Holds pool h rest asset i w w' held v e =
      lift-then (with_tail (assets_begin h) (pack_asset_at asset i) (w.ledger pool.key).bytes) _ w e
        λ new changed e.
          let changed' : with_tail (assets_begin h) (pack_asset_at asset i) (header_bytes h rest)
              ≡ ok new =
            ap (with_tail (assets_begin h) (pack_asset_at asset i)) (sym held.content) ∙ changed in
          let same =
            with_tail-SameFront (assets_begin h) (pack_asset_at asset i) (header_bytes h rest) new
              (length-pack_asset_at asset i) changed' (assets_begin h) (omega arith) in
          let (rest', there, front) =
            SameFront-header h rest new (32 * h.number_of_markets) v same in
          (
            rest',
            front,
            write_data-Holds pool (header_bytes h rest) (header_bytes h rest') w w' held
                (subst (λ b. write_data pool b w ≡ ok (tt, w')) there e),
          )

  -- The pool's data are zeroed, and its status is reset.
  pub reset_pool-Holds :
      (pool : AccountInfo) (h : PoolHeader) (rest : Bytes) (w w' : World)
      → Holds program_id pool.key (header_bytes h rest) w
      → IsSized h
      → reset_pool pool h w ≡ ok (tt, w')
      → Holds program_id pool.key
          (header_bytes (record h { status = uninitialized }) (replicate (length rest) 0))
          w'
  unfolding reset_pool
  reset_pool-Holds pool h rest w w' held v e =
      lift-then (with_tail header_len (λ tail. ok (fill_slice tail 0)) (w.ledger pool.key).bytes) _
        w e
        λ new changed e.
          let changed' : with_tail header_len (λ tail. ok (fill_slice tail 0)) (header_bytes h rest)
              ≡ ok new =
            ap (with_tail header_len (λ tail. ok (fill_slice tail 0))) (sym held.content)
            ∙ changed in
          let (zeros, filled, there) =
            with_tail-header h rest new (λ tail. ok (fill_slice tail 0)) v changed' in
          let zeroed : zeros ≡ replicate (length rest) 0 = (let z = fill_slice-zero rest in cc) in
          then (write_data pool new) _ w e λ _ u e1 e2.
            let held' = write_data-Holds pool (header_bytes h rest) new w u held e1 in
            write_header-Holds pool h (record h { status = uninitialized })
              (replicate (length rest) 0) u w'
              (subst (λ b. Holds program_id pool.key b u) (there ∙ ap (header_bytes h) zeroed)
                held')
              v (reset-IsSized h v) e2

module _ {program_id key : Pubkey} where
  -- Another account is not written.
  pub write_header-Keeps :
      (pool : AccountInfo) (h : PoolHeader)
      → key ≢ pool.key
      → Keeps program_id key (write_header pool h)
  unfolding write_header
  write_header-Keeps pool h other = search keeps_rules depth 40

  pub write_asset-Keeps :
      (pool : AccountInfo) (h : PoolHeader) (asset : PoolAsset) (i : ℕ)
      → key ≢ pool.key
      → Keeps program_id key (write_asset pool h asset i)
  unfolding write_asset
  write_asset-Keeps pool h asset i other = search keeps_rules depth 40

  pub reset_pool-Keeps :
      (pool : AccountInfo) (h : PoolHeader)
      → key ≢ pool.key
      → Keeps program_id key (reset_pool pool h)
  unfolding reset_pool
  reset_pool-Keeps pool h other = search (keeps_rules, write_header-Keeps) depth 40
