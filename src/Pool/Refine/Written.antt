-- ===== src/Pool/Refine/Written.antt =====
-- The bytes that `process_create` writes: the header of the new pool stands in front of them.
use bonfida_bot.Pool.Sizes.{length-pack_markets, write_assets-SameFront}
use bonfida_bot.Instruction.Range.{IsCreation}
use bonfida_bot.Instruction.{Creation}
use bonfida_bot.Prelude.{
  ◌+◌, ◌*◌, ◌≤◌, ◌≡◌, ◌∙◌, ap, sym, List, [], ◌∷◌, arith, length, drop, length-drop, ◌%◌, ◌^◌, ◌<◌,
  ℕ,
}
use bonfida_bot.Outcome.{ok}
use bonfida_bot.Bytes.{Bytes, to_le_bytes, copy_from_slice}
use bonfida_bot.State.{
  Pubkey, PoolHeader, PoolAsset, header_len, pack_into_slice, status_byte, pubkey_length, unlocked,
}
use bonfida_bot.State.Layout.{header_bytes, IsSized, pack_into_slice_lem, length-header_bytes}
use bonfida_bot.Assets.{pack_markets}
use bonfida_bot.Processor.Common.{with_tail}
use bonfida_bot.Processor.Create.{write_pool, write_assets, CreateAccounts}
use bonfida_bot.Pool.Front.{
  >>=-eq-ok, ok-inj, copy_from_slice-eq-ok, with_tail-header, with_tail-SameFront, SameFront-header,
}

-- Packing a header succeeds only if the keys have their size, and the buffer has room.
pack_into_slice-eq-ok :
    (h : PoolHeader) (xs ys : Bytes)
    → pack_into_slice h xs ≡ ok ys
    → (length h.serum_program_id ≡ 32)
      × (length h.seed ≡ 32)
      × (length h.signal_provider ≡ 32)
      × (header_len ≤ length xs)
unfolding pack_into_slice
pack_into_slice-eq-ok h xs ys e =
    let (x1, e1, e) = >>=-eq-ok (copy_from_slice 0 32 h.serum_program_id xs) _ e in
    let (x2, e2, e) = >>=-eq-ok (copy_from_slice 32 64 h.seed x1) _ e in
    let (x3, e3, e) = >>=-eq-ok (copy_from_slice 64 96 h.signal_provider x2) _ e in
    let (x4, e4, e) = >>=-eq-ok (copy_from_slice 96 97 (status_byte h.status ∷ []) x3) _ e in
    let (x5, e5, e) =
      >>=-eq-ok (copy_from_slice 97 99 (to_le_bytes 2 h.number_of_markets) x4) _ e in
    let (x6, e6, e) = >>=-eq-ok (copy_from_slice 99 101 (to_le_bytes 2 h.fee_ratio) x5) _ e in
    let (x7, e7, e) =
      >>=-eq-ok (copy_from_slice 101 109 (to_le_bytes 8 h.last_fee_collection_timestamp) x6) _ e in
    let (l1, s1, _) = copy_from_slice-eq-ok 0 32 h.serum_program_id xs x1 e1 in
    let (l2, s2, _) = copy_from_slice-eq-ok 32 64 h.seed x1 x2 e2 in
    let (l3, s3, _) = copy_from_slice-eq-ok 64 96 h.signal_provider x2 x3 e3 in
    let (l4, _, _) = copy_from_slice-eq-ok 96 97 (status_byte h.status ∷ []) x3 x4 e4 in
    let (l5, _, _) = copy_from_slice-eq-ok 97 99 (to_le_bytes 2 h.number_of_markets) x4 x5 e5 in
    let (l6, _, _) = copy_from_slice-eq-ok 99 101 (to_le_bytes 2 h.fee_ratio) x5 x6 e6 in
    let (l7, _, _) =
      copy_from_slice-eq-ok 101 109 (to_le_bytes 8 h.last_fee_collection_timestamp) x6 x7 e7 in
    let (_, _, big) =
      copy_from_slice-eq-ok 109 117 (to_le_bytes 8 h.fee_collection_period) x7 ys e in
    (omega arith, omega arith, omega arith, omega arith)

-- What is written behind the header does not reach it.
pub write_pool-eq-ok :
    (h : PoolHeader) (markets : List Pubkey) (assets : List PoolAsset) (xs ys : Bytes)
    → IsSized h
    → write_pool h markets assets xs ≡ ok ys
    → (rest : Bytes) × (ys ≡ header_bytes h rest) × (length ys ≡ length xs)
unfolding write_pool
write_pool-eq-ok h markets assets xs ys v e =
    let (zs, e1, e) = >>=-eq-ok (pack_into_slice h xs) _ e in
    let (_, _, _, big) = pack_into_slice-eq-ok h xs zs e1 in
    let there : header_bytes h (drop header_len xs) ≡ zs =
      ok-inj (sym (pack_into_slice_lem h xs v big) ∙ e1) in
    let (us, e2, e3) =
      >>=-eq-ok (with_tail header_len (λ tail. pack_markets tail markets) zs) _ e in
    let e2' = ap (with_tail header_len (λ tail. pack_markets tail markets)) there ∙ e2 in
    let (rest, _, there') =
      with_tail-header h (drop header_len xs) us (λ tail. pack_markets tail markets) v e2' in
    let same =
      with_tail-SameFront header_len (λ tail. pack_markets tail markets) zs us
        (length-pack_markets markets) e2 0 (omega arith) in
    let start = header_len + pubkey_length * length markets in
    let same' =
      write_assets-SameFront start assets (header_bytes h rest) ys (header_len + 0) (omega arith)
        (ap (write_assets start assets) (sym there') ∙ e3) in
    let (rest', there'', _) = SameFront-header h rest ys 0 v same' in
    (
      rest',
      there'',
      omega (
        arith,
        same.size,
        same'.size,
        ap length there',
        ap length there,
        length-header_bytes h (drop header_len xs) v,
        length-drop header_len xs,
      ),
    )

-- The header that is written.
abbrev pub new_header : CreateAccounts → ℕ → Creation → PoolHeader
new_header a now c = record {
  serum_program_id = a.serum_program.key;
  seed = c.pool_seed;
  signal_provider = a.signal_provider.key;
  status = unlocked;
  number_of_markets = length c.markets % 2 ^ 16;
  fee_ratio = c.fee_ratio;
  last_fee_collection_timestamp = now;
  fee_collection_period = c.fee_collection_period;
}

pub new_header-IsSized :
    (a : CreateAccounts) (now : ℕ) (c : Creation) (assets : List PoolAsset) (xs ys : Bytes)
    → IsCreation c
    → now < 2 ^ 64
    → write_pool (new_header a now c) c.markets assets xs ≡ ok ys
    → IsSized (new_header a now c)
unfolding write_pool
new_header-IsSized a now c assets xs ys v fits e =
    let (zs, packed, _) = >>=-eq-ok (pack_into_slice (new_header a now c) xs) _ e in
    let (id, seed, provider, _) = pack_into_slice-eq-ok (new_header a now c) xs zs packed in
    record {
      serum_program_id = id;
      seed = seed;
      signal_provider = provider;
      status = tt;
      number_of_markets = omega arith;
      fee_ratio = v.fee_ratio;
      last_fee_collection_timestamp = fits;
      fee_collection_period = v.fee_collection_period;
    }
