-- ===== src/Processor/Headers.antt =====
-- The header in a pool account's data, as the handlers read and write it.
use bonfida_bot.State.Layout.{
  header_bytes, IsSized, header_parts, unpack_from_slice-header_bytes, pack_into_slice_lem,
  length-header_bytes,
}
use bonfida_bot.Outcome
use bonfida_bot.Prelude.{
  ℕ, if◌then◌else◌, ==_iff, Bool-cases, length, take, drop, length-take, length-drop,
  take-append-drop, ◌≤◌, ◌≡◌, refl, sym, ap, ◌∙◌, inl, inr, some, [], ◌∷◌, ◌++◌, arith, All, subst,
  append-nil, leb, ◌<◌,
}
use bonfida_bot.Outcome.{ok, uninitialized_account, err, Result}
use bonfida_bot.Bytes.{
  Bytes, slice, copy_from_slice, slice_middle, concat-append, copy_middle, eq_bytes_self, IsByte,
  slice_in_range, slice_out_of_range,
}
use bonfida_bot.State.{PoolHeader, Pubkey, header_len, is_initialized, unpack_unchecked, unpack}
use bonfida_bot.State.Header.{IsHeader, unpack_total}
use bonfida_bot.Runtime.{AccountInfo, Ledger, World, put_data}
use bonfida_bot.Processor.Common.{read_header, write_header, with_tail}

nil_of_length : (xs : Bytes) → length xs ≡ 0 → xs ≡ []
nil_of_length [] h = refl
nil_of_length (x ∷ xs) h = absurd (omega arith)

-- The data that a write leaves in the account.
pub put_data_self :
    (key : Pubkey) (bytes : Bytes) (ledger : Ledger) → (put_data key bytes ledger key).bytes ≡ bytes
unfolding put_data
put_data_self key bytes ledger = rw (eq_bytes_self key) refl

front_part : (n : ℕ) (data' : Bytes) → n ≤ length data' → slice 0 n data' ≡ some (take n data')
unfolding slice
front_part n data' h = ground arith

copy_front :
    (old new : Bytes)
    → length new ≡ header_len
    → header_len ≤ length old
    → copy_from_slice 0 header_len new old ≡ ok (new ++ drop header_len old)
copy_front old new hn ho =
    ap (copy_from_slice 0 header_len new) (sym (take-append-drop header_len old))
    ∙ copy_middle [] (take header_len old) new (drop header_len old) 0 header_len refl
        (omega (arith, length-take header_len old)) (omega (arith, length-take header_len old))

-- Writing a valid header replaces the first 117 bytes of the account's data by it.
pub write_header_lem :
    (pool : AccountInfo) (header : PoolHeader) (w : World)
    → IsSized header
    → header_len ≤ length (w.ledger pool.key).bytes
    → write_header pool header w
      ≡ ok (
        tt,
        record w {
          ledger =
              put_data pool.key
                (header_bytes header (drop header_len (w.ledger pool.key).bytes))
                w.ledger;
        },
      )
unfolding write_header
write_header_lem pool header w v big =
    let old = (w.ledger pool.key).bytes in
    let front = take header_len old in
    let size : length front ≡ header_len = omega (arith, length-take header_len old) in
    let empty : drop header_len front ≡ [] =
      nil_of_length _ (omega (arith, length-drop header_len front)) in
    let full : length (header_bytes header []) ≡ header_len =
      omega (arith, length-header_bytes header [] v) in
    rw (
      front_part header_len old big,
      pack_into_slice_lem header front v (omega arith),
      empty,
      copy_front old (header_bytes header []) full big,
      ← concat-append (header_parts header) (drop header_len old),
    )

-- Reading the header finds what was written, unless it is not initialized.
pub read_header_lem :
    (pool : AccountInfo) (header : PoolHeader) (rest : Bytes) (w : World)
    → IsSized header
    → (w.ledger pool.key).bytes ≡ header_bytes header rest
    → read_header pool w
      ≡ (if is_initialized header then ok (header, w) else err uninitialized_account)
unfolding read_header unpack unpack_unchecked
read_header_lem pool header rest w v e =
    let full : length (header_bytes header []) ≡ header_len =
      omega (arith, length-header_bytes header [] v) in
    let read : slice 0 header_len (header_bytes header rest) ≡ some (header_bytes header []) =
      ap (slice 0 header_len) (concat-append (header_parts header) rest)
      ∙ slice_middle [] (header_bytes header []) rest 0 header_len refl (omega arith) in
    rw
      (
        e,
        read,
        (==_iff (length (header_bytes header [])) header_len).1 full,
        unpack_from_slice-header_bytes header [] v,
      )
      (elim (Bool-cases (is_initialized header)) [ inl y ↦ rw y refl | inr n ↦ rw n refl ])

-- A header that was read from bytes is valid.
pub read_header-IsHeader :
    (pool : AccountInfo) (header : PoolHeader) (w w' : World)
    → All IsByte (w.ledger pool.key).bytes
    → read_header pool w ≡ ok (header, w')
    → IsHeader header
unfolding read_header
read_header-IsHeader pool header w w' bytes h =
    elim (Bool-cases (leb header_len (length (w.ledger pool.key).bytes))) [
      | inl fits ↦
          let big : header_len ≤ length (w.ledger pool.key).bytes = ground arith in
          let (front, e, a) =
            slice_in_range 0 header_len (w.ledger pool.key).bytes (omega arith) big bytes in
          let h' = rw e at h in
          elim (unpack_total front a) [
            | inl (h1, e1, v1, _) ↦
                let same : h1 ≡ header = (let h'' = rw e1 at h' in cc) in subst IsHeader same v1
            | inr e1 ↦ let h'' = rw e1 at h' in cc
          ]
      | inr short ↦
          let small : length (w.ledger pool.key).bytes < header_len = ground arith in
          let h' = rw (slice_out_of_range 0 header_len (w.ledger pool.key).bytes small) at h in cc
    ]

-- A change of the bytes behind `start`.
pub with_tail_lem :
    (start : ℕ) (change : Bytes → Result Bytes) (data' : Bytes)
    → start ≤ length data'
    → with_tail start change data'
      ≡ (Outcome.◌>>=◌ (change (drop start data')) λ tail. ok (take start data' ++ tail))
unfolding with_tail
with_tail_lem start change data' big =
    let whole : data' ≡ take start data' ++ (drop start data' ++ []) =
      sym (take-append-drop start data') ∙ ap (λ l. take start data' ++ l) (sym (append-nil _)) in
    let read : slice start (length data') data' ≡ some (drop start data') =
      ap (slice start (length data')) whole
      ∙ slice_middle (take start data') (drop start data') [] start (length data')
          (omega (arith, length-take start data')) (omega (arith, length-drop start data')) in
    rw read refl
