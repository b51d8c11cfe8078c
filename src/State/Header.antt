-- ===== src/State/Header.antt =====
-- The pool header in its 117 bytes: round trip, and what unpacking guarantees.
use bonfida_bot.State.Layout.{
  header_bytes, IsSized, unpack_from_slice-header_bytes, pack_into_slice_lem, length-header_bytes,
}
use bonfida_bot.Prelude.{
  ℕ, ◌^◌, ◌≤◌, ◌<◌, ◌≡◌, ◌≢◌, ◌⊎◌, inl, inr, true, arith, if◌then◌else◌, ==_iff, Bool-cases, length,
  drop, All, length-drop,
}
use bonfida_bot.Outcome.{invalid_account_data, uninitialized_account, ok, err, ◌>>=◌}
use bonfida_bot.Bytes.{Bytes, IsByte, IsArray, from_le_bytes, from_le_bytes-lt, slice_in_range}
use bonfida_bot.State.{
  header_len, PoolHeader, unpack_from_slice, is_initialized, unpack_unchecked, unpack, pack,
}
use bonfida_bot.State.Status.{IsStatus, status_of_byte_total}

-- A header as Rust's types allow it, with 1 to 64 pending orders.
pub record IsHeader (h : PoolHeader) : Type 0 where
  pub serum_program_id : IsArray 32 h.serum_program_id
  pub seed : IsArray 32 h.seed
  pub signal_provider : IsArray 32 h.signal_provider
  pub status : IsStatus h.status
  pub number_of_markets : h.number_of_markets < 2 ^ 16
  pub fee_ratio : h.fee_ratio < 2 ^ 16
  pub last_fee_collection_timestamp : h.last_fee_collection_timestamp < 2 ^ 64
  pub fee_collection_period : h.fee_collection_period < 2 ^ 64

pub IsHeader-IsSized : (h : PoolHeader) → IsHeader h → IsSized h
IsHeader-IsSized h v = record {
  serum_program_id = v.serum_program_id.size;
  seed = v.seed.size;
  signal_provider = v.signal_provider.size;
  status = v.status;
  number_of_markets = v.number_of_markets;
  fee_ratio = v.fee_ratio;
  last_fee_collection_timestamp = v.last_fee_collection_timestamp;
  fee_collection_period = v.fee_collection_period;
}

-- A header that is packed into 117 bytes is unpacked again, unless it is not initialized; then
-- unpacking is refused.
pub unpack-pack_header :
    (h : PoolHeader) (dst : Bytes)
    → IsHeader h
    → length dst ≡ header_len
    → (pack h dst >>= unpack) ≡ (if is_initialized h then ok h else err uninitialized_account)
unfolding pack unpack unpack_unchecked
unpack-pack_header h dst v size =
    let rest = drop header_len dst in
    let total : length (header_bytes h rest) ≡ header_len =
      omega
        (arith, length-header_bytes h rest (IsHeader-IsSized h v), length-drop header_len dst) in
    rw (
      (==_iff (length dst) header_len).1 size,
      pack_into_slice_lem h dst (IsHeader-IsSized h v) (omega arith),
      (==_iff (length (header_bytes h rest)) header_len).1 total,
      unpack_from_slice-header_bytes h rest (IsHeader-IsSized h v),
    )

-- A buffer of any other size is refused, by packing and by unpacking.
pub pack_wrong_size :
    (h : PoolHeader) (buffer : Bytes)
    → length buffer ≢ header_len
    → (pack h buffer ≡ err invalid_account_data) × (unpack buffer ≡ err invalid_account_data)
unfolding pack unpack unpack_unchecked
pack_wrong_size h buffer size = ground arith

from_le_bytes_bound : (k : ℕ) (part : Bytes) → IsArray k part → from_le_bytes part < 256 ^ k
from_le_bytes_bound k part a = rw a.size at (from_le_bytes-lt part a.bytes)

-- `unpack_from_slice` never fails on a long enough buffer, and its fields are in range.
pub unpack_from_slice_total :
    (src : Bytes)
    → header_len ≤ length src
    → All IsByte src
    → (h : PoolHeader) × (unpack_from_slice src ≡ ok h) × IsHeader h
unfolding unpack_from_slice
unpack_from_slice_total src big bytes =
    let (id, e0, a0) = slice_in_range 0 32 src (omega arith) (omega arith) bytes in
    let (seed, e1, a1) = slice_in_range 32 64 src (omega arith) (omega arith) bytes in
    let (provider, e2, a2) = slice_in_range 64 96 src (omega arith) (omega arith) bytes in
    let (byte, e3, a3) = slice_in_range 96 97 src (omega arith) (omega arith) bytes in
    let (markets, e4, a4) = slice_in_range 97 99 src (omega arith) (omega arith) bytes in
    let (ratio, e5, a5) = slice_in_range 99 101 src (omega arith) (omega arith) bytes in
    let (last, e6, a6) = slice_in_range 101 109 src (omega arith) (omega arith) bytes in
    let (period, e7, a7) = slice_in_range 109 117 src (omega arith) (omega arith) bytes in
    let (status, e, ranged) =
      status_of_byte_total (from_le_bytes byte) (from_le_bytes_bound 1 byte a3) in
    (
      record {
        serum_program_id = id;
        seed = seed;
        signal_provider = provider;
        status = status;
        number_of_markets = from_le_bytes markets;
        fee_ratio = from_le_bytes ratio;
        last_fee_collection_timestamp = from_le_bytes last;
        fee_collection_period = from_le_bytes period;
      },
      rw (e0, e1, e2, e3, e, e4, e5, e6, e7),
      record {
        serum_program_id = a0;
        seed = a1;
        signal_provider = a2;
        status = ranged;
        number_of_markets = from_le_bytes_bound 2 markets a4;
        fee_ratio = from_le_bytes_bound 2 ratio a5;
        last_fee_collection_timestamp = from_le_bytes_bound 8 last a6;
        fee_collection_period = from_le_bytes_bound 8 period a7;
      },
    )

-- Any 117 bytes unpack to a header whose fields are in range, or are refused because the header
-- is not initialized.
pub unpack_total :
    (src : Bytes)
    → IsArray header_len src
    → ((h : PoolHeader) × (unpack src ≡ ok h) × IsHeader h × (is_initialized h ≡ true))
      ⊎ (unpack src ≡ err uninitialized_account)
unfolding unpack unpack_unchecked
unpack_total src a =
    let (h, e, v) = unpack_from_slice_total src (omega arith) a.bytes in
    rw ((==_iff (length src) header_len).1 a.size, e)
      (elim (Bool-cases (is_initialized h)) [
        | inl yes_it_is ↦ inl (h, rw yes_it_is, v, yes_it_is)
        | inr not_yet ↦ inr (rw not_yet)
      ])
