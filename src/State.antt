-- ===== src/State.antt =====
-- program/src/state.rs: the pool account's data. It holds a header of 117 bytes, then 32 bytes for
-- each market, then 32 bytes for each asset. A method that writes through `&mut [u8]` takes the
-- buffer and returns it. `Pubkey` is the 32 bytes that it wraps.
pub mod Header
pub mod Layout
pub mod Status
use bonfida_bot.Prelude.{
  ℕ, zero, suc, ◌+◌, ◌-◌, ◌/◌, bit_and, bit_or, Bool, true, false, not, Option, none, some, [], ◌∷◌,
  ◌==◌, if◌then◌else◌, length,
}
use bonfida_bot.Outcome.{
  invalid_argument, invalid_account_data, uninitialized_account, Result, ok, err, ◌>>=◌, ◌>>◌,
  fail_if, ok_or,
}
use bonfida_bot.Bytes.{Bytes, index, copy_from_slice, to_le_bytes, from_le_bytes}

abbrev pub Pubkey : Type 0
Pubkey = Bytes

abbrev pub pubkey_length : ℕ
pubkey_length = 32

-- `PoolHeader::LEN`, `PoolAsset::LEN`
abbrev pub header_len : ℕ
header_len = 117

abbrev pub asset_len : ℕ
asset_len = 32

pub record PoolAsset : Type 0 where
  pub mint_address : Pubkey

-- The argument of the last two is a `NonZeroU8`.
pub data PoolStatus : Type 0 where
  uninitialized unlocked locked : PoolStatus
  pending_order locked_pending_order : ℕ → PoolStatus

pub record PoolHeader : Type 0 where
  pub serum_program_id : Pubkey
  pub seed : Bytes
  pub signal_provider : Pubkey
  pub status : PoolStatus
  pub number_of_markets : ℕ
  pub fee_ratio : ℕ
  pub last_fee_collection_timestamp : ℕ
  pub fee_collection_period : ℕ

-- 1 << 6, 0x3f, 2 << 6
abbrev pub status_pending_order_flag : ℕ
status_pending_order_flag = 64

abbrev pub status_pending_order_mask : ℕ
status_pending_order_mask = 0x3f

abbrev pub status_locked_flag : ℕ
status_locked_flag = 128

abbrev pub status_unlocked_flag : ℕ
status_unlocked_flag = status_pending_order_mask

-- The byte that `pack_into_slice` writes for a status.
unfoldable pub status_byte : PoolStatus → ℕ
status_byte uninitialized = 0
status_byte unlocked = status_unlocked_flag
status_byte locked = status_locked_flag
status_byte (pending_order n) =
    bit_or status_pending_order_flag (bit_and status_pending_order_mask (n - 1))
status_byte (locked_pending_order n) =
    bit_or (bit_or status_locked_flag status_pending_order_flag)
      (bit_and status_pending_order_mask (n - 1))

-- `NonZeroU8::new`
abbrev pub non_zero : ℕ → Option ℕ
non_zero zero = none
non_zero (suc n) = some (suc n)

-- The status that `unpack_from_slice` reads from its byte.
unfoldable pub status_of_byte : ℕ → Result PoolStatus
status_of_byte b =
    let pending = ok_or (non_zero (bit_and b status_pending_order_mask + 1)) invalid_argument in
    if b == 0
    then ok uninitialized
    else if b / 64 == 0
    then ok unlocked
    else if b / 64 == 1
    then (do n ← pending; ok (pending_order n))
    else if b / 64 == 2
    then ok locked
    else if b / 64 == 3
    then (do n ← pending; ok (locked_pending_order n))
    else err invalid_account_data

-- `PoolHeader::pack_into_slice`
unfoldable pub pack_into_slice : PoolHeader → Bytes → Result Bytes
pack_into_slice h target = do
  target ← copy_from_slice 0 32 h.serum_program_id target
  target ← copy_from_slice 32 64 h.seed target
  target ← copy_from_slice 64 96 h.signal_provider target
  target ← copy_from_slice 96 97 (status_byte h.status ∷ []) target
  target ← copy_from_slice 97 99 (to_le_bytes 2 h.number_of_markets) target
  target ← copy_from_slice 99 101 (to_le_bytes 2 h.fee_ratio) target
  target ← copy_from_slice 101 109 (to_le_bytes 8 h.last_fee_collection_timestamp) target
  copy_from_slice 109 117 (to_le_bytes 8 h.fee_collection_period) target

-- `PoolHeader::unpack_from_slice`
unfoldable pub unpack_from_slice : Bytes → Result PoolHeader
unpack_from_slice src = do
  serum_program_id ← index 0 32 src
  seed ← index 32 64 src
  signal_provider ← index 64 96 src
  byte ← index 96 97 src
  status ← status_of_byte (from_le_bytes byte)
  number_of_markets ← index 97 99 src
  fee_ratio ← index 99 101 src
  last_fee_collection_timestamp ← index 101 109 src
  fee_collection_period ← index 109 117 src
  ok (record {
    serum_program_id = serum_program_id;
    seed = seed;
    signal_provider = signal_provider;
    status = status;
    number_of_markets = from_le_bytes number_of_markets;
    fee_ratio = from_le_bytes fee_ratio;
    last_fee_collection_timestamp = from_le_bytes last_fee_collection_timestamp;
    fee_collection_period = from_le_bytes fee_collection_period;
  })

-- `PoolHeader::is_initialized`
unfoldable pub is_initialized : PoolHeader → Bool
is_initialized h = elim h.status [ uninitialized ↦ false | _ ↦ true ]

-- `PoolHeader::unpack_unchecked`
unfoldable pub unpack_unchecked : Bytes → Result PoolHeader
unpack_unchecked input = do
  fail_if (not (length input == header_len)) invalid_account_data
  unpack_from_slice input

-- `PoolHeader::unpack`
unfoldable pub unpack : Bytes → Result PoolHeader
unpack input = do
  value ← unpack_unchecked input
  if is_initialized value then ok value else err uninitialized_account

-- `PoolHeader::pack`
unfoldable pub pack : PoolHeader → Bytes → Result Bytes
pack src dst = do
  fail_if (not (length dst == header_len)) invalid_account_data
  pack_into_slice src dst
