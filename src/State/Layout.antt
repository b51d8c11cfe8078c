-- ===== src/State/Layout.antt =====
-- The layout of the pool header in its 117 bytes.
use bonfida_bot.Prelude.{ℕ, ◌+◌, ◌^◌, ◌≤◌, ◌<◌, ◌≡◌, refl, List, [], ◌∷◌, arith, length, take, drop}
use bonfida_bot.Outcome.{ok}
use bonfida_bot.Bytes.{
  Bytes, to_le_bytes, from_le_bytes, length-to_le_bytes, from_le_bytes-to_le_bytes, concat,
  slice-concat, length-concat, copy-concat,
}
use bonfida_bot.State.{header_len, PoolHeader, status_byte, pack_into_slice, unpack_from_slice}
use bonfida_bot.State.Status.{IsStatus, status_of_byte-status_byte}

-- The parts of a header have their sizes: keys and seed 32 bytes, the numbers their widths, and
-- 1 to 64 pending orders.
pub record IsSized (h : PoolHeader) : Type 0 where
  pub serum_program_id : length h.serum_program_id ≡ 32
  pub seed : length h.seed ≡ 32
  pub signal_provider : length h.signal_provider ≡ 32
  pub status : IsStatus h.status
  pub number_of_markets : h.number_of_markets < 2 ^ 16
  pub fee_ratio : h.fee_ratio < 2 ^ 16
  pub last_fee_collection_timestamp : h.last_fee_collection_timestamp < 2 ^ 64
  pub fee_collection_period : h.fee_collection_period < 2 ^ 64

-- The eight parts of the layout.
abbrev pub header_parts : PoolHeader → List Bytes
header_parts h =
    h.serum_program_id
    ∷ h.seed
    ∷ h.signal_provider
    ∷ (status_byte h.status ∷ [])
    ∷ to_le_bytes 2 h.number_of_markets
    ∷ to_le_bytes 2 h.fee_ratio
    ∷ to_le_bytes 8 h.last_fee_collection_timestamp
    ∷ to_le_bytes 8 h.fee_collection_period
    ∷ []

-- The parts' lengths, which determine every offset.
abbrev IsLaidOut : PoolHeader → Type 0
IsLaidOut h =
    (length h.serum_program_id ≡ 32)
    × (length h.seed ≡ 32)
    × (length h.signal_provider ≡ 32)
    × (length (to_le_bytes 2 h.number_of_markets) ≡ 2)
    × (length (to_le_bytes 2 h.fee_ratio) ≡ 2)
    × (length (to_le_bytes 8 h.last_fee_collection_timestamp) ≡ 8)
    × (length (to_le_bytes 8 h.fee_collection_period) ≡ 8)

laid_out : (h : PoolHeader) → IsSized h → IsLaidOut h
laid_out h v = (
  v.serum_program_id,
  v.seed,
  v.signal_provider,
  length-to_le_bytes 2 _,
  length-to_le_bytes 2 _,
  length-to_le_bytes 8 _,
  length-to_le_bytes 8 _,
)

-- The bytes of a header, in front of the rest of the account's data.
abbrev pub header_bytes : PoolHeader → Bytes → Bytes
header_bytes h rest = concat (header_parts h) rest

from_byte : (b : ℕ) → from_le_bytes (b ∷ []) ≡ b
unfolding from_le_bytes
from_byte b = omega arith

-- A header is read back from its bytes, whatever follows them.
pub unpack_from_slice-header_bytes :
    (h : PoolHeader) (rest : Bytes) → IsSized h → unpack_from_slice (header_bytes h rest) ≡ ok h
unfolding unpack_from_slice
unpack_from_slice-header_bytes h rest v =
    let l = laid_out h v in
    rw (
      slice-concat (header_parts h) rest 0 0 32 h.serum_program_id refl (omega arith) (omega arith),
      slice-concat (header_parts h) rest 1 32 64 h.seed refl (omega arith) (omega arith),
      slice-concat (header_parts h) rest 2 64 96 h.signal_provider refl (omega arith) (omega arith),
      slice-concat (header_parts h) rest 3 96 97 (status_byte h.status ∷ []) refl (omega arith)
          (omega arith),
      from_byte (status_byte h.status),
      status_of_byte-status_byte h.status v.status,
      slice-concat (header_parts h) rest 4 97 99 (to_le_bytes 2 h.number_of_markets) refl
          (omega arith) (omega arith),
      slice-concat (header_parts h) rest 5 99 101 (to_le_bytes 2 h.fee_ratio) refl (omega arith)
          (omega arith),
      slice-concat (header_parts h) rest 6 101 109 (to_le_bytes 8 h.last_fee_collection_timestamp)
          refl (omega arith) (omega arith),
      slice-concat (header_parts h) rest 7 109 117 (to_le_bytes 8 h.fee_collection_period) refl
          (omega arith) (omega arith),
      from_le_bytes-to_le_bytes 2 h.number_of_markets (omega arith),
      from_le_bytes-to_le_bytes 2 h.fee_ratio (omega arith),
      from_le_bytes-to_le_bytes 8 h.last_fee_collection_timestamp (omega arith),
      from_le_bytes-to_le_bytes 8 h.fee_collection_period (omega arith),
    )

-- Packing writes exactly the header's 117 bytes and keeps what stands behind them.
pub pack_into_slice_lem :
    (h : PoolHeader) (target : Bytes)
    → IsSized h
    → header_len ≤ length target
    → pack_into_slice h target ≡ ok (header_bytes h (drop header_len target))
unfolding pack_into_slice
pack_into_slice_lem h target v big =
    let l = laid_out h v in
    let p = header_parts h in
    rw
      (
        copy-concat target [] h.serum_program_id 0 32 refl (omega arith) (omega arith),
        copy-concat target (take 1 p) h.seed 32 64 (omega arith) (omega arith) (omega arith),
        copy-concat target (take 2 p) h.signal_provider 64 96 (omega arith) (omega arith)
            (omega arith),
        copy-concat target (take 3 p) (status_byte h.status ∷ []) 96 97 (omega arith) (omega arith)
            (omega arith),
        copy-concat target (take 4 p) (to_le_bytes 2 h.number_of_markets) 97 99 (omega arith)
            (omega arith) (omega arith),
        copy-concat target (take 5 p) (to_le_bytes 2 h.fee_ratio) 99 101 (omega arith) (omega arith)
            (omega arith),
        copy-concat target (take 6 p) (to_le_bytes 8 h.last_fee_collection_timestamp) 101 109
            (omega arith) (omega arith) (omega arith),
      )
      (copy-concat target (take 7 p) (to_le_bytes 8 h.fee_collection_period) 109 117 (omega arith)
        (omega arith) (omega arith))

pub length-header_bytes :
    (h : PoolHeader) (rest : Bytes)
    → IsSized h
    → length (header_bytes h rest) ≡ header_len + length rest
length-header_bytes h rest v =
    let l = laid_out h v in omega (arith, length-concat (header_parts h) rest)
