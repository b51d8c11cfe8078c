-- ===== src/Tests/Ranges.antt =====
-- The fixtures are in the range of their Rust types.
use bonfida_bot.State.Layout.{header_parts}
use bonfida_bot.Prelude.{ℕ, replicate, All, zero, suc, ◌<◌, refl, List, [], ◌∷◌, ◌++◌, arith}
use bonfida_bot.Bytes.{IsByte, to_le_bytes-IsByte, Bytes, IsArray, concat}
use bonfida_bot.State.{status_byte}
use bonfida_bot.State.Header.{IsHeader}
use bonfida_bot.Tests.Fixtures.{key, header, pool_bytes}

pub All-append : (xs ys : Bytes) → All IsByte xs → All IsByte ys → All IsByte (xs ++ ys)
All-append [] ys h k = k
All-append (x ∷ xs) ys (b, h) k = (b, All-append xs ys h k)

pub All-replicate : (n b : ℕ) → b < 256 → All IsByte (replicate n b)
All-replicate zero b h = tt
All-replicate (suc n) b h = (h, All-replicate n b h)

pub key_bytes : (n : ℕ) → n < 256 → All IsByte (key n)
key_bytes n h = All-replicate 32 n h

pub All-concat :
    (ps : List Bytes) (rest : Bytes)
    → All (All IsByte) ps
    → All IsByte rest
    → All IsByte (concat ps rest)
All-concat [] rest h k = k
All-concat (p ∷ ps) rest (b, h) k = All-append p (concat ps rest) b (All-concat ps rest h k)

pub pool_bytes-All : All IsByte pool_bytes
unfolding status_byte
pool_bytes-All =
    All-concat (header_parts header) (key 8 ++ key 7)
      (
        key_bytes 6 (omega arith),
        (
          key_bytes 2 (omega arith),
          (
            key_bytes 5 (omega arith),
            (
              (omega arith, tt),
              (
                to_le_bytes-IsByte 2 1,
                (
                  to_le_bytes-IsByte 2 655,
                  (to_le_bytes-IsByte 8 1000, (to_le_bytes-IsByte 8 604800, tt)),
                ),
              ),
            ),
          ),
        ),
      )
      (All-append (key 8) (key 7) (key_bytes 8 (omega arith)) (key_bytes 7 (omega arith)))

pub key_IsArray : (n : ℕ) → n < 256 → IsArray 32 (key n)
key_IsArray n h = record { size = refl; bytes = key_bytes n h }

pub header-IsHeader : IsHeader header
header-IsHeader = record {
  serum_program_id = key_IsArray 6 (omega arith);
  seed = key_IsArray 2 (omega arith);
  signal_provider = key_IsArray 5 (omega arith);
  status = tt;
  number_of_markets = omega arith;
  fee_ratio = omega arith;
  last_fee_collection_timestamp = omega arith;
  fee_collection_period = omega arith;
}
