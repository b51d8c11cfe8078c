-- ===== src/Bytes/Ints.antt =====
-- Little-endian integers: the round trips.
use bonfida_bot.Prelude.{
  ℕ, zero, suc, ◌+◌, ◌*◌, ◌/◌, ◌%◌, ◌^◌, ◌<◌, ◌≡◌, refl, ap, [], ◌∷◌, length, All, arith,
}
use bonfida_bot.Bytes.Defs.{Bytes, IsByte, to_le_bytes, from_le_bytes}
use native.Mathlib.Nat.{pow-suc}

pub length-to_le_bytes : (k v : ℕ) → length (to_le_bytes k v) ≡ k
unfolding to_le_bytes
length-to_le_bytes zero v = refl
length-to_le_bytes (suc k) v = ap suc (length-to_le_bytes k (v / 256))

pub to_le_bytes-IsByte : (k v : ℕ) → All IsByte (to_le_bytes k v)
unfolding to_le_bytes
to_le_bytes-IsByte zero v = tt
to_le_bytes-IsByte (suc k) v = (omega arith, to_le_bytes-IsByte k (v / 256))

-- An integer that fits its width is read back as it was written.
pub from_le_bytes-to_le_bytes : (k v : ℕ) → v < 256 ^ k → from_le_bytes (to_le_bytes k v) ≡ v
unfolding to_le_bytes from_le_bytes
from_le_bytes-to_le_bytes zero v h = omega arith
from_le_bytes-to_le_bytes (suc k) v h =
    let ih = from_le_bytes-to_le_bytes k (v / 256) (omega (arith, pow-suc 256 k)) in
    omega (arith, ih)

pub from_le_bytes-lt : (bs : Bytes) → All IsByte bs → from_le_bytes bs < 256 ^ length bs
unfolding from_le_bytes
from_le_bytes-lt [] h = omega arith
from_le_bytes-lt (b ∷ bs) (hb, hs) = omega (arith, from_le_bytes-lt bs hs, pow-suc 256 (length bs))

-- And bytes are written back as they were read.
pub to_le_bytes-from_le_bytes :
    (bs : Bytes) → All IsByte bs → to_le_bytes (length bs) (from_le_bytes bs) ≡ bs
unfolding to_le_bytes from_le_bytes
to_le_bytes-from_le_bytes [] h = refl
to_le_bytes-from_le_bytes (b ∷ bs) (hb, hs) =
    let rest = from_le_bytes bs in
    let low : (b + 256 * rest) % 256 ≡ b = omega arith in
    let high : (b + 256 * rest) / 256 ≡ rest = omega arith in
    rw (low, high, to_le_bytes-from_le_bytes bs hs)
