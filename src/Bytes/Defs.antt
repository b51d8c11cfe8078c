-- ===== src/Bytes/Defs.antt =====
-- Rust's slice and integer primitives.
use bonfida_bot.Prelude.{
  ℕ, zero, suc, ◌+◌, ◌-◌, ◌*◌, ◌/◌, ◌%◌, ◌<◌, ◌≡◌, Bool, true, false, ◌&&◌, Option, none, some,
  List, [], ◌∷◌, ◌++◌, length, take, drop, All, leb, ◌==◌, if◌then◌else◌,
}
use bonfida_bot.Outcome.{Result, ok, panicked, unwrap}

abbrev pub Bytes : Type 0
Bytes = List ℕ

abbrev pub IsByte : ℕ → Type 0
IsByte b = b < 256

-- An array `[u8; n]`.
pub record IsArray (n : ℕ) (xs : Bytes) : Type 0 where
  pub size : length xs ≡ n
  pub bytes : All IsByte xs

-- `xs.get(lo..hi)`
unfoldable pub slice : ℕ → ℕ → Bytes → Option Bytes
slice lo hi xs =
    if leb lo hi && leb hi (length xs) then some (take (hi - lo) (drop lo xs)) else none

-- `&xs[lo..hi]`
abbrev pub index : ℕ → ℕ → Bytes → Result Bytes
index lo hi xs = unwrap (slice lo hi xs)

-- `xs[lo..hi].copy_from_slice(src)`
unfoldable pub copy_from_slice : ℕ → ℕ → Bytes → Bytes → Result Bytes
copy_from_slice lo hi src xs =
    if leb lo hi && leb hi (length xs) && (length src == hi - lo)
    then ok (take lo xs ++ (src ++ drop hi xs))
    else panicked

-- `v.to_le_bytes()` of a k-byte integer.
unfoldable pub to_le_bytes : ℕ → ℕ → Bytes
to_le_bytes zero v = []
to_le_bytes (suc k) v = v % 256 ∷ to_le_bytes k (v / 256)

-- `from_le_bytes`
unfoldable pub from_le_bytes : Bytes → ℕ
from_le_bytes [] = 0
from_le_bytes (b ∷ bs) = b + 256 * from_le_bytes bs

-- `a == b` on byte arrays, and so on public keys.
abbrev pub eq_bytes : Bytes → Bytes → Bool
eq_bytes [] [] = true
eq_bytes [] (b ∷ bs) = false
eq_bytes (a ∷ as') [] = false
eq_bytes (a ∷ as') (b ∷ bs) = (a == b) && eq_bytes as' bs
