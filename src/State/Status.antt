-- ===== src/State/Status.antt =====
-- The status byte of the pool header: it is read back as written, and every byte is a status.
use bonfida_bot.Prelude.{
  ℕ, zero, suc, ◌+◌, ◌-◌, ◌/◌, ◌%◌, ◌≤◌, ◌<◌, bit_and, bit_or, ◌≡◌, refl, ap, ◌∙◌, ◌≢◌, ◌⊎◌, inl,
  inr, Bool, true, ◌&&◌, some, arith, ◌==◌, ==_iff,
}
use bonfida_bot.Outcome.{ok}
use bonfida_bot.State.{
  PoolStatus, uninitialized, unlocked, locked, pending_order, locked_pending_order, non_zero,
  status_byte, status_of_byte,
}

-- The range that the enum's comment gives: 1 to 64 pending orders.
abbrev pub IsStatus : PoolStatus → Type 0
IsStatus (pending_order n) = (1 ≤ n) × (n ≤ 64)
IsStatus (locked_pending_order n) = (1 ≤ n) × (n ≤ 64)
IsStatus _ = Unit

-- Two functions that agree on every number below a bound, by evaluation.
all_below : ℕ → (ℕ → Bool) → Bool
all_below zero p = true
all_below (suc n) p = p n && all_below n p

all_below_sound : (n : ℕ) (p : ℕ → Bool) → all_below n p ≡ true → (x : ℕ) → x < n → p x ≡ true
unfolding all_below
all_below_sound zero p h x lt = absurd (omega arith)
all_below_sound (suc n) p h x lt = ground (arith, all_below_sound n p (ground arith) x)

agree_below :
    (f g : ℕ → ℕ) (n : ℕ) → all_below n (λ x. f x == g x) ≡ true → (x : ℕ) → x < n → f x ≡ g x
agree_below f g n h x lt = (==_iff _ _).0 (all_below_sound n (λ y. f y == g y) h x lt)

pub pending_flag : (n : ℕ) → n < 64 → bit_or 64 (bit_and 0x3f n) ≡ 64 + n
unfolding all_below
pending_flag = agree_below (λ n. bit_or 64 (bit_and 0x3f n)) (λ n. 64 + n) 64 refl

pub locked_flag : (n : ℕ) → n < 64 → bit_or (bit_or 128 64) (bit_and 0x3f n) ≡ 192 + n
unfolding all_below
locked_flag = agree_below (λ n. bit_or (bit_or 128 64) (bit_and 0x3f n)) (λ n. 192 + n) 64 refl

pub low_bits : (b : ℕ) → b < 256 → bit_and b 0x3f ≡ b % 64
unfolding all_below
low_bits = agree_below (λ b. bit_and b 0x3f) (λ b. b % 64) 256 refl

pub status_byte-lt : (s : PoolStatus) → IsStatus s → status_byte s < 256
unfolding status_byte
status_byte-lt uninitialized h = omega arith
status_byte-lt unlocked h = omega arith
status_byte-lt locked h = omega arith
status_byte-lt (pending_order n) h = omega (arith, pending_flag (n - 1) (omega arith))
status_byte-lt (locked_pending_order n) h = omega (arith, locked_flag (n - 1) (omega arith))

non_zero_suc : (n : ℕ) → non_zero (n + 1) ≡ some (n + 1)
non_zero_suc n = let e : n + 1 ≡ suc n = omega arith in rw e

read_pending : (b : ℕ) → b < 256 → b / 64 ≡ 1 → status_of_byte b ≡ ok (pending_order (b % 64 + 1))
unfolding status_of_byte
read_pending b h e = rw (low_bits b h) (ground (arith, non_zero_suc (b % 64)))

read_locked_pending :
    (b : ℕ) → b < 256 → b / 64 ≡ 3 → status_of_byte b ≡ ok (locked_pending_order (b % 64 + 1))
unfolding status_of_byte
read_locked_pending b h e = rw (low_bits b h) (ground (arith, non_zero_suc (b % 64)))

-- Every status with 1 to 64 pending orders is read back from the byte that is written for it.
pub status_of_byte-status_byte :
    (s : PoolStatus) → IsStatus s → status_of_byte (status_byte s) ≡ ok s
unfolding status_byte
status_of_byte-status_byte uninitialized h = unfold status_of_byte in refl
status_of_byte-status_byte unlocked h = unfold status_of_byte in refl
status_of_byte-status_byte locked h = unfold status_of_byte in refl
status_of_byte-status_byte (pending_order n) h =
    let e : (64 + (n - 1)) % 64 + 1 ≡ n = omega arith in
    ap status_of_byte (pending_flag (n - 1) (omega arith))
    ∙ read_pending (64 + (n - 1)) (omega arith) (omega arith)
    ∙ ap (λ k. ok (pending_order k)) e
status_of_byte-status_byte (locked_pending_order n) h =
    let e : (192 + (n - 1)) % 64 + 1 ≡ n = omega arith in
    ap status_of_byte (locked_flag (n - 1) (omega arith))
    ∙ read_locked_pending (192 + (n - 1)) (omega arith) (omega arith)
    ∙ ap (λ k. ok (locked_pending_order k)) e

read_unlocked : (b : ℕ) → b ≢ 0 → b / 64 ≡ 0 → status_of_byte b ≡ ok unlocked
unfolding status_of_byte
read_unlocked b n e = ground arith

read_locked : (b : ℕ) → b / 64 ≡ 2 → status_of_byte b ≡ ok locked
unfolding status_of_byte
read_locked b e = ground arith

quarter-cases :
    (b : ℕ)
    → b < 256
    → (b ≡ 0) ⊎ ((b ≢ 0) × (b / 64 ≡ 0)) ⊎ (b / 64 ≡ 1) ⊎ (b / 64 ≡ 2) ⊎ (b / 64 ≡ 3)
quarter-cases b h = grind arith

-- Every byte is read as a status in the range: the error branches of the match are never taken.
pub status_of_byte_total :
    (b : ℕ) → b < 256 → (s : PoolStatus) × (status_of_byte b ≡ ok s) × IsStatus s
status_of_byte_total b h = elim (quarter-cases b h) [
  | inl z ↦ (uninitialized, rw z (unfold status_of_byte in refl), tt)
  | inr (inl (n, e)) ↦ (unlocked, read_unlocked b n e, tt)
  | inr (inr (inl e)) ↦ (pending_order (b % 64 + 1), read_pending b h e, omega arith)
  | inr (inr (inr (inl e))) ↦ (locked, read_locked b e, tt)
  | inr (inr (inr (inr e))) ↦
      (locked_pending_order (b % 64 + 1), read_locked_pending b h e, omega arith)
]
