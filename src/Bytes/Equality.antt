-- ===== src/Bytes/Equality.antt =====
-- Equality of byte arrays as a Boolean test.
use bonfida_bot.Prelude.{◌≡◌, ◌↔◌, refl, true, [], ◌∷◌, arith}
use bonfida_bot.Bytes.Defs.{Bytes, eq_bytes}

pub eq_bytes_self : (a : Bytes) → eq_bytes a a ≡ true
eq_bytes_self [] = refl
eq_bytes_self (x ∷ a) = ground (arith, eq_bytes_self a)

pub eq_of_eq_bytes : (a b : Bytes) → eq_bytes a b ≡ true → a ≡ b
eq_of_eq_bytes [] [] h = refl
eq_of_eq_bytes [] (y ∷ b) h = cc
eq_of_eq_bytes (x ∷ a) [] h = cc
eq_of_eq_bytes (x ∷ a) (y ∷ b) h = ground (arith, eq_of_eq_bytes a b)

pub eq_bytes_iff : (a b : Bytes) → (eq_bytes a b ≡ true) ↔ (a ≡ b)
eq_bytes_iff a b = (eq_of_eq_bytes a b, λ e. rw e (eq_bytes_self b))
