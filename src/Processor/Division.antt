-- ===== src/Processor/Division.antt =====
-- What the handlers' divisions yield.
use bonfida_bot.Prelude.{ℕ, zero, suc, ◌+◌, ◌*◌, ◌/◌, ◌≤◌, ◌<◌, ◌≡◌, ap, arith, subst}
use bonfida_bot.Outcome.{ok}
use bonfida_bot.Processor.Common.{div_or_panic}
use native.Mathlib.Nat.{div-mul-le_self, lt-div-mul-add, div-eq_of_lt}

-- A division that succeeded had a divisor, and rounds down.
pub div_or_panic-eq-ok :
    (a b q : ℕ) → div_or_panic a b ≡ ok q → (0 < b) × (q * b ≤ a) × (a < q * b + b)
div_or_panic-eq-ok a zero q h = cc
div_or_panic-eq-ok a (suc b) q h =
    let same : a / suc b ≡ q = cc in
    (
      ground arith,
      subst (λ x. x * suc b ≤ a) same (div-mul-le_self a (suc b)),
      subst (λ x. a < x * suc b + suc b) same (lt-div-mul-add (ground arith)),
    )

-- A division by a divisor that is not 0 of less than one divisor yields 0.
pub div_or_panic_small : (a b : ℕ) → a < b → div_or_panic a b ≡ ok 0
div_or_panic_small a zero h = ground arith
div_or_panic_small a (suc b) h = ap ok (div-eq_of_lt h)
