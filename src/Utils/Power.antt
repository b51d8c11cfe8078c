-- ===== src/Utils/Power.antt =====
-- The fixed-point power of `pow_fixedpoint_u16`: it approximates x ^ n / 2 ^ (16 * (n - 1)) from
-- below, for x below 2 ^ 16.
use bonfida_bot.Prelude.{
  ℕ, ◌==◌, if◌then◌else◌, Bool-cases, ◌+◌, ◌-◌, ◌*◌, ◌/◌, ◌%◌, ◌^◌, ◌≤◌, ◌<◌, ◌≡◌, refl, ◌∙◌, inl,
  inr, false, arith, zero, suc, lt_wf, ap,
}
use bonfida_bot.Utils.{pow_acc, mul_shift, half-lt, pow_fixedpoint_u16}
use mathlib.Core.Logic.{dif_pos}
use mathlib.Core.WellFounded.{Acc}
use native.Mathlib.Bridge.{le_prop}
use native.Mathlib.Nat.{pow-suc, pow-zero, mul-le-mul, pow-le-pow_left}
use native.Mathlib.Decide.{dec_lt}

-- The runs of the function: `x` to the power `n` gives `r`.
data Runs (x : ℕ) : ℕ → ℕ → Type 0 where
  base : {n r : ℕ} → n ≤ 1 → r ≡ x → Runs x n r
  even : {n r : ℕ} (q p : ℕ) → 0 < q → n ≡ 2 * q → Runs x q p → r ≡ mul_shift p p → Runs x n r
  odd :
      {n r : ℕ} (q p : ℕ)
      → 0 < q
      → n ≡ 2 * q + 1
      → Runs x q p
      → r ≡ mul_shift (mul_shift p p) x
      → Runs x n r

pow_acc_small : (x n : ℕ) (w : Acc ◌<◌ n) → n ≤ 1 → pow_acc x n w ≡ x
unfolding pow_acc
pow_acc_small x n (Acc.intro _ smaller) h = ground arith

pow_acc_large :
    (x n : ℕ) (smaller : (m : ℕ) → m < n → Acc ◌<◌ m) (more : 0 < n / 2)
    → let p = pow_acc x (n / 2) (smaller (n / 2) (half-lt n more)) in
      pow_acc x n (Acc.intro n smaller)
      ≡ (if n % 2 == 1 then mul_shift (mul_shift p p) x else mul_shift p p)
unfolding pow_acc
pow_acc_large x n smaller more =
    let big : (n == 1) ≡ false = ground arith in
    rw (big, dif_pos (dec_lt 0 (n / 2)) le_prop more) refl

pow_acc-Runs : (x n : ℕ) (w : Acc ◌<◌ n) → Runs x n (pow_acc x n w)
pow_acc-Runs x n (Acc.intro _ smaller) = elim (dec_lt 0 (n / 2)) [
  | no last ↦ base (omega arith) (pow_acc_small x n (Acc.intro n smaller) (omega arith))
  | yes more ↦
      let w = smaller (n / 2) (half-lt n more) in
      let step = pow_acc_large x n smaller more in
      elim (Bool-cases (n % 2 == 1)) [
        | inl is_odd ↦
            odd (n / 2) (pow_acc x (n / 2) w) more (ground arith)
              (pow_acc-Runs x (n / 2) (smaller (n / 2) (half-lt n more))) (step ∙ rw is_odd)
        | inr is_even ↦
            even (n / 2) (pow_acc x (n / 2) w) more (ground arith)
              (pow_acc-Runs x (n / 2) (smaller (n / 2) (half-lt n more))) (step ∙ rw is_even)
      ]
]

pow_add : (a m n : ℕ) → a ^ (m + n) ≡ a ^ m * a ^ n
pow_add a zero n = let same : 0 + n ≡ n = omega arith in rw (same, pow-zero a) (omega arith)
pow_add a (suc m) n =
    let same : suc m + n ≡ suc (m + n) = omega arith in
    rw (same, pow-suc a (m + n), pow-suc a m, pow_add a m n) (omega arith)

-- What `mul_shift` computes on two factors below 2 ^ 16: the u32 product does not overflow.
pub mul_shift_bounds :
    (a b : ℕ)
    → a < 2 ^ 16
    → b < 2 ^ 16
    → (mul_shift a b ≤ b)
      × (mul_shift a b * 2 ^ 16 ≤ a * b)
      × (a * b ≤ (mul_shift a b + 1) * 2 ^ 16)
      × (a * b < 2 ^ 32)
mul_shift_bounds a b ha hb = let left : a * b ≤ 65535 * b = grind arith in omega arith

-- `r` is `x` to the power `n` in units of 2 ^ 16: not above it, and less than `n` units below it.
abbrev pub Approximates : ℕ → ℕ → ℕ → Type 0
Approximates x n r =
    (r ≤ x) × (r * (2 ^ 16) ^ n ≤ x ^ n * 2 ^ 16) × (x ^ n * 2 ^ 16 ≤ (r + (n - 1)) * (2 ^ 16) ^ n)

mono : (k : ℕ) {a b : ℕ} → a ≤ b → a * k ≤ b * k
mono k h = grind arith

-- Squaring: the error doubles and grows by one unit.
double_upper :
    (x p r X B : ℕ) → p * B ≤ X * 2 ^ 16 → r * 2 ^ 16 ≤ p * p → r * (B * B) ≤ X * X * 2 ^ 16
double_upper x p r X B a m = omega (arith, mono (B * B) m, mul-le-mul a a)

double_lower :
    (x p r e X B : ℕ)
    → p ≤ 2 ^ 16
    → X ≤ B
    → X * 2 ^ 16 ≤ (p + e) * B
    → p * p ≤ (r + 1) * 2 ^ 16
    → X * X * 2 ^ 16 ≤ (r + (1 + 2 * e)) * (B * B)
double_lower x p r e X B hp small l m = omega (
  arith,
  mono (X * 2 ^ 16) l,
  mono (p * B) l,
  mono (e * (B * B)) hp,
  mono (e * B) small,
  mono (B * B) m,
)

pow-le : (x n : ℕ) → x < 2 ^ 16 → x ^ n ≤ (2 ^ 16) ^ n
pow-le x n h = pow-le-pow_left (omega arith) n

double :
    (x q p : ℕ) → x < 2 ^ 16 → 0 < q → Approximates x q p → Approximates x (q + q) (mul_shift p p)
double x q p hx hq (le, upper, lower) =
    let (small, below, above, fits) = mul_shift_bounds p p (omega arith) (omega arith) in
    let e : q + q - 1 ≡ 1 + 2 * (q - 1) = omega arith in
    rw (pow_add x q q, pow_add (2 ^ 16) q q, e)
      (
        omega arith,
        double_upper x p (mul_shift p p) (x ^ q) ((2 ^ 16) ^ q) upper below,
        double_lower x p (mul_shift p p) (q - 1) (x ^ q) ((2 ^ 16) ^ q) (omega arith)
            (pow-le x q hx) lower above,
      )

-- Multiplying by `x` once more: the error grows by one unit.
times_upper :
    (x s r X B : ℕ) → s * B ≤ X * 2 ^ 16 → r * 2 ^ 16 ≤ s * x → r * (B * 2 ^ 16) ≤ X * x * 2 ^ 16
times_upper x s r X B a m = omega (arith, mono B m, mono x a)

times_lower :
    (x s r e X B : ℕ)
    → x ≤ 2 ^ 16
    → X * 2 ^ 16 ≤ (s + e) * B
    → s * x ≤ (r + 1) * 2 ^ 16
    → X * x * 2 ^ 16 ≤ (r + (e + 1)) * (B * 2 ^ 16)
times_lower x s r e X B hx l m = omega (arith, mono x l, mono B m, mono (e * B) hx)

times :
    (x m s : ℕ) → x < 2 ^ 16 → 0 < m → Approximates x m s → Approximates x (suc m) (mul_shift s x)
times x m s hx hm (le, upper, lower) =
    let (small, below, above, fits) = mul_shift_bounds s x (omega arith) hx in
    let e : suc m - 1 ≡ m - 1 + 1 = omega arith in
    rw (pow-suc x m, pow-suc (2 ^ 16) m, e)
      (
        small,
        times_upper x s (mul_shift s x) (x ^ m) ((2 ^ 16) ^ m) upper below,
        times_lower x s (mul_shift s x) (m - 1) (x ^ m) ((2 ^ 16) ^ m) (omega arith) lower above,
      )

pow_one : (a : ℕ) → a ^ 1 ≡ a
pow_one a = pow-suc a 0 ∙ ap (λ k. k * a) (pow-zero a) ∙ omega arith

once : (x : ℕ) → Approximates x 1 x
once x = rw (pow_one x) (omega arith)

Runs-Approximates : (x : ℕ) {n r : ℕ} → x < 2 ^ 16 → 0 < n → Runs x n r → Approximates x n r
Runs-Approximates x {n} hx hn (base le e) = let same : n ≡ 1 = omega arith in rw (same, e) (once x)
Runs-Approximates x {n} hx hn (even q p hq en run er) =
    let same : n ≡ q + q = omega arith in
    rw (same, er) (double x q p hx hq (Runs-Approximates x hx hq run))
Runs-Approximates x {n} hx hn (odd q p hq en run er) =
    let same : n ≡ suc (q + q) = omega arith in
    rw (same, er)
      (times x (q + q) (mul_shift p p) hx (omega arith)
        (double x q p hx hq (Runs-Approximates x hx hq run)))

-- For x below 2 ^ 16 and at least one cycle, the result is at most `x`, never above the exact
-- power, and less than `n` units of 2 ^ -16 below it.
pub pow_fixedpoint_u16-Approximates :
    (x n : ℕ) → x < 2 ^ 16 → 0 < n → Approximates x n (pow_fixedpoint_u16 x n)
unfolding pow_fixedpoint_u16
pow_fixedpoint_u16-Approximates x n hx hn =
    Runs-Approximates x hx hn (pow_acc-Runs x n (lt_wf.apply n))
