-- ===== src/Utils.antt =====
-- program/src/utils.rs: the checks that the handlers share, and the fixed-point power.
pub mod Power
use bonfida_bot.Prelude.{
  ℕ, ◌==◌, if◌then◌else◌, lt_wf, ◌*◌, ◌/◌, ◌%◌, ◌^◌, ◌<◌, Bool, not, ◌&&◌, [], ◌∷◌, arith,
}
use bonfida_bot.Outcome.{◌>>=◌, ◌>>◌, Result, invalid_argument, missing_required_signature, fail_if}
use bonfida_bot.Bytes.{Bytes, eq_bytes}
use bonfida_bot.State.{Pubkey, PoolHeader}
use bonfida_bot.Runtime.{Runtime, AccountInfo}
use mathlib.Core.Logic.{dite}
use mathlib.Core.WellFounded.{Acc}
use native.Mathlib.Decide.{dec_lt}

unfoldable pub check_pool_key : Runtime → Pubkey → Pubkey → Bytes → Result (Unit {0})
check_pool_key rt program_id key pool_seed = do
  expected_key ← rt.create_program_address (pool_seed ∷ []) program_id
  fail_if (not (eq_bytes expected_key key)) invalid_argument

unfoldable pub check_signal_provider : PoolHeader → AccountInfo → Bool → Result (Unit {0})
check_signal_provider pool_header account is_signer = do
  fail_if (not (eq_bytes pool_header.signal_provider account.key)) missing_required_signature
  fail_if (is_signer && not account.is_signer) missing_required_signature

-- `for i in 0..target.len() { target[i] = val; }`
unfoldable pub fill_slice : Bytes → ℕ → Bytes
fill_slice [] val = []
fill_slice (b ∷ target) val = val ∷ fill_slice target val

-- A product of two u32, shifted right by 16: the product wraps in the release build.
abbrev pub mul_shift : ℕ → ℕ → ℕ
mul_shift a b = (a * b) % 2 ^ 32 / 2 ^ 16

pub half-lt : (n : ℕ) → 0 < n / 2 → n / 2 < n
half-lt n h = omega arith

-- `n >> 1` falls until it is 0, so the recursion is on its accessibility.
unfoldable pub pow_acc : ℕ → (n : ℕ) → Acc ◌<◌ n → ℕ
pow_acc x n (Acc.intro _ smaller) =
    if n == 1
    then x
    else (dite (dec_lt 0 (n / 2))
        (λ more.
          let p = pow_acc x (n / 2) (smaller (n / 2) (half-lt n more)) in
          let sq = mul_shift p p in if n % 2 == 1 then mul_shift sq x else sq)
        (λ _. x))

unfoldable pub pow_fixedpoint_u16 : ℕ → ℕ → ℕ
unfolding pow_acc lt_wf dec_lt
pow_fixedpoint_u16 x n = pow_acc x n (lt_wf.apply n)
