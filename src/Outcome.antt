-- ===== src/Outcome.antt =====
-- program/src/error.rs, and how a function of the program ends: with a value, with a
-- `ProgramError`, or with a panic. A panic aborts the transaction as an error does, but it is not
-- a value that the code can return, so it is told apart.
use bonfida_bot.Prelude.{ℕ, Bool, true, false, Option, none, some}

pub data BonfidaBotError : Type 0 where
  invalid_instruction overflow locked_operation not_enough_fida operation_too_small :
      BonfidaBotError

-- The errors of solana_program that the code returns; `external` is one that only a call into
-- another program or crate returns.
pub data ProgramError : Type 0 where
  custom : ℕ → ProgramError
  invalid_argument invalid_account_data uninitialized_account incorrect_program_id : ProgramError
  missing_required_signature insufficient_funds not_enough_account_keys : ProgramError
  external : ℕ → ProgramError

-- `e as u32`: the place of the variant in the enum.
abbrev pub discriminant : BonfidaBotError → ℕ
discriminant invalid_instruction = 0
discriminant overflow = 1
discriminant locked_operation = 2
discriminant not_enough_fida = 3
discriminant operation_too_small = 4

-- `impl From<BonfidaBotError> for ProgramError`
abbrev pub to_program_error : BonfidaBotError → ProgramError
to_program_error e = custom (discriminant e)

pub data Result {ℓ} (A : Type ℓ) : Type ℓ where
  panicked : Result A
  err : ProgramError → Result A
  ok : A → Result A

-- `?`, with what follows it.
infixl 5 ◌>>=◌ ◌>>◌
abbrev pub ◌>>=◌ {ℓ κ} : {A : Type ℓ} {B : Type κ} → Result A → (A → Result B) → Result B
panicked >>= rest = panicked
err e >>= rest = err e
ok value >>= rest = rest value

abbrev pub ◌>>◌ {ℓ} : {B : Type ℓ} → Result (Unit {0}) → Result B → Result B
check >> rest = check >>= λ checked. rest

-- `if c { return Err(e) }`
abbrev pub fail_if : Bool → ProgramError → Result (Unit {0})
fail_if true e = err e
fail_if false e = ok tt

-- `o.ok_or(e)?`
abbrev pub ok_or {ℓ} : {A : Type ℓ} → Option A → ProgramError → Result A
ok_or none e = err e
ok_or (some a) e = ok a

-- `o.unwrap()`
abbrev pub unwrap {ℓ} : {A : Type ℓ} → Option A → Result A
unwrap none = panicked
unwrap (some a) = ok a

-- `r.unwrap()`
abbrev pub unwrap_result {ℓ} : {A : Type ℓ} → Result A → Result A
unwrap_result (ok a) = ok a
unwrap_result (err e) = panicked
unwrap_result panicked = panicked
