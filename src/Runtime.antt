-- ===== src/Runtime.antt =====
-- What the program is given: the accounts of the ledger, the other programs, and the crates that
-- stand outside the repository (solana_program, spl_token, spl_associated_token_account and
-- serum_dex). The latter are the fields of the record `Runtime`, which every handler takes.
-- A handler is an action on the `World`. If it fails, the runtime drops all that it has done, so
-- a failure carries no state.
pub mod Inversion
pub mod Progress
pub mod Tokens
use bonfida_bot.Prelude.{
  ℕ, if◌then◌else◌, Bool, Option, List, [], ◌∷◌, ◌++◌, ◌≡◌, refl, true, false, arith,
}
use bonfida_bot.Outcome.{Result, ProgramError, not_enough_account_keys, ok, err, panicked, fail_if}
use bonfida_bot.Bytes.{Bytes, eq_bytes}
use bonfida_bot.State.{Pubkey}
use bonfida_bot.Instruction.{Side}
use Prim.Native.String.{String}

-- What an account is on the ledger.
pub record AccountState : Type 0 where
  pub owner : Pubkey
  pub lamports : ℕ
  pub bytes : Bytes

-- An `AccountInfo`: the account's own fields are looked up by its key, so that two entries for
-- one account share its data.
pub record AccountInfo : Type 0 where
  pub key : Pubkey
  pub is_signer : Bool
  pub is_writable : Bool

pub record AccountMeta : Type 0 where
  pub pubkey : Pubkey
  pub is_signer : Bool
  pub is_writable : Bool

pub record Instruction : Type 0 where
  pub program_id : Pubkey
  pub accounts : List AccountMeta
  pub bytes : Bytes

-- One call of `invoke` or `invoke_signed`.
pub record Invocation : Type 0 where
  pub instruction : Instruction
  pub account_infos : List AccountInfo
  pub signers_seeds : List (List Bytes)

abbrev pub Ledger : Type 0
Ledger = Pubkey → AccountState

-- The ledger, and the calls into other programs that have been made, in order.
pub record World : Type 0 where
  pub ledger : Ledger
  pub calls : List Invocation

-- The parts of spl_token's `Account` and `Mint` that the program reads.
pub record TokenAccount : Type 0 where
  pub mint : Pubkey
  pub owner : Pubkey
  pub amount : ℕ
  pub has_delegate : Bool
  pub has_close_authority : Bool

pub record Mint : Type 0 where
  pub supply : ℕ

pub record Runtime : Type 0 where
  -- solana_program
  pub create_program_address : List Bytes → Pubkey → Result Pubkey
  pub from_str : String → Option Pubkey
  pub minimum_balance : AccountInfo → AccountState → Result (ℕ → ℕ)
  -- `Clock::from_account_info(…)?.unix_timestamp as u64`
  pub unix_timestamp : AccountInfo → AccountState → Result ℕ
  pub invoke_signed : Instruction → List AccountInfo → List (List Bytes) → Ledger → Result Ledger
  pub create_account : Pubkey → Pubkey → ℕ → ℕ → Pubkey → Instruction
  -- spl_token and spl_associated_token_account
  pub spl_token_id : Pubkey
  pub mint_len : ℕ
  pub unpack_account : Bytes → Result TokenAccount
  pub unpack_mint : Bytes → Result Mint
  pub get_associated_token_address : Pubkey → Pubkey → Pubkey
  pub initialize_mint : Pubkey → Pubkey → Pubkey → Option Pubkey → ℕ → Result Instruction
  pub mint_to : Pubkey → Pubkey → Pubkey → Pubkey → List Pubkey → ℕ → Result Instruction
  pub transfer : Pubkey → Pubkey → Pubkey → Pubkey → List Pubkey → ℕ → Result Instruction
  pub burn : Pubkey → Pubkey → Pubkey → Pubkey → List Pubkey → ℕ → Result Instruction
  -- serum_dex: the keys in the order of the arguments
  pub cancel_order : List Pubkey → Side → ℕ → Result Instruction
  pub settle_funds : List Pubkey → Option Pubkey → Pubkey → Result Instruction

abbrev pub Action : Type 0 → Type 0
Action A = World → Result (A × World)

module _ {A : Type 0} where
  abbrev pub pure : A → Action A
  pure a w = ok (a, w)

  -- A step that only looks at its arguments.
  abbrev pub lift : Result A → Action A
  lift r w = elim r [ ok a ↦ ok (a, w) | err e ↦ err e | panicked ↦ panicked ]

-- What follows a step, if it succeeded.
abbrev pub continue : {A B : Type 0} → Result (A × World) → (A → Action B) → Result (B × World)
continue (ok (a, w)) f = f a w
continue (err e) f = err e
continue panicked f = panicked

infixl 5 ◌>>=◌ ◌>>◌
abbrev pub ◌>>=◌ : {A B : Type 0} → Action A → (A → Action B) → Action B
◌>>=◌ m f w = continue (m w) f

abbrev pub ◌>>◌ : {A B : Type 0} → Action A → Action B → Action B
m >> k = m >>= λ _. k

-- `if c { return Err(e) }`
abbrev pub require_not : Bool → ProgramError → Action (Unit {0})
require_not c e = lift (fail_if c e)

-- `account.data.borrow()`
abbrev pub data_of : AccountInfo → Action Bytes
data_of info w = ok ((w.ledger info.key).bytes, w)

abbrev pub owner_of : AccountInfo → Action Pubkey
owner_of info w = ok ((w.ledger info.key).owner, w)

-- The ledger with an account's data given anew.
unfoldable pub put_data : Pubkey → Bytes → Ledger → Ledger
put_data key bytes ledger k =
    if eq_bytes k key then record (ledger k) { bytes = bytes } else ledger k

-- Writing through `account.data.borrow_mut()`.
abbrev pub write_data : AccountInfo → Bytes → Action (Unit {0})
write_data info bytes w = ok (tt, record w { ledger = put_data info.key bytes w.ledger })

-- `next_account_info`
abbrev pub next_account_info : List AccountInfo → Result (AccountInfo × List AccountInfo)
next_account_info [] = err not_enough_account_keys
next_account_info (a ∷ rest) = ok (a, rest)

module _ (rt : Runtime) where
  abbrev pub invoke_signed : Instruction → List AccountInfo → List (List Bytes) → Action (Unit {0})
  invoke_signed instruction infos seeds w =
      elim (rt.invoke_signed instruction infos seeds w.ledger) [
        | ok ledger ↦ ok (
          tt,
          record {
            ledger = ledger;
            calls =
                w.calls
                ++ (record {
                  instruction = instruction;
                  account_infos = infos;
                  signers_seeds = seeds;
                }
                    ∷ []);
          },
        )
        | err e ↦ err e
        | panicked ↦ panicked
      ]

  -- `invoke` signs with no seeds.
  abbrev pub invoke : Instruction → List AccountInfo → Action (Unit {0})
  invoke instruction infos = invoke_signed instruction infos []

continue-eq-ok :
    {A B : Type 0} (r : Result (A × World)) (f : A → Action B) {b : B} {w' : World}
    → continue r f ≡ ok (b, w')
    → (a : A) × (v : World) × (r ≡ ok (a, v)) × (f a v ≡ ok (b, w'))
continue-eq-ok (ok (a, v)) f h = (a, v, refl, h)
continue-eq-ok (err e) f h = cc
continue-eq-ok panicked f h = cc

-- Inversion of an action that succeeded.
pub >>=-eq-ok :
    {A B : Type 0} (m : Action A) (f : A → Action B) (w : World) {b : B} {w' : World}
    → (m >>= f) w ≡ ok (b, w')
    → (a : A) × (v : World) × (m w ≡ ok (a, v)) × (f a v ≡ ok (b, w'))
>>=-eq-ok m f w h = continue-eq-ok (m w) f h

-- A step that only looks at its arguments leaves the world as it is.
pub lift-eq-ok :
    {A : Type 0} (r : Result A) (w : World) {a : A} {w' : World}
    → lift r w ≡ ok (a, w')
    → (r ≡ ok a) × (w ≡ w')
lift-eq-ok (ok a) w h = ground arith
lift-eq-ok (err e) w h = cc
lift-eq-ok panicked w h = cc

-- A check that was passed.
pub require_not-eq-ok :
    (c : Bool) (e : ProgramError) (w : World) {u : Unit {0}} {w' : World}
    → require_not c e w ≡ ok (u, w')
    → (c ≡ false) × (w ≡ w')
require_not-eq-ok true e w h = cc
require_not-eq-ok false e w h = (refl, ground arith)
