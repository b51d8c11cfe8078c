-- ===== src/Runtime/Tokens.antt =====
-- The token program (spl_token), as far as the handlers rely on it: the documented behaviour of
-- its instructions `transfer`, `burn` and `mint_to` on the ledger, as the hypothesis of the
-- theorems that tell when a handler succeeds.
use bonfida_bot.Prelude.{◌⊎◌, ℕ, ◌+◌, ◌-◌, ◌^◌, ◌≤◌, ◌<◌, ◌≡◌, ◌≢◌, List, [], ◌∷◌, true}
use bonfida_bot.Outcome.{ok}
use bonfida_bot.Bytes.{Bytes}
use bonfida_bot.State.{Pubkey}
use bonfida_bot.Runtime.{
  Runtime, Ledger, AccountInfo, AccountState, TokenAccount, Mint, Instruction,
}

-- An authority signs by itself, or the program signs for it by a seed.
pub data Signs (rt : Runtime) (program_id : Pubkey) (authority : AccountInfo)
    : List (List Bytes) → Type 0 where
  itself :
      (seeds : List (List Bytes)) → authority.is_signer ≡ true → Signs rt program_id authority seeds
  by_seed :
      (seed : Bytes)
      → rt.create_program_address (seed ∷ []) program_id ≡ ok authority.key
      → Signs rt program_id authority ((seed ∷ []) ∷ [])

-- The account is passed as writable, and holds these tokens. What else the token program asks of
-- it, such as that it owns it and that it is not frozen, is `Usable`.
pub record IsAccount (rt : Runtime) (Usable : AccountState → Type 0) (ledger : Ledger)
    (info : AccountInfo) (t : TokenAccount) : Type 0 where
  pub unpacked : rt.unpack_account (ledger info.key).bytes ≡ ok t
  pub writable : info.is_writable ≡ true
  pub usable : Usable (ledger info.key)

pub record IsMint (rt : Runtime) (Usable : AccountState → Type 0) (ledger : Ledger)
    (info : AccountInfo) (m : Mint) : Type 0 where
  pub unpacked : rt.unpack_mint (ledger info.key).bytes ≡ ok m
  pub writable : info.is_writable ≡ true
  pub usable : Usable (ledger info.key)

-- The amount of an account, and the supply of a mint, on the ledger.
abbrev pub Holding : Runtime → Ledger → Pubkey → TokenAccount → ℕ → Type 0
Holding rt ledger key t n = rt.unpack_account (ledger key).bytes ≡ ok (record t { amount = n })

abbrev pub Supply : Runtime → Ledger → Pubkey → ℕ → Type 0
Supply rt ledger key n = rt.unpack_mint (ledger key).bytes ≡ ok (record { supply = n })

-- The account is passed to the call.
abbrev pub Among : AccountInfo → List AccountInfo → Type 0
Among info [] = ⊥
Among info (x ∷ infos) = (info ≡ x) ⊎ Among info infos

-- All accounts but two are as before.
abbrev pub Others : Ledger → Ledger → Pubkey → Pubkey → Type 0
Others ledger ledger' a b = (k : Pubkey) → k ≢ a → k ≢ b → ledger' k ≡ ledger k

module _ (rt : Runtime) where
  -- Calling the instruction succeeds.
  abbrev pub Runs : Instruction → List AccountInfo → List (List Bytes) → Ledger → Ledger → Type 0
  Runs i infos seeds ledger ledger' = rt.invoke_signed i infos seeds ledger ≡ ok ledger'

pub record IsToken (rt : Runtime) (program_id : Pubkey) (Usable : AccountState → Type 0)
    : Type 0 where
  -- Tokens of one mint are moved, if the accounts are passed, in any order, the source's owner signs, the source has them, and the
  -- target's amount stays a u64.
  pub transfers :
      (spl from to authority : AccountInfo) (infos : List AccountInfo) (seeds : List (List Bytes))
      (n : ℕ) (ledger : Ledger) (t u : TokenAccount)
      → spl.key ≡ rt.spl_token_id
      → (Among spl infos × Among from infos × Among to infos × Among authority infos)
      → IsAccount rt Usable ledger from t
      → IsAccount rt Usable ledger to u
      → from.key ≢ to.key
      → t.mint ≡ u.mint
      → t.owner ≡ authority.key
      → Signs rt program_id authority seeds
      → n ≤ t.amount
      → u.amount + n < 2 ^ 64
      → (i : Instruction) × (ledger' : Ledger) × (rt.transfer spl.key from.key to.key authority.key
            [] n
          ≡ ok i)
        × Runs rt i infos seeds ledger ledger'
        × Holding rt ledger' from.key t (t.amount - n)
        × Holding rt ledger' to.key u (u.amount + n)
        × Usable (ledger' from.key)
        × Usable (ledger' to.key)
        × Others ledger ledger' from.key to.key
  -- Tokens are burnt, if their owner signs and has them.
  pub burns :
      (spl from mint authority : AccountInfo) (seeds : List (List Bytes)) (n : ℕ) (ledger : Ledger)
      (t : TokenAccount) (m : Mint)
      → spl.key ≡ rt.spl_token_id
      → IsAccount rt Usable ledger from t
      → IsMint rt Usable ledger mint m
      → from.key ≢ mint.key
      → t.mint ≡ mint.key
      → t.owner ≡ authority.key
      → Signs rt program_id authority seeds
      → n ≤ t.amount
      → n ≤ m.supply
      → (i : Instruction) × (ledger' : Ledger) × (rt.burn spl.key from.key mint.key authority.key []
            n
          ≡ ok i)
        × Runs rt i (spl ∷ from ∷ mint ∷ authority ∷ []) seeds ledger ledger'
        × Holding rt ledger' from.key t (t.amount - n)
        × Supply rt ledger' mint.key (m.supply - n)
        × Others ledger ledger' from.key mint.key

-- Minting, too: the mint's authority signs, and the supply and the target's amount stay a u64.
-- `Authority` tells who the mint's authority is.
pub record IsMinting (rt : Runtime) (program_id : Pubkey) (Usable : AccountState → Type 0)
    (Authority : AccountState → Pubkey → Type 0) : Type 0 where
  pub mints :
      (spl mint to authority : AccountInfo) (seeds : List (List Bytes)) (n : ℕ) (ledger : Ledger)
      (m : Mint) (u : TokenAccount)
      → spl.key ≡ rt.spl_token_id
      → IsMint rt Usable ledger mint m
      → IsAccount rt Usable ledger to u
      → mint.key ≢ to.key
      → u.mint ≡ mint.key
      → Authority (ledger mint.key) authority.key
      → Signs rt program_id authority seeds
      → m.supply + n < 2 ^ 64
      → u.amount + n < 2 ^ 64
      → (i : Instruction) × (ledger' : Ledger) × (rt.mint_to spl.key mint.key to.key authority.key
            [] n
          ≡ ok i)
        × Runs rt i (spl ∷ mint ∷ to ∷ authority ∷ []) seeds ledger ledger'
        × Supply rt ledger' mint.key (m.supply + n)
        × Holding rt ledger' to.key u (u.amount + n)
        × Usable (ledger' mint.key)
        × Usable (ledger' to.key)
        × Authority (ledger' mint.key) authority.key
        × Others ledger ledger' mint.key to.key
