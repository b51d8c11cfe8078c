-- ===== src/Pool/Frame.antt =====
-- Actions that leave the data of one account of the program as they are, one rule for each way
-- to build an action.
use bonfida_bot.Processor.Reads.{
  read_header-eq-ok, asset_bytes-eq-ok, mint_supply-eq-ok, token_account-eq-ok,
}
use bonfida_bot.Bytes.{Bytes, eq_bytes, eq_of_eq_bytes}
use bonfida_bot.Prelude.{
  ℕ, Bool-cases, ◌^◌, ◌<◌, ◌≡◌, refl, subst, ap, ◌∙◌, ◌≢◌, inl, inr, Bool, List, [], arith,
}
use bonfida_bot.Outcome.{ok, ProgramError, Result, fail_if}
use bonfida_bot.State.{Pubkey, PoolHeader}
use bonfida_bot.Runtime.{
  Runtime, ◌>>=◌, put_data, >>=-eq-ok, AccountState, AccountInfo, Instruction, Ledger, World,
  Action, pure, lift, require_not, data_of, owner_of, write_data, invoke_signed, lift-eq-ok, invoke,
}
use bonfida_bot.Processor.Common.{
  read_header, asset_bytes, timestamp, token_account, mint_supply, mint_pool_tokens,
}

-- What the runtime guarantees: only an account's owner changes its data or its owner, so that a
-- call of another program, which may not enter this one again, leaves the accounts of this program
-- as they are; and the clock's time is a u64. Solana lets a program call itself directly: such calls
-- are assumed not to be made.
pub record IsRuntime (rt : Runtime) (program_id : Pubkey) : Type 0 where
  pub calls_others :
      (instruction : Instruction) (infos : List AccountInfo) (seeds : List (List Bytes))
      (ledger ledger' : Ledger)
      → rt.invoke_signed instruction infos seeds ledger ≡ ok ledger'
      → instruction.program_id ≢ program_id
  pub keeps_accounts :
      (instruction : Instruction) (infos : List AccountInfo) (seeds : List (List Bytes))
      (ledger ledger' : Ledger) (key : Pubkey)
      → instruction.program_id ≢ program_id
      → rt.invoke_signed instruction infos seeds ledger ≡ ok ledger'
      → (ledger key).owner ≡ program_id
      → ((ledger' key).owner ≡ program_id) × ((ledger' key).bytes ≡ (ledger key).bytes)
  pub time_fits :
      (info : AccountInfo) (state : AccountState) (now : ℕ)
      → rt.unix_timestamp info state ≡ ok now
      → now < 2 ^ 64

-- The account is the program's, with these data.
pub record Holds (program_id key : Pubkey) (bytes : Bytes) (w : World) : Type 0 where
  pub owner : (w.ledger key).owner ≡ program_id
  pub content : (w.ledger key).bytes ≡ bytes

-- Whatever the account holds, it holds after the action, too, if the action succeeds.
pub record Keeps (program_id key : Pubkey) {A : Type 0} (m : Action A) : Type 0 where
  pub at :
      (bytes : Bytes) (w w' : World) (a : A)
      → Holds program_id key bytes w
      → m w ≡ ok (a, w')
      → Holds program_id key bytes w'

pub put_data_elsewhere :
    (key k : Pubkey) (bytes : Bytes) (ledger : Ledger)
    → key ≢ k
    → put_data k bytes ledger key ≡ ledger key
unfolding put_data
put_data_elsewhere key k bytes ledger other = elim (Bool-cases (eq_bytes key k)) [
  | inl same ↦ absurd (other (eq_of_eq_bytes key k same))
  | inr apart ↦ rw apart refl
]

module _ {program_id key : Pubkey} {A : Type 0} where
  -- An action that leaves the world as it is.
  pub Keeps-reads :
      (m : Action A) → ((w w' : World) (a : A) → m w ≡ ok (a, w') → w ≡ w') → Keeps program_id key m
  Keeps-reads m reads = record {
    at = λ bytes w w' a h e. subst (Holds program_id key bytes) (reads w w' a e) h;
  }

  pub Keeps-pure : (a : A) → Keeps program_id key (pure a)
  Keeps-pure a = Keeps-reads (pure a) (λ w w' b e. cc)

  pub Keeps-lift : (r : Result A) → Keeps program_id key (lift r)
  Keeps-lift r = Keeps-reads (lift r) (λ w w' b e. (lift-eq-ok r w e).1)

module _ {program_id key : Pubkey} {A B : Type 0} where
  pub Keeps-bind :
      (m : Action A) (f : A → Action B)
      → Keeps program_id key m
      → ((a : A) → Keeps program_id key (f a))
      → Keeps program_id key (m >>= f)
  Keeps-bind m f km kf = record {
    at = λ bytes w w' b h e.
        let (a, v, em, ef) = >>=-eq-ok m f w e in
        (kf a).at bytes v w' b (km.at bytes w v a h em) ef;
  }

module _ {program_id key : Pubkey} where
  pub Keeps-require_not : (c : Bool) (e : ProgramError) → Keeps program_id key (require_not c e)
  Keeps-require_not c e = Keeps-lift (fail_if c e)

  pub Keeps-data_of : (info : AccountInfo) → Keeps program_id key (data_of info)
  Keeps-data_of info = Keeps-reads (data_of info) (λ w w' a e. cc)

  pub Keeps-owner_of : (info : AccountInfo) → Keeps program_id key (owner_of info)
  Keeps-owner_of info = Keeps-reads (owner_of info) (λ w w' a e. cc)

  pub Keeps-read_header : (pool : AccountInfo) → Keeps program_id key (read_header pool)
  Keeps-read_header pool =
      Keeps-reads (read_header pool) (λ w w' header. read_header-eq-ok pool w w' header)

  pub Keeps-asset_bytes :
      (pool : AccountInfo) (header : PoolHeader) → Keeps program_id key (asset_bytes pool header)
  Keeps-asset_bytes pool header =
      Keeps-reads (asset_bytes pool header) (λ w w' tail. asset_bytes-eq-ok pool header w w' tail)

  pub Keeps-write_data :
      (info : AccountInfo) (bytes : Bytes)
      → key ≢ info.key
      → Keeps program_id key (write_data info bytes)
  Keeps-write_data info bytes other = record {
    at = λ old w w' a h e.
        let same : put_data info.key bytes w.ledger key ≡ w.ledger key =
          put_data_elsewhere key info.key bytes w.ledger other in
        let after : record w { ledger = put_data info.key bytes w.ledger } ≡ w' = cc in
        subst (Holds program_id key old) after (record {
          owner = ap (λ s. s.owner) same ∙ h.owner;
          content = ap (λ s. s.bytes) same ∙ h.content;
        });
  }

invoke_signed-ledger :
    (rt : Runtime) (i : Instruction) (infos : List AccountInfo) (seeds : List (List Bytes))
    (w w' : World) (a : Unit {0})
    → invoke_signed rt i infos seeds w ≡ ok (a, w')
    → rt.invoke_signed i infos seeds w.ledger ≡ ok w'.ledger
invoke_signed-ledger rt i infos seeds w w' a e = ground arith

module _ {rt : Runtime} {program_id key : Pubkey} (laws : IsRuntime rt program_id) where
  pub Keeps-invoke_signed :
      (i : Instruction) (infos : List AccountInfo) (seeds : List (List Bytes))
      → Keeps program_id key (invoke_signed rt i infos seeds)
  Keeps-invoke_signed i infos seeds = record {
    at = λ bytes w w' a h e.
        let called = invoke_signed-ledger rt i infos seeds w w' a e in
        let (owner, kept) =
          laws.keeps_accounts i infos seeds w.ledger w'.ledger key
            (laws.calls_others i infos seeds w.ledger w'.ledger called) called h.owner in
        record { owner = owner; content = kept ∙ h.content };
  }

  pub Keeps-invoke :
      (i : Instruction) (infos : List AccountInfo) → Keeps program_id key (invoke rt i infos)
  Keeps-invoke i infos = Keeps-invoke_signed i infos []

  pub Keeps-mint_pool_tokens :
      (spl mint target pool : AccountInfo) (mint_key target_key : Pubkey) (seed : Bytes)
      (amount : ℕ)
      → Keeps program_id key
          (mint_pool_tokens rt spl mint target pool mint_key target_key seed amount)
  unfolding mint_pool_tokens
  Keeps-mint_pool_tokens spl mint target pool mint_key target_key seed amount =
      Keeps-bind _ _ (Keeps-lift (rt.mint_to spl.key mint_key target_key pool.key [] amount))
        (λ i. Keeps-invoke_signed i _ _)

module _ (rt : Runtime) {program_id key : Pubkey} where
  pub Keeps-token_account : (info : AccountInfo) → Keeps program_id key (token_account rt info)
  Keeps-token_account info =
      Keeps-reads (token_account rt info) (λ w w' a. token_account-eq-ok rt info w w' a)

  pub Keeps-mint_supply : (info : AccountInfo) → Keeps program_id key (mint_supply rt info)
  Keeps-mint_supply info =
      Keeps-reads (mint_supply rt info) (λ w w' a. mint_supply-eq-ok rt info w w' a)

  pub Keeps-timestamp : (info : AccountInfo) → Keeps program_id key (timestamp rt info)
  Keeps-timestamp info =
      Keeps-reads (timestamp rt info)
        (λ w w' a e. (lift-eq-ok (rt.unix_timestamp info (w.ledger info.key)) w e).1)

module _ (rt : Runtime) {program_id key : Pubkey} where
  pub Keeps-minimum_balance :
      (info : AccountInfo)
      → Keeps program_id key (λ w. lift (rt.minimum_balance info (w.ledger info.key)) w)
  Keeps-minimum_balance info =
      Keeps-reads (λ w. lift (rt.minimum_balance info (w.ledger info.key)) w)
        (λ w w' a e. (lift-eq-ok (rt.minimum_balance info (w.ledger info.key)) w e).1)

pub ruleset keeps_rules = (
  Keeps-pure, Keeps-lift, Keeps-bind, Keeps-require_not, Keeps-data_of, Keeps-owner_of,
  Keeps-read_header, Keeps-asset_bytes, Keeps-write_data, Keeps-invoke_signed, Keeps-invoke,
  Keeps-minimum_balance, Keeps-mint_pool_tokens, Keeps-token_account, Keeps-mint_supply,
  Keeps-timestamp,
)
