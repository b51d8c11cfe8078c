-- ===== src/Processor/Common.antt =====
-- What the handlers share: machine arithmetic, the keys that a pool determines, and calls that
-- several of them make in the same way.
use bonfida_bot.Prelude.{
  ℕ, zero, suc, ◌+◌, ◌-◌, ◌/◌, ◌%◌, ◌^◌, none, some, List, [], ◌∷◌, length, take, ◌*◌, ◌++◌,
}
use bonfida_bot.Outcome.{
  Result, locked_operation, ProgramError, not_enough_account_keys, to_program_error, ok, err,
  panicked, unwrap_result, unwrap,
}
use bonfida_bot.Bytes.{Bytes, index, copy_from_slice, offset}
use bonfida_bot.State.{Pubkey, header_len, PoolHeader, pack_into_slice, unpack, pubkey_length}
use bonfida_bot.Outcome
use bonfida_bot.Runtime.{
  Runtime, ◌>>=◌, AccountInfo, TokenAccount, Action, pure, lift, write_data, invoke_signed, data_of,
}
use Prim.Native.String.{String}

-- u64 subtraction and addition.
abbrev pub sub_u64 : ℕ → ℕ → ℕ
sub_u64 a b = (a + 2 ^ 64 - b) % 2 ^ 64

abbrev pub add_u64 : ℕ → ℕ → ℕ
add_u64 a b = (a + b) % 2 ^ 64

-- Unsigned division.
abbrev pub div_or_panic : ℕ → ℕ → Result ℕ
div_or_panic a zero = panicked
div_or_panic a (suc b) = ok (a / suc b)

abbrev pub locked_operation_error : ProgramError
locked_operation_error = to_program_error locked_operation

-- state.rs: the owners of the two fee accounts.
abbrev pub bonfida_fee : String
bonfida_fee = "31LVSggbVz4VcwBSPdtK8HJ3Lt1cKTJUVQTRNNYMfqBq"

abbrev pub bonfida_bnb : String
bonfida_bnb = "3oQzjfjzUkJ5qHsERk2JPEpAKo34dxAQjUriBqursfxU"

module _ (rt : Runtime) where
  -- `Clock::from_account_info(account)?.unix_timestamp as u64`
  abbrev pub timestamp : AccountInfo → Action ℕ
  timestamp info w = lift (rt.unix_timestamp info (w.ledger info.key)) w

  -- `Account::unpack(&account.data.borrow())?`
  abbrev pub token_account : AccountInfo → Action TokenAccount
  token_account info w = lift (rt.unpack_account (w.ledger info.key).bytes) w

  -- `Mint::unpack(&mint_account.data.borrow())?.supply`
  abbrev pub mint_supply : AccountInfo → Action ℕ
  mint_supply info = do
    mint ← (λ w. lift (rt.unpack_mint (w.ledger info.key).bytes) w)
    pure mint.supply

  -- `Pubkey::create_program_address(&[&pool_seed, &[1]], &program_id).unwrap()`
  abbrev pub mint_key_of : Bytes → Pubkey → Result Pubkey
  mint_key_of pool_seed program_id =
      unwrap_result (rt.create_program_address (pool_seed ∷ (1 ∷ []) ∷ []) program_id)

  -- `get_associated_token_address(&Pubkey::from_str(owner).unwrap(), &mint)`
  abbrev pub fee_address : String → Pubkey → Result Pubkey
  fee_address owner mint = elim (rt.from_str owner) [
    | none ↦ panicked
    | some key ↦ ok (rt.get_associated_token_address key mint)
  ]

  -- Build a `mint_to` and sign it with the pool's seed.
  unfoldable pub mint_pool_tokens :
      AccountInfo
      → AccountInfo
      → AccountInfo
      → AccountInfo
      → Pubkey
      → Pubkey
      → Bytes
      → ℕ
      → Action (Unit {0})
  mint_pool_tokens spl_token mint target pool mint_key target_key pool_seed amount = do
    instruction ← lift (rt.mint_to spl_token.key mint_key target_key pool.key [] amount)
    invoke_signed rt instruction (spl_token ∷ mint ∷ target ∷ pool ∷ []) ((pool_seed ∷ []) ∷ [])

-- `PoolHeader::unpack(&pool_account.data.borrow()[..PoolHeader::LEN])?`
unfoldable pub read_header : AccountInfo → Action PoolHeader
read_header pool = do
  bytes ← data_of pool
  front ← lift (index 0 header_len bytes)
  lift (unpack front)

-- `pool_header.pack_into_slice(&mut pool_account.data.borrow_mut()[..PoolHeader::LEN])`
unfoldable pub write_header : AccountInfo → PoolHeader → Action (Unit {0})
write_header pool header = do
  bytes ← data_of pool
  front ← lift (index 0 header_len bytes)
  front ← lift (pack_into_slice header front)
  bytes ← lift (copy_from_slice 0 header_len front bytes)
  write_data pool bytes

-- `next_account_info` for each of `n` accounts.
abbrev pub next_accounts : ℕ → List AccountInfo → Result (List AccountInfo × List AccountInfo)
next_accounts zero accounts = ok ([], accounts)
next_accounts (suc n) [] = err not_enough_account_keys
next_accounts (suc n) (a ∷ accounts) = elim (next_accounts n accounts) [
  | ok (taken, rest) ↦ ok (a ∷ taken, rest)
  | err e ↦ err e
  | panicked ↦ panicked
]

-- A change of `&mut bytes[offset..]`, which panics if the offset lies behind the end.
unfoldable pub with_tail : ℕ → (Bytes → Result Bytes) → Bytes → Result Bytes
with_tail offset change bytes =
    Outcome.◌>>=◌ (index offset (length bytes) bytes)
      λ tail. Outcome.◌>>=◌ (change tail) λ tail'. ok (take offset bytes ++ tail')

-- `PoolHeader::LEN + PUBKEY_LENGTH * number_of_markets`: where the assets begin.
abbrev pub assets_begin : PoolHeader → ℕ
assets_begin header = header_len + pubkey_length * header.number_of_markets

-- `&pool_account.data.borrow()[asset_offset..]`
unfoldable pub asset_bytes : AccountInfo → PoolHeader → Action Bytes
asset_bytes pool header = do
  bytes ← data_of pool
  lift (index (assets_begin header) (length bytes) bytes)
