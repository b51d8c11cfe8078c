-- ===== src/Assets.antt =====
-- program/src/state.rs: the assets and the markets that stand behind the header in the pool
-- account's data. `usize` has 64 bits, and its arithmetic wraps in the release build.
pub mod Pieces
pub mod Access
pub mod Markets
use bonfida_bot.Prelude.{
  ℕ, ◌==◌, if◌then◌else◌, length, replicate, zero, suc, ◌+◌, ◌*◌, ◌/◌, ◌%◌, ◌^◌, Bool, not, List,
  [], ◌∷◌, ◌++◌,
}
use bonfida_bot.Outcome.{
  ok, invalid_argument, invalid_account_data, uninitialized_account, Result, err, panicked, ◌>>=◌,
  ◌>>◌, fail_if, ok_or,
}
use bonfida_bot.Bytes.{Bytes, slice, index, copy_from_slice, eq_bytes, offset}
use bonfida_bot.State.{PoolAsset, Pubkey, asset_len}

-- `Pubkey::new(&[0u8; 32])`
unfoldable pub zero_pubkey : Pubkey
zero_pubkey = replicate 32 0

-- `PoolAsset::is_initialized`
unfoldable pub is_initialized : PoolAsset → Bool
is_initialized a = not (eq_bytes a.mint_address zero_pubkey)

-- `PoolAsset::pack_into_slice`
unfoldable pub pack_into_slice : PoolAsset → Bytes → Result Bytes
pack_into_slice a target = copy_from_slice 0 32 a.mint_address target

-- `PoolAsset::unpack_from_slice`
unfoldable pub unpack_from_slice : Bytes → Result PoolAsset
unpack_from_slice src = do
  mint_address ← index 0 32 src
  ok (record { mint_address = mint_address })

-- `PoolAsset` keeps the methods of the trait `Pack`, which `PoolHeader` writes out again.
unfoldable pub unpack_unchecked : Bytes → Result PoolAsset
unpack_unchecked input = do
  fail_if (not (length input == asset_len)) invalid_account_data
  unpack_from_slice input

unfoldable pub unpack : Bytes → Result PoolAsset
unpack input = do
  value ← unpack_unchecked input
  if is_initialized value then ok value else err uninitialized_account

-- `.and_then(|asset| Ok(output.push(asset))).unwrap_or(())`: an error is dropped, a panic is not.
unfoldable pub push_asset : Result PoolAsset → List PoolAsset → Result (List PoolAsset)
push_asset (ok asset) output = ok (output ++ (asset ∷ []))
push_asset (err e) output = ok output
push_asset panicked output = panicked

-- The loop of `unpack_assets`, on the rounds left.
unfoldable pub assets_loop : ℕ → ℕ → Bytes → List PoolAsset → Result (List PoolAsset)
assets_loop zero offset input output = ok output
assets_loop (suc rounds) offset input output = do
  part ← index offset (offset + asset_len) input
  output ← push_asset (unpack part) output
  assets_loop rounds (offset + asset_len) input output

unfoldable pub unpack_assets : Bytes → Result (List PoolAsset)
unpack_assets input = assets_loop (length input / asset_len) 0 input []

-- `index * PoolAsset::LEN`, and the end of the range that starts there.
abbrev pub asset_offset : ℕ → ℕ
asset_offset i = (i * asset_len) % 2 ^ 64

abbrev pub asset_end : ℕ → ℕ
asset_end i = (asset_offset i + asset_len) % 2 ^ 64

unfoldable pub unpack_unchecked_asset : Bytes → ℕ → Result PoolAsset
unpack_unchecked_asset input i = do
  part ← ok_or (slice (asset_offset i) (asset_end i) input) invalid_argument
  unpack_unchecked part

-- The mutable window that `get_asset_slice` returns, as its bounds in the buffer.
unfoldable pub get_asset_slice : Bytes → ℕ → Result (ℕ × ℕ)
get_asset_slice target i = do
  part ← ok_or (slice (asset_offset i) (asset_end i) target) invalid_argument
  ok (asset_offset i, asset_end i)

-- `asset.pack_into_slice(get_asset_slice(target, index)?)`: a write through that window.
unfoldable pub pack_asset_at : PoolAsset → ℕ → Bytes → Result Bytes
pack_asset_at asset i target = do
  (lo, hi) ← get_asset_slice target i
  window ← index lo hi target
  window ← pack_into_slice asset window
  copy_from_slice lo hi window target

unfoldable pub unpack_market : Bytes → ℕ → Result Pubkey
unpack_market input market_index = do
  let offset = 32 * market_index
  index offset (offset + 32) input

-- The loop of `pack_markets`: `i` markets are written, and the list holds those that are left.
unfoldable pub markets_loop : ℕ → List Pubkey → Bytes → Result Bytes
markets_loop i [] target = ok target
markets_loop i (market ∷ markets) target = do
  target ← copy_from_slice (32 * i) (32 * (i + 1)) market target
  markets_loop (i + 1) markets target

unfoldable pub pack_markets : Bytes → List Pubkey → Result Bytes
pack_markets target markets = markets_loop 0 markets target
