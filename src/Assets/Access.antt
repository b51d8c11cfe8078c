-- ===== src/Assets/Access.antt =====
-- One asset read or written at its index.
use bonfida_bot.Outcome.{ok, invalid_argument, err, ◌>>=◌}
use bonfida_bot.Prelude.{
  ℕ, ==_iff, length, ◌+◌, ◌*◌, ◌^◌, ◌≤◌, ◌<◌, ◌≡◌, ◌≢◌, ◌++◌, arith, length-append, ◌⊎◌,
}
use bonfida_bot.Bytes.{
  Bytes, copy_from_slice, slice_middle, slice_whole, slice_out_of_range, cut, slice_elsewhere,
  copy_middle, copy_whole,
}
use bonfida_bot.State.{PoolAsset}
use bonfida_bot.Assets.{
  unpack_unchecked, unpack_from_slice, pack_into_slice, asset_offset, asset_end,
  unpack_unchecked_asset, get_asset_slice, pack_asset_at,
}

unpack_piece : (p : Bytes) → length p ≡ 32 → unpack_unchecked p ≡ ok (record { mint_address = p })
unfolding unpack_unchecked unpack_from_slice
unpack_piece p size = rw ((==_iff (length p) 32).1 size, slice_whole p 32 size)

-- Reading at an index whose range lies in the buffer, where nothing wraps.
read_piece :
    (front part back : Bytes) (i : ℕ)
    → length front ≡ 32 * i
    → length part ≡ 32
    → 32 * i + 32 < 2 ^ 64
    → unpack_unchecked_asset (front ++ (part ++ back)) i ≡ ok (record { mint_address = part })
unfolding unpack_unchecked_asset
read_piece front part back i hf hp small =
    rw (slice_middle front part back (asset_offset i) (asset_end i) (omega arith) (omega arith))
      (unpack_piece part hp)

write_piece :
    (asset : PoolAsset) (front part back : Bytes) (i : ℕ)
    → length asset.mint_address ≡ 32
    → length front ≡ 32 * i
    → length part ≡ 32
    → 32 * i + 32 < 2 ^ 64
    → pack_asset_at asset i (front ++ (part ++ back)) ≡ ok (front ++ (asset.mint_address ++ back))
unfolding pack_asset_at get_asset_slice pack_into_slice
write_piece asset front part back i ha hf hp small =
    let read =
      slice_middle front part back (asset_offset i) (asset_end i) (omega arith) (omega arith) in
    let fill : copy_from_slice 0 32 asset.mint_address part ≡ ok asset.mint_address =
      copy_whole part asset.mint_address 32 hp ha in
    rw (read, read, fill)
      (copy_middle front part asset.mint_address back (asset_offset i) (asset_end i) (omega arith)
        (omega arith) (omega arith))

read_elsewhere :
    (front old new back : Bytes) (i j : ℕ)
    → length front ≡ 32 * i
    → length old ≡ 32
    → length new ≡ 32
    → j ≢ i
    → 32 * j + 32 < 2 ^ 64
    → unpack_unchecked_asset (front ++ (new ++ back)) j
      ≡ unpack_unchecked_asset (front ++ (old ++ back)) j
unfolding unpack_unchecked_asset
read_elsewhere front old new back i j hf ho hn ne small =
    let apart : (asset_end j ≤ length front) ⊎ (length front + length old ≤ asset_offset j) =
      grind arith in
    rw (slice_elsewhere (asset_offset j) (asset_end j) front old new back (omega arith) apart)

-- What writing an asset at an index has done.
abbrev WritesAsset : PoolAsset → ℕ → Bytes → Bytes → Type 0
WritesAsset asset i target target' =
    (pack_asset_at asset i target ≡ ok target')
    × (length target' ≡ length target)
    × (unpack_unchecked_asset target' i ≡ ok asset)
    × ((j : ℕ)
        → j ≢ i
        → 32 * j + 32 < 2 ^ 64
        → unpack_unchecked_asset target' j ≡ unpack_unchecked_asset target j)

write_in_place :
    (asset : PoolAsset) (front part back : Bytes) (i : ℕ)
    → length asset.mint_address ≡ 32
    → length front ≡ 32 * i
    → length part ≡ 32
    → 32 * i + 32 < 2 ^ 64
    → WritesAsset asset i (front ++ (part ++ back)) (front ++ (asset.mint_address ++ back))
write_in_place asset front part back i ha hf hp small =
    let mint = asset.mint_address in
    (
      write_piece asset front part back i ha hf hp small,
      omega (
        arith,
        length-append front (mint ++ back),
        length-append front (part ++ back),
        length-append mint back,
        length-append part back,
      ),
      read_piece front mint back i hf ha small,
      λ j ne small'. read_elsewhere front part mint back i j hf hp ha ne small',
    )

pack_asset_at-WritesAsset :
    (asset : PoolAsset) (i : ℕ) (target : Bytes)
    → length asset.mint_address ≡ 32
    → 32 * i + 32 ≤ length target
    → length target < 2 ^ 64
    → (target' : Bytes) × WritesAsset asset i target target'
pack_asset_at-WritesAsset asset i target ha room small =
    let (front, part, back, e, hf, hp) = cut (32 * i) (32 * i + 32) target (omega arith) room in
    rw e (
      front ++ (asset.mint_address ++ back),
      write_in_place asset front part back i ha hf (omega arith) (omega arith),
    )

-- An asset of 32 bytes that is written at an index within a buffer of less than 2 ^ 64 bytes
-- is read back there.
pub unpack_unchecked_asset-pack_asset_at :
    (asset : PoolAsset) (i : ℕ) (target : Bytes)
    → length asset.mint_address ≡ 32
    → 32 * i + 32 ≤ length target
    → length target < 2 ^ 64
    → (pack_asset_at asset i target >>= λ target'. unpack_unchecked_asset target' i) ≡ ok asset
unpack_unchecked_asset-pack_asset_at asset i target ha room small =
    let (target', (e, _, read, _)) = pack_asset_at-WritesAsset asset i target ha room small in
    rw e read

-- Writing an asset of 32 bytes at an index within a buffer of less than 2 ^ 64 bytes changes
-- nothing that is read at another index, while that index's range does not wrap.
pub unpack_unchecked_asset_elsewhere :
    (asset : PoolAsset) (i j : ℕ) (target : Bytes)
    → length asset.mint_address ≡ 32
    → 32 * i + 32 ≤ length target
    → length target < 2 ^ 64
    → j ≢ i
    → 32 * j + 32 < 2 ^ 64
    → (pack_asset_at asset i target >>= λ target'. unpack_unchecked_asset target' j)
      ≡ unpack_unchecked_asset target j
unpack_unchecked_asset_elsewhere asset i j target ha room small ne fits =
    let (target', (e, _, _, kept)) = pack_asset_at-WritesAsset asset i target ha room small in
    rw e (kept j ne fits)

-- An index past the assets is refused, while its range does not wrap.
pub unpack_unchecked_asset_out_of_range :
    (i : ℕ) (input : Bytes)
    → length input < 32 * i + 32
    → 32 * i + 32 < 2 ^ 64
    → unpack_unchecked_asset input i ≡ err invalid_argument
unfolding unpack_unchecked_asset
unpack_unchecked_asset_out_of_range i input short small =
    rw (slice_out_of_range (asset_offset i) (asset_end i) input (omega arith))

-- The offset of an asset wraps: adding 2 ^ 59 to an index leads to the same asset.
pub unpack_unchecked_asset_wraps :
    (i : ℕ) (input : Bytes)
    → unpack_unchecked_asset input (i + 2 ^ 59) ≡ unpack_unchecked_asset input i
unfolding unpack_unchecked_asset
unpack_unchecked_asset_wraps i input =
    let same : asset_offset (i + 2 ^ 59) ≡ asset_offset i = omega arith in rw same
