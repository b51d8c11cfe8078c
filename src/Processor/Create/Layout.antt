-- ===== src/Processor/Create/Layout.antt =====
-- Where `process_create` writes the header, the markets and the assets.
use bonfida_bot.State.Layout.{
  header_bytes, IsSized, header_parts, pack_into_slice_lem, length-header_bytes,
}
use bonfida_bot.Assets.{pack_markets}
use bonfida_bot.Assets.Markets.{AreKeys, offset-keys, pack_markets-concat}
use bonfida_bot.Processor.Common.{with_tail}
use bonfida_bot.Bytes.{Bytes, concat, length-concat, copy-append, concat-append}
use bonfida_bot.Prelude.{
  ℕ, length, take, drop, length-append, length-drop, take-append, drop-append, ◌+◌, ◌*◌, ◌≤◌, ◌≡◌,
  refl, ◌∙◌, List, [], ◌∷◌, ◌++◌, map, arith, drop-drop, suc, ◌-◌, sym, ap, append_assoc,
}
use bonfida_bot.Assets
use bonfida_bot.Outcome.{ok}
use bonfida_bot.State.{PoolAsset, Pubkey, header_len, PoolHeader}
use bonfida_bot.Processor.Headers.{with_tail_lem}
use bonfida_bot.Processor.Create.{write_assets, write_pool}

abbrev pub mints : List PoolAsset → List Bytes
mints assets = map (λ a. a.mint_address) assets

pack_asset_lem :
    (asset : PoolAsset) (rest : Bytes)
    → length asset.mint_address ≡ 32
    → 32 ≤ length rest
    → Assets.pack_into_slice asset rest ≡ ok (asset.mint_address ++ drop 32 rest)
unfolding Assets.pack_into_slice
pack_asset_lem asset rest size room =
    copy-append [] asset.mint_address rest 0 32 refl (omega arith) (omega arith)
    ∙ ap (λ n. ok (asset.mint_address ++ drop n rest)) size

write_assets_lem :
    (front rest : Bytes) (start : ℕ) (assets : List PoolAsset)
    → length front ≡ start
    → AreKeys (mints assets)
    → 32 * length assets ≤ length rest
    → write_assets start assets (front ++ rest)
      ≡ ok (front ++ concat (mints assets) (drop (32 * length assets) rest))
unfolding write_assets
write_assets_lem front rest start [] hf ha room = refl
write_assets_lem front rest start (asset ∷ assets) hf (size, sizes) room =
    let mint = asset.mint_address in
    let one : Assets.pack_into_slice asset rest ≡ ok (mint ++ drop 32 rest) =
      pack_asset_lem asset rest size (omega arith) in
    let tail_is : drop start (front ++ rest) ≡ rest = drop-append start front rest hf in
    let front_is : take start (front ++ rest) ≡ front = take-append start front rest hf in
    let step : with_tail start (Assets.pack_into_slice asset) (front ++ rest)
        ≡ ok (front ++ (mint ++ drop 32 rest)) =
      with_tail_lem start (Assets.pack_into_slice asset) (front ++ rest)
        (omega (arith, length-append front rest))
      ∙ rw (tail_is, front_is, one) refl in
    let again =
      write_assets_lem (front ++ mint) (drop 32 rest) (start + 32) assets
        (omega (arith, length-append front mint)) sizes (omega (arith, length-drop 32 rest)) in
    let count : 32 + 32 * length assets ≡ 32 * suc (length assets) = omega arith in
    rw
      (
        step,
        ← append_assoc front mint (drop 32 rest),
        again,
        append_assoc front mint,
        drop-drop,
        count,
      )
      refl

-- For a valid header, markets and assets of 32 bytes each, and an account with room for them,
-- the account's data after its creation is the header, the markets and the assets, one after
-- another, and then what was there.
pub write_pool_lem :
    (header : PoolHeader) (markets : List Pubkey) (assets : List PoolAsset) (old : Bytes)
    → IsSized header
    → AreKeys markets
    → AreKeys (mints assets)
    → header_len + (32 * length markets + 32 * length assets) ≤ length old
    → write_pool header markets assets old
      ≡ ok (
          header_bytes header (
            concat markets (
              concat
                (mints assets)
                (drop (32 * length assets) (drop (32 * length markets) (drop header_len old))))))
unfolding write_pool
write_pool_lem header markets assets old v hm ha room =
    let rest = drop header_len old in
    let size : length rest ≡ length old - header_len = length-drop header_len old in
    let front = header_bytes header [] in
    let full : length front ≡ header_len = omega (arith, length-header_bytes header [] v) in
    let split : header_bytes header rest ≡ front ++ rest =
      concat-append (header_parts header) rest in
    let tail = drop (32 * length markets) rest in
    let big : header_len ≤ length (front ++ rest) = omega (arith, length-append front rest) in
    let tail_is : drop header_len (front ++ rest) ≡ rest = drop-append header_len front rest full in
    let front_is : take header_len (front ++ rest) ≡ front =
      take-append header_len front rest full in
    let marked : with_tail header_len (λ t. pack_markets t markets) (front ++ rest)
        ≡ ok (front ++ concat markets tail) =
      with_tail_lem header_len (λ t. pack_markets t markets) (front ++ rest) big
      ∙ rw (tail_is, front_is, pack_markets-concat markets rest hm (omega arith)) refl in
    let regroup : front ++ concat markets tail ≡ (front ++ concat markets []) ++ tail =
      ap (λ l. front ++ l) (concat-append markets tail)
      ∙ sym (append_assoc front (concat markets []) tail) in
    let keys : length (concat markets []) ≡ 32 * length markets =
      omega (arith, length-concat markets [], offset-keys markets hm) in
    let assets_written =
      write_assets_lem (front ++ concat markets []) tail (header_len + 32 * length markets) assets
        (omega (arith, length-append front (concat markets []))) ha
        (omega (arith, length-drop (32 * length markets) rest)) in
    rw (pack_into_slice_lem header old v (omega arith), split, marked, regroup, assets_written)
      (let end = concat (mints assets) (drop (32 * length assets) tail) in
        ap ok (
          append_assoc front (concat markets []) end
          ∙ ap (λ l. front ++ l) (sym (concat-append markets end))
          ∙ sym (concat-append (header_parts header) (concat markets end))))
