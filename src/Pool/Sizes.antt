-- ===== src/Pool/Sizes.antt =====
-- The writes into a pool account that keep its size, and what stands in front of them.
use bonfida_bot.Pool.Front.{
  copy_from_slice-eq-ok, SameFront-refl, SameFront-trans, >>=-eq-ok, ok-inj, with_tail-SameFront,
}
use bonfida_bot.Prelude.{◌*◌, ℕ, ◌+◌, ◌≤◌, ◌≡◌, sym, ap, ◌∙◌, [], ◌∷◌, arith, length, List}
use bonfida_bot.Processor.Create.{write_assets}
use bonfida_bot.Assets.{pack_asset_at, markets_loop, pack_markets, get_asset_slice}
use bonfida_bot.State.{PoolAsset, Pubkey, asset_len}
use bonfida_bot.Bytes.{Bytes, copy_from_slice, index}
use bonfida_bot.Outcome.{ok}
use bonfida_bot.Assets
use bonfida_bot.Processor.Common.{with_tail}
use bonfida_bot.Pool.Step.{SameFront}

-- The writes that keep the length.
pub length-pack_asset :
    (asset : PoolAsset) (us vs : Bytes)
    → Assets.pack_into_slice asset us ≡ ok vs
    → length vs ≡ length us
unfolding Assets.pack_into_slice
length-pack_asset asset us vs h = (copy_from_slice-eq-ok 0 32 asset.mint_address us vs h).0

pub length-pack_asset_at :
    (asset : PoolAsset) (i : ℕ) (us vs : Bytes)
    → pack_asset_at asset i us ≡ ok vs
    → length vs ≡ length us
unfolding pack_asset_at
length-pack_asset_at asset i us vs h =
    let ((lo, hi), _, h1) = >>=-eq-ok (get_asset_slice us i) _ h in
    let (window, _, h2) = >>=-eq-ok (index lo hi us) _ h1 in
    let (window', _, h3) = >>=-eq-ok (Assets.pack_into_slice asset window) _ h2 in
    (copy_from_slice-eq-ok lo hi window' us vs h3).0

pub length-markets_loop :
    (i : ℕ) (markets : List Pubkey) (us vs : Bytes)
    → markets_loop i markets us ≡ ok vs
    → length vs ≡ length us
unfolding markets_loop
length-markets_loop i [] us vs h = ap length (sym (ok-inj h))
length-markets_loop i (market ∷ markets) us vs h =
    let (ws, copied, h1) = >>=-eq-ok (copy_from_slice (32 * i) (32 * (i + 1)) market us) _ h in
    length-markets_loop (i + 1) markets ws vs h1
    ∙ (copy_from_slice-eq-ok (32 * i) (32 * (i + 1)) market us ws copied).0

pub length-pack_markets :
    (markets : List Pubkey) (us vs : Bytes)
    → pack_markets us markets ≡ ok vs
    → length vs ≡ length us
unfolding pack_markets
length-pack_markets markets us vs h = length-markets_loop 0 markets us vs h

pub write_assets-SameFront :
    (start : ℕ) (assets : List PoolAsset) (xs ys : Bytes) (n : ℕ)
    → n ≤ start
    → write_assets start assets xs ≡ ok ys
    → SameFront n xs ys
unfolding write_assets
write_assets-SameFront start [] xs ys n before h = rw (ok-inj h) (SameFront-refl n ys)
write_assets-SameFront start (asset ∷ assets) xs ys n before h =
    let (zs, first, h1) = >>=-eq-ok (with_tail start (Assets.pack_into_slice asset) xs) _ h in
    SameFront-trans n xs zs ys
      (with_tail-SameFront start (Assets.pack_into_slice asset) xs zs (length-pack_asset asset)
        first n before)
      (write_assets-SameFront (start + asset_len) assets zs ys n (omega arith) h1)
