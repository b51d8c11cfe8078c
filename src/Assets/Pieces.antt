-- ===== src/Assets/Pieces.antt =====
-- `unpack_assets` against a plain description: cut the bytes into pieces of 32, and keep the
-- pieces that are not all zero.
use bonfida_bot.Prelude.{
  ℕ, if◌then◌else◌, length, take, drop, zero, suc, ◌*◌, ◌/◌, ◌≤◌, ◌≡◌, refl, List, [], ◌∷◌, ◌++◌,
  append-nil, arith, ==_iff, Bool-cases, length-append, length-take, length-drop, take-append-drop,
  ◌+◌, sym, ap, ◌∙◌, inl, inr, some, append_assoc,
}
use bonfida_bot.Outcome.{ok}
use bonfida_bot.Bytes.{Bytes, eq_bytes, offset, slice, slice_middle, slice_whole}
use bonfida_bot.State.{PoolAsset}
use bonfida_bot.Assets.{
  unpack, unpack_unchecked, unpack_from_slice, is_initialized, is_initialized, push_asset,
  assets_loop, unpack_assets, zero_pubkey,
}

-- The first `n` whole pieces of 32 bytes.
abbrev pub pieces : ℕ → Bytes → List Bytes
pieces zero input = []
pieces (suc n) input = take 32 input ∷ pieces n (drop 32 input)

-- The assets among them.
abbrev pub keep : List Bytes → List PoolAsset
keep [] = []
keep (p ∷ ps) = if eq_bytes p zero_pubkey then keep ps else record { mint_address = p } ∷ keep ps

keep-cons : (p : Bytes) (ps : List Bytes) → keep (p ∷ ps) ≡ keep (p ∷ []) ++ keep ps
keep-cons p ps = ground arith

-- One round: a piece is pushed unless it is all zero.
push_piece :
    (p : Bytes) (output : List PoolAsset)
    → length p ≡ 32
    → push_asset (unpack p) output ≡ ok (output ++ keep (p ∷ []))
unfolding push_asset unpack unpack_unchecked unpack_from_slice is_initialized
push_piece p output size =
    rw ((==_iff (length p) 32).1 size, slice_whole p 32 size)
      (elim (Bool-cases (eq_bytes p zero_pubkey)) [
        | inl zeros ↦ rw zeros (ap ok (sym (append-nil output)))
        | inr other ↦ rw other
      ])

assets_loop-pieces :
    (rounds offset : ℕ) (front input : Bytes) (output : List PoolAsset)
    → length front ≡ offset
    → 32 * rounds ≤ length input
    → assets_loop rounds offset (front ++ input) output ≡ ok (output ++ keep (pieces rounds input))
unfolding assets_loop
assets_loop-pieces zero offset front input output hf hn = rw append-nil
assets_loop-pieces (suc rounds) offset front input output hf hn =
    let part = take 32 input in
    let size : length part ≡ 32 = omega (arith, length-take 32 input) in
    let cut : front ++ input ≡ front ++ (part ++ drop 32 input) =
      ap (λ l. front ++ l) (sym (take-append-drop 32 input)) in
    let read : slice offset (offset + 32) (front ++ input) ≡ some part =
      ap (slice offset (offset + 32)) cut
      ∙ slice_middle front part (drop 32 input) offset (offset + 32) hf (omega arith) in
    let next : front ++ input ≡ (front ++ part) ++ drop 32 input =
      cut ∙ sym (append_assoc front part (drop 32 input)) in
    rw (read, push_piece part output size)
      (ap (λ l. assets_loop rounds (offset + 32) l (output ++ keep (part ∷ []))) next
        ∙ assets_loop-pieces rounds (offset + 32) (front ++ part) (drop 32 input)
            (output ++ keep (part ∷ [])) (omega (arith, length-append front part))
            (omega (arith, length-drop 32 input))
        ∙ ap ok (
            append_assoc output (keep (part ∷ [])) (keep (pieces rounds (drop 32 input)))
            ∙ ap (λ l. output ++ l) (sym (keep-cons part (pieces rounds (drop 32 input))))))

-- On any bytes `unpack_assets` succeeds, and returns the pieces of 32 bytes that are not all
-- zero, in order.
pub unpack_assets-eq-keep :
    (input : Bytes) → unpack_assets input ≡ ok (keep (pieces (length input / 32) input))
unfolding unpack_assets
unpack_assets-eq-keep input =
    assets_loop-pieces (length input / 32) 0 [] input [] refl (omega arith)
