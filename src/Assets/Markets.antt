-- ===== src/Assets/Markets.antt =====
-- The authorised markets are read back as they were written.
use bonfida_bot.Prelude.{
  ℕ, length, get_elem?, drop, All, zero, suc, ◌+◌, ◌*◌, ◌≤◌, ◌≡◌, some, List, [], ◌∷◌, ◌++◌, arith,
  refl, append-nil, append_assoc,
}
use bonfida_bot.Outcome.{ok, ◌>>=◌}
use bonfida_bot.Bytes.{Bytes, concat, offset, slice-concat, copy-concat}
use bonfida_bot.State.{Pubkey}
use bonfida_bot.Assets.{pack_markets, unpack_market, markets_loop}

abbrev pub AreKeys : List Pubkey → Type 0
AreKeys = All (λ k. length k ≡ 32)

pub offset-keys : (ps : List Pubkey) → AreKeys ps → offset ps (length ps) ≡ 32 * length ps
offset-keys [] h = omega arith
offset-keys (p ∷ ps) (hp, hs) = omega (arith, offset-keys ps hs)

offset_last :
    (ps : List Bytes) (p : Bytes)
    → offset (ps ++ (p ∷ [])) (length (ps ++ (p ∷ []))) ≡ offset ps (length ps) + length p
offset_last [] p = omega arith
offset_last (q ∷ ps) p = omega (arith, offset_last ps p)

offset_key :
    (ps : List Pubkey) (i : ℕ) {p : Pubkey}
    → AreKeys ps
    → get_elem? ps i ≡ some p
    → (offset ps i ≡ 32 * i) × (length p ≡ 32)
offset_key [] i h e = cc
offset_key (q ∷ ps) zero h e = ground arith
offset_key (q ∷ ps) (suc i) h e = ground (arith, offset_key ps i h.1 e)

markets_loop-concat :
    (markets written : List Pubkey) (i : ℕ) (target : Bytes)
    → AreKeys markets
    → offset written (length written) ≡ 32 * i
    → 32 * (i + length markets) ≤ length target
    → markets_loop i markets (concat written (drop (32 * i) target))
      ≡ ok (concat (written ++ markets) (drop (32 * (i + length markets)) target))
unfolding markets_loop
markets_loop-concat [] written i target h hw room =
    let same : i + 0 ≡ i = omega arith in rw (append-nil, same)
markets_loop-concat (m ∷ markets) written i target h hw room =
    let next : i + suc (length markets) ≡ i + 1 + length markets = omega arith in
    rw
      (
        copy-concat target written m (32 * i) (32 * (i + 1)) hw (omega arith) (omega arith),
        next,
        ← append_assoc written (m ∷ []) markets,
      )
      (markets_loop-concat markets (written ++ (m ∷ [])) (i + 1) target h.1
        (omega (arith, offset_last written m)) (omega arith))

-- The markets are written one after another, and what stands behind them is kept.
pub pack_markets-concat :
    (markets : List Pubkey) (target : Bytes)
    → AreKeys markets
    → 32 * length markets ≤ length target
    → pack_markets target markets ≡ ok (concat markets (drop (32 * length markets) target))
unfolding pack_markets
pack_markets-concat markets target h room =
    let start : 0 + length markets ≡ length markets = omega arith in
    rw start at (markets_loop-concat markets [] 0 target h refl (omega arith))

-- After keys of 32 bytes each were written by `pack_markets` into a buffer with room for them,
-- `unpack_market` finds each market at its index.
pub unpack_market-pack_markets :
    (markets : List Pubkey) (target : Bytes) (i : ℕ) {market : Pubkey}
    → AreKeys markets
    → 32 * length markets ≤ length target
    → get_elem? markets i ≡ some market
    → (pack_markets target markets >>= λ packed. unpack_market packed i) ≡ ok market
unfolding unpack_market
unpack_market-pack_markets markets target i {market} h room e =
    let (at, size) = offset_key markets i h e in
    let rest = drop (32 * length markets) target in
    rw (
      pack_markets-concat markets target h room,
      slice-concat markets rest i (32 * i) (32 * i + 32) market e at (omega arith),
    )
