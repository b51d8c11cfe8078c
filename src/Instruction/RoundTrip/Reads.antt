-- ===== src/Instruction/RoundTrip/Reads.antt =====
-- The readers of `unpack` on a buffer that is laid out part by part.
use bonfida_bot.Prelude.{
  ℕ, length, get_elem?, All, length-append, zero, suc, ◌+◌, ◌*◌, ◌^◌, ◌≤◌, ◌<◌, ◌≡◌, refl, ◌∙◌,
  some, List, [], ◌∷◌, ◌++◌, append_assoc, arith, sym,
}
use bonfida_bot.Outcome.{ok}
use bonfida_bot.Bytes.{
  Bytes, to_le_bytes, length-to_le_bytes, from_le_bytes-to_le_bytes, slice_middle, concat, offset,
  slice-concat, slice_out_of_range,
}
use bonfida_bot.State.{Pubkey}
use bonfida_bot.Instruction.Defs.{
  Side, bid, ask, OrderType, limit, immediate_or_cancel, post_only, SelfTradeBehavior,
  decrement_take, cancel_provide, abort_transaction,
}
use bonfida_bot.Instruction.Format.{
  side_byte, order_type_byte, self_trade_behavior_byte, amount_parts,
}
use bonfida_bot.Instruction.Amounts.{read_amounts_more, read_amounts_end}
use bonfida_bot.Instruction.Unpack.{
  read_le, read_key, read_seed, read_side, order_type_of_byte, read_order_type,
  self_trade_behavior_of_byte, read_self_trade_behavior, read_non_zero, read_markets, read_amounts,
}
use bonfida_bot.Assets.Markets.{AreKeys}

module _ (ps : List Bytes) (rest : Bytes) where
  -- The integer that stands as part `i` is read from its place.
  pub read_le-concat :
      (i lo hi k v : ℕ)
      → get_elem? ps i ≡ some (to_le_bytes k v)
      → offset ps i ≡ lo
      → lo + k ≡ hi
      → v < 256 ^ k
      → read_le lo hi (concat ps rest) ≡ ok v
  unfolding read_le
  read_le-concat i lo hi k v e at width fits = rw (
    slice-concat ps rest i lo hi (to_le_bytes k v) e at (omega (arith, length-to_le_bytes k v)),
    from_le_bytes-to_le_bytes k v fits,
  )

  pub read_key-concat :
      (i lo hi : ℕ) (key : Pubkey)
      → get_elem? ps i ≡ some key
      → offset ps i ≡ lo
      → lo + length key ≡ hi
      → read_key lo hi (concat ps rest) ≡ ok key
  unfolding read_key
  read_key-concat i lo hi key e at width = rw (slice-concat ps rest i lo hi key e at width)

pub read_seed-concat :
    (seed : Bytes) (ps : List Bytes) (rest : Bytes)
    → length seed ≡ 32
    → read_seed (concat (seed ∷ ps) rest) ≡ ok seed
unfolding read_seed
read_seed-concat seed ps rest size =
    rw (slice-concat (seed ∷ ps) rest 0 0 32 seed refl refl (omega arith))

get_elem?-append :
    (n k : ℕ) (xs ys : Bytes) → length xs + k ≡ n → get_elem? (xs ++ ys) n ≡ get_elem? ys k
get_elem?-append n k [] ys e = let same : n ≡ k = omega arith in rw same
get_elem?-append zero k (x ∷ xs) ys e = absurd (omega arith)
get_elem?-append (suc n) k (x ∷ xs) ys e = get_elem?-append n k xs ys (omega arith)

-- A part of one byte is read from its place.
pub get_elem?-concat :
    (ps : List Bytes) (rest : Bytes) (i at b : ℕ)
    → get_elem? ps i ≡ some (b ∷ [])
    → offset ps i ≡ at
    → get_elem? (concat ps rest) at ≡ some b
get_elem?-concat [] rest i at b e o = cc
get_elem?-concat (p ∷ ps) rest zero at b e o =
    let same : p ≡ b ∷ [] = ground arith in rw (same, ← o)
get_elem?-concat (p ∷ ps) rest (suc i) at b e o =
    get_elem?-append at (offset ps i) p (concat ps rest) o
    ∙ get_elem?-concat ps rest i (offset ps i) b e refl

pub read_side-concat :
    (ps : List Bytes) (rest : Bytes) (i at : ℕ) (side : Side)
    → get_elem? ps i ≡ some (side_byte side ∷ [])
    → offset ps i ≡ at
    → read_side at (concat ps rest) ≡ ok side
unfolding read_side side_byte
read_side-concat ps rest i at bid e o = rw (get_elem?-concat ps rest i at 0 e o)
read_side-concat ps rest i at ask e o = rw (get_elem?-concat ps rest i at 1 e o)

pub read_order_type-concat :
    (ps : List Bytes) (rest : Bytes) (i at : ℕ) (t : OrderType)
    → get_elem? ps i ≡ some (order_type_byte t ∷ [])
    → offset ps i ≡ at
    → read_order_type at (concat ps rest) ≡ ok t
unfolding read_order_type order_type_byte order_type_of_byte
read_order_type-concat ps rest i at limit e o = rw (get_elem?-concat ps rest i at 0 e o)
read_order_type-concat ps rest i at immediate_or_cancel e o =
    rw (get_elem?-concat ps rest i at 1 e o)
read_order_type-concat ps rest i at post_only e o = rw (get_elem?-concat ps rest i at 2 e o)

pub read_self_trade_behavior-concat :
    (ps : List Bytes) (rest : Bytes) (i at : ℕ) (t : SelfTradeBehavior)
    → get_elem? ps i ≡ some (self_trade_behavior_byte t ∷ [])
    → offset ps i ≡ at
    → read_self_trade_behavior at (concat ps rest) ≡ ok t
unfolding read_self_trade_behavior self_trade_behavior_byte self_trade_behavior_of_byte
read_self_trade_behavior-concat ps rest i at decrement_take e o =
    rw (get_elem?-concat ps rest i at 0 e o)
read_self_trade_behavior-concat ps rest i at cancel_provide e o =
    rw (get_elem?-concat ps rest i at 1 e o)
read_self_trade_behavior-concat ps rest i at abort_transaction e o =
    rw (get_elem?-concat ps rest i at 2 e o)

pub read_non_zero-concat :
    (ps : List Bytes) (rest : Bytes) (i lo hi k v : ℕ)
    → get_elem? ps i ≡ some (to_le_bytes k v)
    → offset ps i ≡ lo
    → lo + k ≡ hi
    → (0 < v) × (v < 256 ^ k)
    → read_non_zero lo hi (concat ps rest) ≡ ok v
unfolding read_non_zero
read_non_zero-concat ps rest i lo hi k zero e at width fits = absurd (omega arith)
read_non_zero-concat ps rest i lo hi k (suc v) e at width fits =
    rw (read_le-concat ps rest i lo hi k (suc v) e at width fits.1)

-- The loop over the markets reads them all and ends behind them.
pub read_markets-concat :
    (markets : List Pubkey) (front tail : Bytes) (at : ℕ)
    → AreKeys markets
    → length front ≡ at
    → read_markets (length markets) at (front ++ concat markets tail)
      ≡ ok (markets, at + 32 * length markets)
unfolding read_markets read_key
read_markets-concat [] front tail at h hf = let same : at + 32 * 0 ≡ at = omega arith in rw same
read_markets-concat (m ∷ markets) front tail at (hm, hs) hf =
    let end : at + 32 * suc (length markets) ≡ at + 32 + 32 * length markets = omega arith in
    rw (
      slice_middle front m (concat markets tail) at (at + 32) hf (omega arith),
      ← append_assoc front m (concat markets tail),
      read_markets-concat markets (front ++ m) tail (at + 32) hs
          (omega (arith, length-append front m)),
      end,
    )

-- The loop over the amounts reads them all, in one round for each and two to end.
pub read_amounts-concat :
    (amounts : List ℕ) (front : Bytes) (k fuel : ℕ)
    → All (λ a. a < 2 ^ 64) amounts
    → length front ≡ k
    → 0 < k
    → length amounts + 2 ≤ fuel
    → read_amounts fuel k (front ++ concat (amount_parts amounts) []) ≡ some amounts
read_amounts-concat amounts front k zero h hf pos room = absurd (omega arith)
read_amounts-concat [] front k (suc zero) h hf pos room = absurd (omega arith)
read_amounts-concat [] front k (suc (suc fuel)) h hf pos room =
    read_amounts_end fuel k (front ++ []) pos
      (slice_out_of_range k (k + 8) (front ++ []) (omega (arith, length-append front [])))
read_amounts-concat (a ∷ amounts) front k (suc fuel) h hf pos room =
    let part = to_le_bytes 8 a in
    let back = concat (amount_parts amounts) [] in
    let width = length-to_le_bytes 8 a in
    let shift : front ++ (part ++ back) ≡ (front ++ part) ++ back =
      sym (append_assoc front part back) in
    read_amounts_more fuel k (front ++ (part ++ back)) part pos
      (slice_middle front part back k (k + 8) hf (omega arith))
    ∙ rw (
      from_le_bytes-to_le_bytes 8 a h.0,
      shift,
      read_amounts-concat amounts (front ++ part) (k + 8) fuel h.1
          (omega (arith, length-append front part)) (omega arith) (omega arith),
    )
