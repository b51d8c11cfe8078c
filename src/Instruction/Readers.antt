-- ===== src/Instruction/Readers.antt =====
-- The readers of `PoolInstruction::unpack` on any bytes: what they read is in range, or they
-- return the error `InvalidInstruction`.
use bonfida_bot.Assets.Markets.{AreKeys}
use bonfida_bot.State.{non_zero}
use bonfida_bot.Instruction.Defs.{
  limit, immediate_or_cancel, post_only, decrement_take, cancel_provide, abort_transaction, bid,
  ask,
}
use bonfida_bot.Prelude.{
  Bool, ℕ, ◌+◌, ◌^◌, ◌<◌, ◌≡◌, refl, some, none, Option, length, All, get_elem?, ◌==◌,
  if◌then◌else◌, zero, suc, ◌≤◌, sym, subst, ap, true, false, [], ◌∷◌, arith,
}
use bonfida_bot.Outcome.{ok, err, Result, ◌>>=◌, ok_or, unwrap}
use bonfida_bot.Bytes.{Bytes, IsByte, slice, from_le_bytes, slice_in_range}
use bonfida_bot.Instruction.Amounts.{from_le_bytes-slice, length-slice}
use bonfida_bot.Instruction.Unpack.{
  bad, read_le, read_key, read_side, read_non_zero, read_seed, order_type_of_byte, read_order_type,
  self_trade_behavior_of_byte, read_self_trade_behavior, read_markets,
}

-- A result that is a value with the property, or the error `InvalidInstruction`.
pub data Reads {A : Type 0} (P : A → Type 0) (r : Result A) : Type 0 where
  refused : r ≡ err bad → Reads P r
  value : (a : A) → r ≡ ok a → P a → Reads P r

pub Reads-ok : {A : Type 0} {P : A → Type 0} (a : A) → P a → Reads P (ok a)
Reads-ok a p = value a refl p

pub Reads-bind :
    {A B : Type 0} {P : A → Type 0} {Q : B → Type 0} (r : Result A) (f : A → Result B)
    → Reads P r
    → ((a : A) → P a → Reads Q (f a))
    → Reads Q (r >>= f)
Reads-bind {Q = Q} r f (refused e) k = refused (ap (λ x. x >>= f) e)
Reads-bind {Q = Q} r f (value a e p) k = subst (λ x. Reads Q (x >>= f)) (sym e) (k a p)

Reads-ok_or :
    {A : Type 0} {P : A → Type 0} (o : Option A)
    → ((a : A) → o ≡ some a → P a)
    → Reads P (ok_or o bad)
Reads-ok_or none h = refused refl
Reads-ok_or (some a) h = value a refl (h a refl)

pub Reads-if :
    {A : Type 0} {P : A → Type 0} (c : Bool) (r s : Result A)
    → Reads P r
    → Reads P s
    → Reads P (if c then r else s)
Reads-if true r s x y = x
Reads-if false r s x y = y

-- A value that nothing is said of.
abbrev pub Any : {A : Type 0} → A → Type 0
Any a = Unit {0}

order_type_of_byte-Reads : (b : ℕ) → Reads Any (order_type_of_byte b)
unfolding order_type_of_byte
order_type_of_byte-Reads b = Reads-if (b == 0) _ _ (Reads-ok limit tt) (
    Reads-if (b == 1) _ _ (Reads-ok immediate_or_cancel tt)
      (Reads-if (b == 2) _ _ (Reads-ok post_only tt) (refused refl)))

self_trade_behavior_of_byte-Reads : (b : ℕ) → Reads Any (self_trade_behavior_of_byte b)
unfolding self_trade_behavior_of_byte
self_trade_behavior_of_byte-Reads b = Reads-if (b == 0) _ _ (Reads-ok decrement_take tt) (
    Reads-if (b == 1) _ _ (Reads-ok cancel_provide tt)
      (Reads-if (b == 2) _ _ (Reads-ok abort_transaction tt) (refused refl)))

non_zero-Reads : (v n : ℕ) → v < n → Reads (λ x. (0 < x) × (x < n)) (ok_or (non_zero v) bad)
non_zero-Reads zero n h = refused refl
non_zero-Reads (suc v) n h = value (suc v) refl (omega arith)

module _ (rest : Bytes) (bytes : All IsByte rest) where
  pub read_le-Reads : (lo hi k : ℕ) → lo + k ≡ hi → Reads (λ v. v < 256 ^ k) (read_le lo hi rest)
  unfolding read_le
  read_le-Reads lo hi k width =
      Reads-bind {P = λ part. slice lo hi rest ≡ some part} (ok_or (slice lo hi rest) bad) _
        (Reads-ok_or (slice lo hi rest) (λ a e. e))
        λ part e.
          Reads-ok (from_le_bytes part) (from_le_bytes-slice lo hi k rest part bytes width e)

  pub read_key-Reads :
      (lo hi k : ℕ) → lo + k ≡ hi → Reads (λ key. length key ≡ k) (read_key lo hi rest)
  unfolding read_key
  read_key-Reads lo hi k width =
      Reads-ok_or (slice lo hi rest) λ part e. length-slice lo hi k rest part bytes width e

  pub read_non_zero-Reads :
      (lo hi k : ℕ) → lo + k ≡ hi → Reads (λ v. (0 < v) × (v < 256 ^ k)) (read_non_zero lo hi rest)
  unfolding read_non_zero
  read_non_zero-Reads lo hi k width =
      Reads-bind (read_le lo hi rest) _ (read_le-Reads lo hi k width)
        λ v fits. non_zero-Reads v (256 ^ k) fits

  pub read_side-Reads : (i : ℕ) → Reads Any (read_side i rest)
  unfolding read_side
  read_side-Reads i =
      Reads-bind (ok_or (get_elem? rest i) bad) _
        (Reads-ok_or {P = Any} (get_elem? rest i) (λ a e. tt))
        λ b _.
          Reads-if (b == 0) _ _ (Reads-ok bid tt)
            (Reads-if (b == 1) _ _ (Reads-ok ask tt) (refused refl))

  pub read_order_type-Reads : (i : ℕ) → Reads Any (read_order_type i rest)
  unfolding read_order_type
  read_order_type-Reads i =
      Reads-bind (ok_or (get_elem? rest i) bad) _
        (Reads-ok_or {P = Any} (get_elem? rest i) (λ a e. tt)) λ b _. order_type_of_byte-Reads b

  pub read_self_trade_behavior-Reads : (i : ℕ) → Reads Any (read_self_trade_behavior i rest)
  unfolding read_self_trade_behavior
  read_self_trade_behavior-Reads i =
      Reads-bind (ok_or (get_elem? rest i) bad) _
        (Reads-ok_or {P = Any} (get_elem? rest i) (λ a e. tt))
        λ b _. self_trade_behavior_of_byte-Reads b

  -- A seed that is not cut short is read without a panic.
  pub read_seed-Reads : 32 ≤ length rest → Reads (λ seed. length seed ≡ 32) (read_seed rest)
  unfolding read_seed
  read_seed-Reads long =
      let (part, e, a) = slice_in_range 0 32 rest (omega arith) long bytes in
      value part (ap unwrap e) (omega (arith, a.size))

  pub read_markets-Reads :
      (n at : ℕ) → Reads (λ q. (length q.0 ≡ n) × AreKeys q.0 × (at ≤ q.1)) (read_markets n at rest)
  unfolding read_markets
  read_markets-Reads zero at = Reads-ok ([], at) (refl, tt, omega arith)
  read_markets-Reads (suc n) at =
      Reads-bind (read_key at (at + 32) rest) _ (read_key-Reads at (at + 32) 32 refl) λ market size.
        Reads-bind (read_markets n (at + 32) rest) _ (read_markets-Reads n (at + 32))
          λ (markets, end) (count, keys, after).
            Reads-ok (market ∷ markets, end) (ap suc count, (size, keys), omega arith)
