-- ===== src/Pool/Front.antt =====
-- Writes that keep the length of a buffer and what stands in front of some offset.
use bonfida_bot.Outcome
use bonfida_bot.Prelude.{
  ℕ, ◌+◌, ◌-◌, ◌≤◌, ◌≡◌, refl, sym, ap, ◌∙◌, zero, suc, [], ◌∷◌, ◌++◌, arith, length, take, drop,
  leb, ◌==◌, Bool-cases, inl, inr, length-append, length-take, length-drop, ◌&&◌, leb→le, false,
  none, take-append, drop-append, take-append-drop,
}
use bonfida_bot.Processor.Headers.{with_tail_lem}
use bonfida_bot.State.{PoolHeader, header_len}
use bonfida_bot.State.Layout.{header_bytes, IsSized, length-header_bytes, header_parts}
use bonfida_bot.Bytes.{Bytes, copy_from_slice, slice, concat-append}
use bonfida_bot.Outcome.{ok, Result, panicked, err, ◌>>=◌}
use bonfida_bot.Processor.Common.{with_tail}
use bonfida_bot.Pool.Step.{SameFront}

-- A copy that succeeds has the size of its range, and keeps the buffer's length.
pub copy_from_slice-eq-ok :
    (lo hi : ℕ) (src xs ys : Bytes)
    → copy_from_slice lo hi src xs ≡ ok ys
    → (length ys ≡ length xs) × (lo + length src ≡ hi) × (hi ≤ length xs)
unfolding copy_from_slice
copy_from_slice-eq-ok lo hi src xs ys h =
    elim (Bool-cases (leb lo hi && leb hi (length xs) && (length src == hi - lo))) [
      | inr failed ↦ let h' = rw failed at h in cc
      | inl yes_it_is ↦
          let h' = rw yes_it_is at h in
          let same : take lo xs ++ (src ++ drop hi xs) ≡ ys = cc in
          let in_range : (lo ≤ hi) × (hi ≤ length xs) × (length src ≡ hi - lo) = ground arith in
          (
            ap length (sym same)
                ∙ omega (
                  arith,
                  length-append (take lo xs) (src ++ drop hi xs),
                  length-append src (drop hi xs),
                  length-take lo xs,
                  length-drop hi xs,
                ),
            omega arith,
            in_range.1,
          )
    ]

pub SameFront-refl : (n : ℕ) (xs : Bytes) → SameFront n xs xs
SameFront-refl n xs = record { size = refl; front = refl }

pub SameFront-trans :
    (n : ℕ) (xs ys zs : Bytes) → SameFront n xs ys → SameFront n ys zs → SameFront n xs zs
SameFront-trans n xs ys zs a b = record { size = a.size ∙ b.size; front = a.front ∙ b.front }

take-take_append :
    (n m : ℕ) (xs ys : Bytes) → n ≤ m → m ≤ length xs → take n (take m xs ++ ys) ≡ take n xs
take-take_append zero m xs ys h h' = refl
take-take_append (suc n) zero xs ys h h' = absurd (omega arith)
take-take_append (suc n) (suc m) [] ys h h' = absurd (omega arith)
take-take_append (suc n) (suc m) (x ∷ xs) ys h h' =
    ap (λ l. x ∷ l) (take-take_append n m xs ys (omega arith) (omega arith))

pub >>=-eq-ok :
    {A B : Type 0} (r : Result A) (f : A → Result B) {b : B}
    → Outcome.◌>>=◌ r f ≡ ok b
    → (a : A) × (r ≡ ok a) × (f a ≡ ok b)
>>=-eq-ok (ok a) f h = (a, refl, h)
>>=-eq-ok (err e) f h = cc
>>=-eq-ok panicked f h = cc

pub ok-inj : {A : Type 0} {a b : A} → Path (Result A) (ok a) (ok b) → a ≡ b
ok-inj e = cc

tail_none :
    (start : ℕ) (xs : Bytes) → leb start (length xs) ≡ false → slice start (length xs) xs ≡ none
unfolding slice
tail_none start xs h = rw h refl

-- A change behind `start` that succeeds, found again.
pub with_tail-eq-ok :
    (start : ℕ) (change : Bytes → Result Bytes) (xs ys : Bytes)
    → with_tail start change xs ≡ ok ys
    → (start ≤ length xs)
      × (tail : Bytes) × (change (drop start xs) ≡ ok tail)
      × (ys ≡ take start xs ++ tail)
unfolding with_tail
with_tail-eq-ok start change xs ys h = elim (Bool-cases (leb start (length xs))) [
  | inl fits ↦
      let big = leb→le start (length xs) fits in
      let (tail, changed, e) =
        >>=-eq-ok (change (drop start xs)) _ (sym (with_tail_lem start change xs big) ∙ h) in
      (big, tail, changed, sym (ok-inj e))
  | inr short ↦ let h' = rw (tail_none start xs short) at h in cc
]

-- A change that keeps the length, made behind `start`.
pub with_tail-SameFront :
    (start : ℕ) (change : Bytes → Result Bytes) (xs ys : Bytes)
    → ((us vs : Bytes) → change us ≡ ok vs → length vs ≡ length us)
    → with_tail start change xs ≡ ok ys
    → (n : ℕ) → n ≤ start
    → SameFront n xs ys
with_tail-SameFront start change xs ys keeps h n before =
    let (big, tail, changed, e) = with_tail-eq-ok start change xs ys h in
    record {
      size = omega (
        arith,
        ap length e,
        length-append (take start xs) tail,
        length-take start xs,
        length-drop start xs,
        keeps (drop start xs) tail changed,
      );
      front = sym (ap (take n) e ∙ take-take_append n start xs tail before big);
    }

take_front : (m n : ℕ) (xs : Bytes) → take m (take (m + n) xs) ≡ take m xs
take_front zero n xs = refl
take_front (suc m) n [] = let e : suc m + n ≡ suc (m + n) = omega arith in rw e refl
take_front (suc m) n (x ∷ xs) =
    let e : suc m + n ≡ suc (m + n) = omega arith in rw e (ap (λ l. x ∷ l) (take_front m n xs))

drop-take : (m n : ℕ) (xs : Bytes) → drop m (take (m + n) xs) ≡ take n (drop m xs)
drop-take zero n xs = let e : 0 + n ≡ n = omega arith in rw e refl
drop-take (suc m) zero [] = let e : suc m + 0 ≡ suc m = omega arith in rw e refl
drop-take (suc m) (suc n) [] = let e : suc m + suc n ≡ suc (m + suc n) = omega arith in rw e refl
drop-take (suc m) n (x ∷ xs) =
    let e : suc m + n ≡ suc (m + n) = omega arith in rw e (drop-take m n xs)

-- Behind a header: the header stays, and so does the front of what follows it.
pub SameFront-header :
    (h : PoolHeader) (rest ys : Bytes) (n : ℕ)
    → IsSized h
    → SameFront (header_len + n) (header_bytes h rest) ys
    → (rest' : Bytes) × (ys ≡ header_bytes h rest') × SameFront n rest rest'
SameFront-header h rest ys n v same =
    let full : length (header_bytes h []) ≡ header_len =
      omega (arith, length-header_bytes h [] v) in
    let split = concat-append (header_parts h) rest in
    let first : take header_len (header_bytes h rest) ≡ header_bytes h [] =
      ap (take header_len) split ∙ take-append header_len (header_bytes h []) rest full in
    let last : drop header_len (header_bytes h rest) ≡ rest =
      ap (drop header_len) split ∙ drop-append header_len (header_bytes h []) rest full in
    let kept : take header_len ys ≡ header_bytes h [] =
      sym (take_front header_len n ys)
      ∙ ap (take header_len) (sym same.front)
      ∙ take_front header_len n (header_bytes h rest)
      ∙ first in
    (
      drop header_len ys,
      sym (take-append-drop header_len ys)
          ∙ ap (λ l. l ++ drop header_len ys) kept
          ∙ sym (concat-append (header_parts h) (drop header_len ys)),
      record {
        size = omega (arith, same.size, length-drop header_len ys, length-header_bytes h rest v);
        front =
            ap (take n) (sym last)
            ∙ sym (drop-take header_len n (header_bytes h rest))
            ∙ ap (drop header_len) same.front
            ∙ drop-take header_len n ys;
      },
    )

-- A change of all that follows a header.
pub with_tail-header :
    (h : PoolHeader) (rest ys : Bytes) (change : Bytes → Result Bytes)
    → IsSized h
    → with_tail header_len change (header_bytes h rest) ≡ ok ys
    → (rest' : Bytes) × (change rest ≡ ok rest') × (ys ≡ header_bytes h rest')
with_tail-header h rest ys change v e =
    let full : length (header_bytes h []) ≡ header_len =
      omega (arith, length-header_bytes h [] v) in
    let split = concat-append (header_parts h) rest in
    let (_, tail, changed, there) = with_tail-eq-ok header_len change (header_bytes h rest) ys e in
    (
      tail,
      ap change (
            sym (ap (drop header_len) split ∙ drop-append header_len (header_bytes h []) rest full))
          ∙ changed,
      there
          ∙ ap (λ l. l ++ tail)
              (ap (take header_len) split ∙ take-append header_len (header_bytes h []) rest full)
          ∙ sym (concat-append (header_parts h) tail),
    )

pub drop-header :
    (h : PoolHeader) (rest : Bytes) → IsSized h → drop header_len (header_bytes h rest) ≡ rest
drop-header h rest v =
    let full : length (header_bytes h []) ≡ header_len =
      omega (arith, length-header_bytes h [] v) in
    ap (drop header_len) (concat-append (header_parts h) rest)
    ∙ drop-append header_len (header_bytes h []) rest full
