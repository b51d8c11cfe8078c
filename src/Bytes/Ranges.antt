-- ===== src/Bytes/Ranges.antt =====
-- Ranges of a buffer: what is read from them, and what a write elsewhere leaves of them.
use bonfida_bot.Prelude.{
  ℕ, zero, suc, ◌+◌, ◌-◌, ◌≤◌, ◌<◌, ◌≡◌, refl, sym, ap, ◌∙◌, none, some, [], ◌∷◌, ◌++◌,
  append_assoc, arith, leb, le→leb, length, take, drop, All, length-append, length-take,
  length-drop, drop-append_add, leb→le, Bool-cases, ◌⊎◌, inl, inr,
}
use bonfida_bot.Bytes.Defs.{Bytes, IsByte, IsArray, slice}

pub All-take : (n : ℕ) (xs : Bytes) → All IsByte xs → All IsByte (take n xs)
All-take zero xs h = tt
All-take (suc n) [] h = tt
All-take (suc n) (x ∷ xs) h = (h.0, All-take n xs h.1)

pub All-drop : (n : ℕ) (xs : Bytes) → All IsByte xs → All IsByte (drop n xs)
All-drop zero xs h = h
All-drop (suc n) [] h = tt
All-drop (suc n) (x ∷ xs) h = All-drop n xs h.1

-- A range that lies in the buffer is read, and holds as many bytes as it should.
pub slice_in_range :
    (lo hi : ℕ) (xs : Bytes)
    → lo ≤ hi
    → hi ≤ length xs
    → All IsByte xs
    → (part : Bytes) × (slice lo hi xs ≡ some part) × IsArray (hi - lo) part
unfolding slice
slice_in_range lo hi xs h h' bytes = (
  take (hi - lo) (drop lo xs),
  rw (le→leb lo hi h, le→leb hi (length xs) h') refl,
  record {
    size = omega (arith, length-take (hi - lo) (drop lo xs), length-drop lo xs);
    bytes = All-take (hi - lo) (drop lo xs) (All-drop lo xs bytes);
  },
)

-- A range that ends behind the buffer is not read.
pub slice_out_of_range : (lo hi : ℕ) (xs : Bytes) → length xs < hi → slice lo hi xs ≡ none
unfolding slice
slice_out_of_range lo hi xs h = ground arith

pub take-append_short : (n : ℕ) (xs ys : Bytes) → n ≤ length xs → take n (xs ++ ys) ≡ take n xs
take-append_short zero xs ys h = refl
take-append_short (suc n) [] ys h = absurd (omega arith)
take-append_short (suc n) (x ∷ xs) ys h = ap (λ l. x ∷ l) (take-append_short n xs ys (omega arith))

pub drop-append_short :
    (n : ℕ) (xs ys : Bytes) → n ≤ length xs → drop n (xs ++ ys) ≡ drop n xs ++ ys
drop-append_short zero xs ys h = refl
drop-append_short (suc n) [] ys h = absurd (omega arith)
drop-append_short (suc n) (x ∷ xs) ys h = drop-append_short n xs ys (omega arith)

pub take-drop_before :
    (lo hi : ℕ) (front xs ys : Bytes)
    → lo ≤ hi
    → hi ≤ length front
    → take (hi - lo) (drop lo (front ++ xs)) ≡ take (hi - lo) (drop lo (front ++ ys))
take-drop_before lo hi front xs ys h h' =
    let room : hi - lo ≤ length (drop lo front) = omega (arith, length-drop lo front) in
    rw (
      drop-append_short lo front xs (omega arith),
      drop-append_short lo front ys (omega arith),
      take-append_short (hi - lo) (drop lo front) xs room,
      take-append_short (hi - lo) (drop lo front) ys room,
    )

pub drop_behind :
    (lo : ℕ) (front part back : Bytes)
    → length front + length part ≤ lo
    → drop lo (front ++ (part ++ back)) ≡ drop (lo - (length front + length part)) back
drop_behind lo front part back h =
    ap (drop lo) (sym (append_assoc front part back))
    ∙ drop-append_add (lo - (length front + length part)) lo (front ++ part) back
        (omega (arith, length-append front part))

-- A range before or behind a part reads the same when the part is overwritten.
pub slice_elsewhere :
    (lo hi : ℕ) (front old new back : Bytes)
    → length old ≡ length new
    → (hi ≤ length front) ⊎ (length front + length old ≤ lo)
    → slice lo hi (front ++ (new ++ back)) ≡ slice lo hi (front ++ (old ++ back))
unfolding slice
slice_elsewhere lo hi front old new back same apart = elim (Bool-cases (leb lo hi)) [
  | inr none_at_all ↦ rw none_at_all
  | inl ordered ↦
      let size : length (front ++ (new ++ back)) ≡ length (front ++ (old ++ back)) = omega (
        arith,
        length-append front (new ++ back),
        length-append front (old ++ back),
        length-append new back,
        length-append old back,
      ) in
      let content : take (hi - lo) (drop lo (front ++ (new ++ back)))
          ≡ take (hi - lo) (drop lo (front ++ (old ++ back))) =
        elim apart [
          | inl before ↦
              take-drop_before lo hi front (new ++ back) (old ++ back) (leb→le lo hi ordered) before
          | inr behind ↦ ap (take (hi - lo)) (
              drop_behind lo front new back (omega arith)
              ∙ ap (λ n. drop (lo - (length front + n)) back) (sym same)
              ∙ sym (drop_behind lo front old back behind))
        ] in
      rw (size, content)
]
