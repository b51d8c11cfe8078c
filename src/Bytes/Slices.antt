-- ===== src/Bytes/Slices.antt =====
-- Reading and writing parts of a buffer that is laid out as one part after another.
use bonfida_bot.Prelude.{
  append-nil, ℕ, zero, suc, ◌+◌, ◌-◌, ◌≤◌, ◌≡◌, refl, sym, ap, ◌∙◌, true, some, List, [], ◌∷◌, ◌++◌,
  append_assoc, arith, leb, ◌==◌, le→leb, length, get_elem?, take, drop, length-append, length-take,
  length-drop, take-append, drop-append, drop-append_add, drop-drop, take-append-drop,
}
use bonfida_bot.Outcome.{ok}
use bonfida_bot.Bytes.Defs.{Bytes, slice, copy_from_slice}

-- The part of a buffer that lies between two others.
pub slice_middle :
    (front part back : Bytes) (lo hi : ℕ)
    → length front ≡ lo
    → lo + length part ≡ hi
    → slice lo hi (front ++ (part ++ back)) ≡ some part
unfolding slice
slice_middle front part back lo hi hf hp =
    let size = length-append front (part ++ back) in
    let size' = length-append part back in
    let first : leb lo hi ≡ true = le→leb lo hi (omega arith) in
    let second : leb hi (length (front ++ (part ++ back))) ≡ true =
      le→leb hi _ (omega (arith, size, size')) in
    rw (first, second, drop-append lo front (part ++ back) hf)
      (ap some (take-append (hi - lo) part back (omega arith)))

pub slice_whole : (xs : Bytes) (n : ℕ) → length xs ≡ n → slice 0 n xs ≡ some xs
slice_whole xs n e = rw append-nil at (slice_middle [] xs [] 0 n refl (omega arith))

-- A buffer made of parts, one after another, and of what follows them.
abbrev pub concat : List Bytes → Bytes → Bytes
concat [] rest = rest
concat (p ∷ ps) rest = p ++ concat ps rest

-- Where part `i` begins.
abbrev pub offset : List Bytes → ℕ → ℕ
offset [] i = 0
offset (p ∷ ps) zero = 0
offset (p ∷ ps) (suc i) = length p + offset ps i

slice-concat_from :
    (front : Bytes) (ps : List Bytes) (rest : Bytes) (i : ℕ) (part : Bytes)
    → get_elem? ps i ≡ some part
    → (lo hi : ℕ) → length front + offset ps i ≡ lo
    → lo + length part ≡ hi
    → slice lo hi (front ++ concat ps rest) ≡ some part
slice-concat_from front [] rest i part e lo hi hl hh = cc
slice-concat_from front (p ∷ ps) rest zero part e lo hi hl hh =
    let same : p ≡ part = ground arith in
    rw same (slice_middle front part (concat ps rest) lo hi (omega arith) hh)
slice-concat_from front (p ∷ ps) rest (suc i) part e lo hi hl hh =
    rw (← append_assoc front p (concat ps rest)) (
      slice-concat_from (front ++ p) ps rest i part e lo hi (omega (arith, length-append front p))
        hh)

-- Part `i` is read back from the buffer.
pub slice-concat :
    (ps : List Bytes) (rest : Bytes) (i lo hi : ℕ) (part : Bytes)
    → get_elem? ps i ≡ some part
    → offset ps i ≡ lo
    → lo + length part ≡ hi
    → slice lo hi (concat ps rest) ≡ some part
slice-concat ps rest i lo hi part e hl hh =
    slice-concat_from [] ps rest i part e lo hi (omega arith) hh

pub length-concat :
    (ps : List Bytes) (rest : Bytes) → length (concat ps rest) ≡ offset ps (length ps) + length rest
length-concat [] rest = omega arith
length-concat (p ∷ ps) rest = omega (arith, length-append p (concat ps rest), length-concat ps rest)

-- A write behind what has been written already.
pub copy-append :
    (done src rest : Bytes) (lo hi : ℕ)
    → length done ≡ lo
    → lo + length src ≡ hi
    → length src ≤ length rest
    → copy_from_slice lo hi src (done ++ rest) ≡ ok ((done ++ src) ++ drop (length src) rest)
unfolding copy_from_slice
copy-append done src rest lo hi hd hs hr =
    let first : leb lo hi ≡ true = le→leb lo hi (omega arith) in
    let second : leb hi (length (done ++ rest)) ≡ true =
      le→leb hi _ (omega (arith, length-append done rest)) in
    let third : (length src == hi - lo) ≡ true = ground arith in
    rw (first, second, third, take-append lo done rest hd)
      (rw (drop-append_add (length src) hi done rest (omega arith), append_assoc) refl)

-- The parts in front, and the rest behind them.
pub concat-append : (ps : List Bytes) (rest : Bytes) → concat ps rest ≡ concat ps [] ++ rest
concat-append [] rest = refl
concat-append (p ∷ ps) rest =
    ap (λ l. p ++ l) (concat-append ps rest) ∙ sym (append_assoc p (concat ps []) rest)

pub concat_parts :
    (ps qs : List Bytes) (rest : Bytes) → concat (ps ++ qs) rest ≡ concat ps (concat qs rest)
concat_parts [] qs rest = refl
concat_parts (p ∷ ps) qs rest = ap (λ l. p ++ l) (concat_parts ps qs rest)

concat_last :
    (ps : List Bytes) (src rest : Bytes)
    → (concat ps [] ++ src) ++ rest ≡ concat (ps ++ (src ∷ [])) rest
concat_last [] src rest = refl
concat_last (p ∷ ps) src rest =
    rw (append_assoc p (concat ps []) src, append_assoc p (concat ps [] ++ src) rest)
      (ap (λ l. p ++ l) (concat_last ps src rest))

-- The buffer `target` is overwritten from its start, part by part; `lo` bytes are written already.
pub copy-concat :
    (target : Bytes) (ps : List Bytes) (src : Bytes) (lo hi : ℕ)
    → offset ps (length ps) ≡ lo
    → lo + length src ≡ hi
    → hi ≤ length target
    → copy_from_slice lo hi src (concat ps (drop lo target))
      ≡ ok (concat (ps ++ (src ∷ [])) (drop hi target))
copy-concat target ps src lo hi hl hs ht =
    let size : length (concat ps []) ≡ lo = omega (arith, length-concat ps []) in
    ap (copy_from_slice lo hi src) (concat-append ps (drop lo target))
    ∙ copy-append (concat ps []) src (drop lo target) lo hi size hs
        (omega (arith, length-drop lo target))
    ∙ ap ok (
        concat_last ps src (drop (length src) (drop lo target))
        ∙ ap (concat (ps ++ (src ∷ [])))
            (drop-drop (length src) lo target ∙ ap (λ n. drop n target) hs))

-- A write in the middle of a buffer.
pub copy_middle :
    (front old new back : Bytes) (lo hi : ℕ)
    → length front ≡ lo
    → lo + length old ≡ hi
    → length new ≡ length old
    → copy_from_slice lo hi new (front ++ (old ++ back)) ≡ ok (front ++ (new ++ back))
copy_middle front old new back lo hi hf ho hn =
    copy-append front new (old ++ back) lo hi hf (omega arith)
      (omega (arith, length-append old back))
    ∙ ap ok (
        append_assoc front new (drop (length new) (old ++ back))
        ∙ ap (λ l. front ++ (new ++ l)) (drop-append (length new) old back (sym hn)))

pub copy_whole :
    (old new : Bytes) (n : ℕ)
    → length old ≡ n
    → length new ≡ n
    → copy_from_slice 0 n new old ≡ ok new
copy_whole old new n ho hn =
    ap (copy_from_slice 0 n new) (sym (append-nil old))
    ∙ copy_middle [] old new [] 0 n refl (omega arith) (omega arith)
    ∙ ap ok (append-nil new)

-- A buffer cut where the range begins and where it ends.
pub cut :
    (lo hi : ℕ) (xs : Bytes)
    → lo ≤ hi
    → hi ≤ length xs
    → (front : Bytes) × (part : Bytes) × (back : Bytes) × (xs ≡ front ++ (part ++ back))
      × (length front ≡ lo)
      × (lo + length part ≡ hi)
cut lo hi xs h h' = (
  take lo xs,
  take (hi - lo) (drop lo xs),
  drop (hi - lo) (drop lo xs),
  sym (
      ap (λ l. take lo xs ++ l) (take-append-drop (hi - lo) (drop lo xs)) ∙ take-append-drop lo xs),
  omega (arith, length-take lo xs),
  omega (arith, length-take (hi - lo) (drop lo xs), length-drop lo xs),
)
