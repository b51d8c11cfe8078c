-- ===== src/Runtime/Inversion.antt =====
-- Going through a handler that succeeded, one step at a time: what follows from each step is
-- given as a function of what the step yields.
use bonfida_bot.Bytes.{Bytes, eq_bytes, eq_of_eq_bytes}
use bonfida_bot.Prelude.{◌≡◌, refl, sym, subst, ap, ◌∙◌, Bool, true, false, not, arith}
use bonfida_bot.Outcome.{ok, ProgramError, Result, err, panicked}
use bonfida_bot.Runtime.{World, ◌>>=◌, ◌>>◌, >>=-eq-ok, lift, Action, require_not}

module _ {A B : Type 0} {G : Type 0} {x : B × World} where
  -- A step that looks at its arguments.
  pub lift-then :
      (r : Result A) (f : A → Action B) (w : World)
      → (lift r >>= f) w ≡ ok x
      → ((a : A) → r ≡ ok a → f a w ≡ ok x → G)
      → G
  lift-then (ok a) f w h k = k a refl h
  lift-then (err e) f w h k = cc
  lift-then panicked f w h k = cc

  -- A step that looks at the world, too.
  pub reads-then :
      (m : Action A) (f : A → Action B) (w : World)
      → ((a : A) (v : World) → m w ≡ ok (a, v) → w ≡ v)
      → (m >>= f) w ≡ ok x
      → ((a : A) → m w ≡ ok (a, w) → f a w ≡ ok x → G)
      → G
  reads-then m f w reads h k =
      let (a, v, e, h') = >>=-eq-ok m f w h in
      let same = sym (reads a v e) in
      k a (e ∙ ap (λ u. ok (a, u)) same) (subst (λ u. f a u ≡ ok x) same h')

  -- A step that changes the world.
  pub then :
      (m : Action A) (f : A → Action B) (w : World)
      → (m >>= f) w ≡ ok x
      → ((a : A) (v : World) → m w ≡ ok (a, v) → f a v ≡ ok x → G)
      → G
  then m f w h k = let (a, v, e, h') = >>=-eq-ok m f w h in k a v e h'

module _ {B : Type 0} {G : Type 0} {x : B × World} where
  -- A check.
  pub check-then :
      (c : Bool) (e : ProgramError) (k : Action B) (w : World)
      → (require_not c e >> k) w ≡ ok x
      → (c ≡ false → k w ≡ ok x → G)
      → G
  check-then true e k w h f = cc
  check-then false e k w h f = f refl h

  -- A check that two keys are equal.
  pub same-then :
      (a b : Bytes) (e : ProgramError) (k : Action B) (w : World)
      → (require_not (not (eq_bytes a b)) e >> k) w ≡ ok x
      → (a ≡ b → k w ≡ ok x → G)
      → G
  same-then a b e k w h f =
      check-then (not (eq_bytes a b)) e k w h (λ c. f (eq_of_eq_bytes a b (ground arith)))
