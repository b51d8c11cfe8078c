-- ===== src/Runtime/Progress.antt =====
-- Running a handler forward: a step whose result is known, with what follows it.
use bonfida_bot.Prelude.{◌≡◌, ap, ◌∙◌, false, Bool, not, refl, List, [], ◌∷◌, ◌++◌}
use bonfida_bot.Outcome.{ok, Result, ProgramError}
use bonfida_bot.Bytes.{Bytes, eq_bytes, eq_bytes_self}
use bonfida_bot.Runtime.{
  Action, World, ◌>>=◌, ◌>>◌, continue, lift, require_not, Instruction, AccountInfo, Ledger,
  Runtime, invoke_signed,
}

module _ {A B : Type 0} {r : Result (B × World)} where
  pub step :
      (m : Action A) (f : A → Action B) (w : World) {a : A} {v : World}
      → m w ≡ ok (a, v)
      → f a v ≡ r
      → (m >>= f) w ≡ r
  step m f w e rest = ap (λ x. continue x f) e ∙ rest

  pub step_lift :
      (x : Result A) (f : A → Action B) (w : World) {a : A}
      → x ≡ ok a
      → f a w ≡ r
      → (lift x >>= f) w ≡ r
  step_lift x f w e rest = ap (λ y. continue (lift y w) f) e ∙ rest

module _ {B : Type 0} {r : Result (B × World)} where
  -- A check that is passed.
  pub step_check :
      (c : Bool) (e : ProgramError) (k : Action B) (w : World)
      → c ≡ false
      → k w ≡ r
      → (require_not c e >> k) w ≡ r
  step_check c e k w passed rest = ap (λ b. (require_not b e >> k) w) passed ∙ rest

  pub step_same :
      (a b : Bytes) (e : ProgramError) (k : Action B) (w : World)
      → a ≡ b
      → k w ≡ r
      → (require_not (not (eq_bytes a b)) e >> k) w ≡ r
  step_same a b e k w same rest =
      step_check (not (eq_bytes a b)) e k w
        (ap (λ x. not (eq_bytes x b)) same ∙ ap not (eq_bytes_self b)) rest

-- The world after a call.
abbrev pub called : Instruction → List AccountInfo → List (List Bytes) → Ledger → World → World
called i infos seeds ledger w = record {
  ledger = ledger;
  calls =
      w.calls ++ (record { instruction = i; account_infos = infos; signers_seeds = seeds } ∷ []);
}

pub invoke_signed_lem :
    (rt : Runtime) (i : Instruction) (infos : List AccountInfo) (seeds : List (List Bytes))
    (w : World) (ledger : Ledger)
    → rt.invoke_signed i infos seeds w.ledger ≡ ok ledger
    → invoke_signed rt i infos seeds w ≡ ok (tt, called i infos seeds ledger w)
invoke_signed_lem rt i infos seeds w ledger e = rw (e, invoke_signed) refl
