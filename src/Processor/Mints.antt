-- ===== src/Processor/Mints.antt =====
-- The calls that mint pool tokens.
use bonfida_bot.Prelude.{ℕ, ◌≡◌, refl, ap, List, [], ◌∷◌, ◌++◌, map, arith}
use bonfida_bot.Outcome.{ok}
use bonfida_bot.Bytes.{Bytes}
use bonfida_bot.State.{PoolHeader, Pubkey}
use bonfida_bot.Runtime.{Runtime, AccountInfo, Instruction, World, invoke_signed}
use bonfida_bot.Runtime.Inversion.{lift-then}
use bonfida_bot.Processor.Common.{mint_pool_tokens, write_header}

-- The instructions that have been called, in order.
unfoldable pub instructions : World → List Instruction
instructions w = map (λ c. c.instruction) w.calls

pub map-append :
    {A B : Type 0} (f : A → B) (xs ys : List A) → map f (xs ++ ys) ≡ map f xs ++ map f ys
map-append f [] ys = refl
map-append f (x ∷ xs) ys = ap (λ l. f x ∷ l) (map-append f xs ys)

module _ (rt : Runtime) where
  pub invoke_signed-calls :
      (i : Instruction) (infos : List AccountInfo) (seeds : List (List Bytes)) (w w' : World)
      → invoke_signed rt i infos seeds w ≡ ok (tt, w')
      → w'.calls
        ≡ w.calls ++ (record { instruction = i; account_infos = infos; signers_seeds = seeds } ∷ [])
  invoke_signed-calls i infos seeds w w' h = ground arith

  pub invoke_signed-eq-ok :
      (i : Instruction) (infos : List AccountInfo) (seeds : List (List Bytes)) (w w' : World)
      → invoke_signed rt i infos seeds w ≡ ok (tt, w')
      → instructions w' ≡ instructions w ++ (i ∷ [])
  unfolding instructions
  invoke_signed-eq-ok i infos seeds w w' h =
      rw (invoke_signed-calls i infos seeds w w' h) (map-append _ w.calls _)

  pub mint_pool_tokens-eq-ok :
      (spl mint target pool : AccountInfo) (mint_key target_key : Pubkey) (seed : Bytes)
      (amount : ℕ) (w w' : World)
      → mint_pool_tokens rt spl mint target pool mint_key target_key seed amount w ≡ ok (tt, w')
      → (i : Instruction) × (rt.mint_to spl.key mint_key target_key pool.key [] amount ≡ ok i)
        × (instructions w' ≡ instructions w ++ (i ∷ []))
  unfolding mint_pool_tokens
  mint_pool_tokens-eq-ok spl mint target pool mint_key target_key seed amount w w' h =
      lift-then (rt.mint_to spl.key mint_key target_key pool.key [] amount) _ w h
        λ i e h. (i, e, invoke_signed-eq-ok i _ _ w w' h)

pub write_header-calls :
    (pool : AccountInfo) (header : PoolHeader) (w w' : World)
    → write_header pool header w ≡ ok (tt, w')
    → instructions w' ≡ instructions w
unfolding write_header instructions
write_header-calls pool header w w' h = ground arith
