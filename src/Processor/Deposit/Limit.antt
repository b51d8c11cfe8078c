-- ===== src/Processor/Deposit/Limit.antt =====
-- The number of pool tokens that the source accounts of a deposit can pay for.
use bonfida_bot.Prelude.{
  ℕ, zero, suc, ◌*◌, ◌/◌, ◌^◌, ◌<◌, ◌≤◌, ◌≡◌, ◌⊎◌, inl, inr, refl, sym, subst, min, List, [], ◌∷◌,
  arith, ◌∙◌,
}
use native.Mathlib.Nat.{le_trans, mod-le, mod-eq_of_lt, le-div_iff_mul-le, div-lt_iff_lt-mul}
use bonfida_bot.Outcome.{ok}
use bonfida_bot.Runtime.{Runtime, World, AccountInfo, TokenAccount}
use bonfida_bot.Runtime.Inversion.{lift-then, then}
use bonfida_bot.State.{Pubkey}
use bonfida_bot.Processor.Deposit.{affordable, buy_in_limit}

-- Whoever asks for no more than the code's bound can pay for it: the share of the pool's holding,
-- before it is rounded down, is no more than the source holds.
pub affordable-le :
    (source supply held n : ℕ) → n ≤ affordable source supply held → n * held ≤ source * supply
unfolding affordable
affordable-le source supply zero n bound = ground arith
affordable-le source supply (suc m) n bound =
    let below : n ≤ source * supply / suc m = le_trans bound (mod-le _ _) in
    (le-div_iff_mul-le (ground arith)).0 below

-- If the bound is not cut off to a u64, then whoever can pay for a u64 asks for no more than it.
pub affordable-greatest :
    (source supply held n : ℕ)
    → (held ≡ 0) ⊎ (source * supply < 2 ^ 64 * held)
    → n < 2 ^ 64
    → n * held ≤ source * supply
    → n ≤ affordable source supply held
unfolding affordable
affordable-greatest source supply zero n fits small pays = omega arith
affordable-greatest source supply (suc m) n (inl empty) small pays = ground arith
affordable-greatest source supply (suc m) n (inr fits) small pays =
    let whole : source * supply / suc m < 2 ^ 64 = (div-lt_iff_lt-mul (ground arith)).1 fits in
    let below : n ≤ source * supply / suc m = (le-div_iff_mul-le (ground arith)).1 pays in
    subst (λ x. n ≤ x) (sym (mod-eq_of_lt whole)) below

-- The pool's accounts hold the amounts, and for every asset `P` holds of the amount and of what the
-- source holds.
pub data Sources (rt : Runtime) (w : World) (P : ℕ → ℕ → Type 0)
    : List AccountInfo → List AccountInfo → List ℕ → Type 0 where
  nothing : (sources : List AccountInfo) → Sources rt w P [] sources []
  one_more :
      (pool source : AccountInfo) (pools sources : List AccountInfo) (amount : ℕ) (amounts : List ℕ)
      (held owned : TokenAccount)
      → rt.unpack_account (w.ledger pool.key).bytes ≡ ok held
      → rt.unpack_account (w.ledger source.key).bytes ≡ ok owned
      → held.amount ≡ amount
      → P amount owned.amount
      → Sources rt w P pools sources amounts
      → Sources rt w P (pool ∷ pools) (source ∷ sources) (amount ∷ amounts)

-- Every source holds the exact share of the pool's holding for `n` of the `supply` tokens.
abbrev pub Affords : Runtime → World → ℕ → ℕ → List AccountInfo → List AccountInfo → List ℕ → Type 0
Affords rt w supply n = Sources rt w (λ held owned. n * held ≤ owned * supply)

-- For every asset, the number of tokens that the source can pay for is a u64, or the pool holds
-- nothing.
abbrev pub Fits : Runtime → World → ℕ → List AccountInfo → List AccountInfo → List ℕ → Type 0
Fits rt w supply = Sources rt w (λ held owned. (held ≡ 0) ⊎ (owned * supply < 2 ^ 64 * held))

-- The largest number up to `most` of tokens that all sources can pay for.
pub record IsLimit (rt : Runtime) (w : World) (supply most : ℕ) (pools sources : List AccountInfo)
    (amounts : List ℕ) (limit : ℕ) : Type 0 where
  pub bounded : limit ≤ most
  pub affords : Affords rt w supply limit pools sources amounts
  pub greatest : (n : ℕ) → n ≤ most → Affords rt w supply n pools sources amounts → n ≤ limit

-- The same, where the maximum rests on bounds that are u64.
record IsBound (rt : Runtime) (w : World) (supply most : ℕ) (pools sources : List AccountInfo)
    (amounts : List ℕ) (limit : ℕ) : Type 0 where
  bounded : limit ≤ most
  affords : Affords rt w supply limit pools sources amounts
  greatest_if :
      most < 2 ^ 64
      → Fits rt w supply pools sources amounts
      → (n : ℕ) → n ≤ most
      → Affords rt w supply n pools sources amounts
      → n ≤ limit

module _ (rt : Runtime) (program_id : Pubkey) where
  pays_at_most :
      (supply most limit : ℕ) (pool source : AccountInfo) (pools sources : List AccountInfo)
      (amounts : List ℕ) (held owned : TokenAccount) (w : World) (n : ℕ)
      → rt.unpack_account (w.ledger source.key).bytes ≡ ok owned
      → IsBound rt w supply
          (min (affordable owned.amount supply held.amount) most)
          pools
          sources
          amounts
          limit
      → most < 2 ^ 64
      → Fits rt w supply (pool ∷ pools) (source ∷ sources) (held.amount ∷ amounts)
      → n ≤ most
      → Affords rt w supply n (pool ∷ pools) (source ∷ sources) (held.amount ∷ amounts)
      → n ≤ limit
  pays_at_most supply most limit pool source pools sources amounts held owned w n e2 l small
        (Sources.one_more _ _ _ _ _ _ _ owned'' _ e2'' _ fits others_fit) within
        (Sources.one_more _ _ _ _ _ _ _ owned' _ e2' _ pays others) =
      let owned_is : owned' ≡ owned = cc in
      let owned_is' : owned'' ≡ owned = cc in
      let below =
        affordable-greatest owned.amount supply held.amount n
          (subst (λ o. (held.amount ≡ 0) ⊎ (o.amount * supply < 2 ^ 64 * held.amount)) owned_is'
            fits)
          (omega arith) (subst (λ o. n * held.amount ≤ o.amount * supply) owned_is pays) in
      l.greatest_if (omega arith) others_fit n (omega arith) others

  IsBound-one_more :
      (supply most limit : ℕ) (pool source : AccountInfo) (pools sources : List AccountInfo)
      (amounts : List ℕ) (held owned : TokenAccount) (w : World)
      → rt.unpack_account (w.ledger pool.key).bytes ≡ ok held
      → rt.unpack_account (w.ledger source.key).bytes ≡ ok owned
      → IsBound rt w supply
          (min (affordable owned.amount supply held.amount) most)
          pools
          sources
          amounts
          limit
      → IsBound rt w supply most (pool ∷ pools) (source ∷ sources) (held.amount ∷ amounts) limit
  IsBound-one_more supply most limit pool source pools sources amounts held owned w e1 e2 l =
      let below = l.bounded in
      record {
        bounded = omega arith;
        affords =
            Sources.one_more pool source pools sources held.amount amounts held owned e1 e2 refl
              (affordable-le owned.amount supply held.amount limit (omega arith)) l.affords;
        greatest_if = λ small fits n within all.
            pays_at_most supply most limit pool source pools sources amounts held owned w n e2 l
              small fits within all;
      }

  buy_in_limit-IsBound :
      (supply : ℕ) (pools sources : List AccountInfo) (most limit : ℕ) (amounts : List ℕ)
      (w w' : World)
      → buy_in_limit rt program_id supply pools sources most w ≡ ok ((amounts, limit), w')
      → (w ≡ w') × IsBound rt w supply most pools sources amounts limit
  unfolding buy_in_limit
  buy_in_limit-IsBound supply [] sources most limit amounts w w' e =
      let none_held : [] ≡ amounts = cc in
      let all : most ≡ limit = cc in
      let same : w ≡ w' = cc in
      (
        same,
        subst (λ l. IsBound rt w supply most [] sources amounts l) all
            (subst (λ l. IsBound rt w supply most [] sources l most) none_held
              (record {
                bounded = omega arith;
                affords = Sources.nothing sources;
                greatest_if = λ small fits n within all. within;
              })),
      )
  buy_in_limit-IsBound supply (pool ∷ pools) [] most limit amounts w w' e = cc
  buy_in_limit-IsBound supply (pool ∷ pools) (source ∷ sources) most limit amounts w w' e =
      lift-then (rt.unpack_account (w.ledger pool.key).bytes) _ w e λ held e1 e.
        lift-then (rt.unpack_account (w.ledger source.key).bytes) _ w e λ owned e2 e.
          then
            (buy_in_limit rt program_id supply pools sources
              (min (affordable owned.amount supply held.amount) most))
            _ w e
            λ (others, limit') v e3 e.
              let (same, found) =
                buy_in_limit-IsBound supply pools sources
                  (min (affordable owned.amount supply held.amount) most) limit' others w v e3 in
              let world_is : v ≡ w' = cc in
              let limit_is : limit' ≡ limit = cc in
              let amounts_are : held.amount ∷ others ≡ amounts = cc in
              (
                same ∙ world_is,
                subst (λ l. IsBound rt w supply most (pool ∷ pools) (source ∷ sources) amounts l)
                    limit_is
                    (subst
                      (λ l. IsBound rt w supply most (pool ∷ pools) (source ∷ sources) l limit')
                      amounts_are
                      (IsBound-one_more supply most limit' pool source pools sources others held
                        owned w e1 e2 found)),
              )

  -- If the loop of a deposit over the assets succeeds, it changes nothing, and yields the amounts
  -- that the pool holds, and a number of pool tokens up to `most` that every source can pay for.
  pub buy_in_limit-Affords :
      (supply : ℕ) (pools sources : List AccountInfo) (most limit : ℕ) (amounts : List ℕ)
      (w w' : World)
      → buy_in_limit rt program_id supply pools sources most w ≡ ok ((amounts, limit), w')
      → (w ≡ w') × (limit ≤ most) × Affords rt w supply limit pools sources amounts
  buy_in_limit-Affords supply pools sources most limit amounts w w' e =
      let (same, found) = buy_in_limit-IsBound supply pools sources most limit amounts w w' e in
      (same, found.bounded, found.affords)

  -- If the loop of a deposit over the assets succeeds, and if for each asset of which the pool holds
  -- some the number of pool tokens that the source can pay for is a u64, it changes nothing, and
  -- yields the amounts that the pool holds, and the largest number of pool tokens up to `most`, a
  -- u64, for which every source holds the share of the pool's holding.
  pub buy_in_limit-IsLimit :
      (supply : ℕ) (pools sources : List AccountInfo) (most limit : ℕ) (amounts : List ℕ)
      (w w' : World)
      → most < 2 ^ 64
      → Fits rt w supply pools sources amounts
      → buy_in_limit rt program_id supply pools sources most w ≡ ok ((amounts, limit), w')
      → (w ≡ w') × IsLimit rt w supply most pools sources amounts limit
  buy_in_limit-IsLimit supply pools sources most limit amounts w w' small fits e =
      let (same, found) = buy_in_limit-IsBound supply pools sources most limit amounts w w' e in
      (
        same,
        record {
          bounded = found.bounded;
          affords = found.affords;
          greatest = found.greatest_if small fits;
        },
      )
