-- ===== src/Pool/Terms.antt =====
-- Invariants of the abstract pool: its terms and its status over any number of steps.
use bonfida_bot.Prelude.{
  zero, suc, ◌≢◌, length-replicate, ◌*◌, ◌≡◌, ◌⊎◌, refl, sym, subst, ap, ◌∙◌, inl, inr, true, false,
  length, arith,
}
use bonfida_bot.Outcome.{ok}
use bonfida_bot.State.{
  PoolHeader, PoolStatus, uninitialized, unlocked, locked, pending_order, locked_pending_order,
  is_initialized,
}
use bonfida_bot.Processor.Settle.{settle_status}
use bonfida_bot.Processor.Redeem.{has_pending_orders}
use bonfida_bot.Pool.Step.{Pool, SameFront, Step, Steps}
use bonfida_bot.Pool.Front.{SameFront-refl, SameFront-trans}

-- What a pool is created with: its programs and keys, its fees, and its markets.
pub record SameTerms (p q : Pool) : Type 0 where
  pub serum_program_id : p.header.serum_program_id ≡ q.header.serum_program_id
  pub seed : p.header.seed ≡ q.header.seed
  pub signal_provider : p.header.signal_provider ≡ q.header.signal_provider
  pub number_of_markets : p.header.number_of_markets ≡ q.header.number_of_markets
  pub fee_ratio : p.header.fee_ratio ≡ q.header.fee_ratio
  pub fee_collection_period : p.header.fee_collection_period ≡ q.header.fee_collection_period
  pub markets : SameFront (32 * p.header.number_of_markets) p.rest q.rest

pub SameTerms-refl : (p : Pool) → SameTerms p p
SameTerms-refl p = record {
  serum_program_id = refl;
  seed = refl;
  signal_provider = refl;
  number_of_markets = refl;
  fee_ratio = refl;
  fee_collection_period = refl;
  markets = SameFront-refl _ p.rest;
}

pub SameTerms-trans : (p q r : Pool) → SameTerms p q → SameTerms q r → SameTerms p r
SameTerms-trans p q r a b = record {
  serum_program_id = a.serum_program_id ∙ b.serum_program_id;
  seed = a.seed ∙ b.seed;
  signal_provider = a.signal_provider ∙ b.signal_provider;
  number_of_markets = a.number_of_markets ∙ b.number_of_markets;
  fee_ratio = a.fee_ratio ∙ b.fee_ratio;
  fee_collection_period = a.fee_collection_period ∙ b.fee_collection_period;
  markets =
      SameFront-trans (32 * p.header.number_of_markets) p.rest q.rest r.rest a.markets
        (subst (λ n. SameFront (32 * n) q.rest r.rest) (sym a.number_of_markets) b.markets);
}

-- Settling leaves a pool initialized.
not_settled : (s : PoolStatus) → settle_status s ≢ ok uninitialized
unfolding settle_status
not_settled (pending_order zero) e = ground arith
not_settled (pending_order (suc zero)) e = cc
not_settled (pending_order (suc (suc n))) e = ground arith
not_settled (locked_pending_order zero) e = ground arith
not_settled (locked_pending_order (suc zero)) e = cc
not_settled (locked_pending_order (suc (suc n))) e = ground arith
not_settled unlocked e = cc
not_settled locked e = cc
not_settled uninitialized e = cc

initialized_by :
    (h : PoolHeader) (s : PoolStatus) → h.status ≡ s → s ≢ uninitialized → is_initialized h ≡ true
unfolding is_initialized
initialized_by h uninitialized e other = absurd (other refl)
initialized_by h unlocked e other = rw e refl
initialized_by h locked e other = rw e refl
initialized_by h (pending_order n) e other = rw e refl
initialized_by h (locked_pending_order n) e other = rw e refl

initialized_of : (h : PoolHeader) → h.status ≢ uninitialized → is_initialized h ≡ true
initialized_of h other = initialized_by h h.status refl other

not_initialized : (h : PoolHeader) → h.status ≡ uninitialized → is_initialized h ≡ false
unfolding is_initialized
not_initialized h e = rw e refl

settled-initialized :
    (h : PoolHeader) (after : PoolStatus)
    → is_initialized h ≡ true
    → (after ≡ h.status) ⊎ (settle_status h.status ≡ ok after)
    → is_initialized (record h { status = after }) ≡ true
settled-initialized h after there (inl same) =
    initialized_of (record h { status = after })
      (λ e. let gone = not_initialized h (sym same ∙ e) in cc)
settled-initialized h after there (inr step) =
    initialized_of (record h { status = after }) (λ e. not_settled h.status (step ∙ ap ok e))

-- One step of a pool keeps its terms, or empties it.
pub Step-terms :
    (p q : Pool)
    → Step p q
    → is_initialized p.header ≡ true
    → (SameTerms p q × (is_initialized q.header ≡ true))
      ⊎ ((has_pending_orders p.header.status ≡ false) × (is_initialized q.header ≡ false))
Step-terms p _ (Step.kept _) there = inl (SameTerms-refl p, there)
Step-terms p _ (Step.created _ h rest none_there unlocked_then size) there = cc
Step-terms _ _ (Step.settled h after rest rest' _ from front) there = inl (
  record {
    serum_program_id = refl;
    seed = refl;
    signal_provider = refl;
    number_of_markets = refl;
    fee_ratio = refl;
    fee_collection_period = refl;
    markets = front;
  },
  settled-initialized h after there from,
)
Step-terms _ _ (Step.collected h clock rest _) there = inl (
  record {
    serum_program_id = refl;
    seed = refl;
    signal_provider = refl;
    number_of_markets = refl;
    fee_ratio = refl;
    fee_collection_period = refl;
    markets = SameFront-refl (32 * h.number_of_markets) rest;
  },
  initialized_of (record h { last_fee_collection_timestamp = clock })
      (λ e. let gone = not_initialized h e in cc),
)
Step-terms _ _ (Step.emptied h rest _ none_pending) there =
    inr (none_pending, not_initialized (record h { status = uninitialized }) refl)

-- No order is pending, and the pool is not locked.
pub data IsFree (s : PoolStatus) : Type 0 where
  empty : s ≡ uninitialized → IsFree s
  open_to_all : s ≡ unlocked → IsFree s

IsFree-settled :
    (s after : PoolStatus) → IsFree s → (after ≡ s) ⊎ (settle_status s ≡ ok after) → IsFree after
unfolding settle_status
IsFree-settled s after free (inl same) = subst IsFree (sym same) free
IsFree-settled s after (IsFree.empty e) (inr step) = let e' = ap settle_status e in cc
IsFree-settled s after (IsFree.open_to_all e) (inr step) = let e' = ap settle_status e in cc

Step-IsFree : (p q : Pool) → Step p q → IsFree p.header.status → IsFree q.header.status
Step-IsFree p _ (Step.kept _) free = free
Step-IsFree p _ (Step.created _ h rest none_there unlocked_then size) free =
    IsFree.open_to_all unlocked_then
Step-IsFree _ _ (Step.settled h after rest rest' _ from front) free =
    IsFree-settled h.status after free from
Step-IsFree _ _ (Step.collected h clock rest _) free = free
Step-IsFree _ _ (Step.emptied h rest _ none_pending) free = IsFree.empty refl

-- Over any number of steps, a pool that is empty or unlocked is never locked or waiting for an
-- order.
pub Steps-IsFree : (p r : Pool) → Steps p r → IsFree p.header.status → IsFree r.header.status
Steps-IsFree p _ (Steps.done _) free = free
Steps-IsFree p r (Steps.step_then _ q _ step steps) free =
    Steps-IsFree q r steps (Step-IsFree p q step free)

Step-size : (p q : Pool) → Step p q → length p.rest ≡ length q.rest
Step-size p _ (Step.kept _) = refl
Step-size p _ (Step.created _ h rest none_there unlocked_then size) = size
Step-size _ _ (Step.settled h after rest rest' _ from front) = front.size
Step-size _ _ (Step.collected h clock rest _) = refl
Step-size _ _ (Step.emptied h rest _ none_pending) = sym (length-replicate (length rest) 0)

-- The account never changes its size.
pub Steps-size : (p r : Pool) → Steps p r → length p.rest ≡ length r.rest
Steps-size p _ (Steps.done _) = refl
Steps-size p r (Steps.step_then _ q _ step steps) = Step-size p q step ∙ Steps-size q r steps
