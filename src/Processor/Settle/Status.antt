-- ===== src/Processor/Settle/Status.antt =====
-- The match on the pool's status in `Processor::process_settle`, for an order that is settled entirely.
use bonfida_bot.Prelude.{ℕ, suc, ◌≡◌, Bool, true, false, zero, refl, ◌↔◌, arith}
use bonfida_bot.Outcome.{ok, invalid_account_data, err}
use bonfida_bot.State.{
  PoolStatus, pending_order, locked_pending_order, uninitialized, locked, unlocked,
}
use bonfida_bot.State.Status.{IsStatus}
use bonfida_bot.Processor.Settle.{settle_status}
use bonfida_bot.Processor.Redeem.{has_pending_orders}

-- The number of orders that are pending.
unfoldable pub pending_orders : PoolStatus → ℕ
pending_orders (pending_order n) = n
pending_orders (locked_pending_order n) = n
pending_orders _ = 0

-- Whether the pool is locked.
unfoldable pub is_locked : PoolStatus → Bool
is_locked locked = true
is_locked (locked_pending_order n) = true
is_locked _ = false

-- The status with no pending orders that has the same lock.
unfoldable pub without_orders : PoolStatus → PoolStatus
without_orders (pending_order n) = unlocked
without_orders (locked_pending_order n) = locked
without_orders s = s

-- If a status is valid and has pending orders, the match on the status for an order that is settled
-- entirely takes exactly one order off, keeps the lock, and yields a valid status, which without its
-- orders is the one that the first status is without its.
pub settle_status-step :
    (status : PoolStatus)
    → IsStatus status
    → has_pending_orders status ≡ true
    → (after : PoolStatus) × (settle_status status ≡ ok after)
      × (suc (pending_orders after) ≡ pending_orders status)
      × (is_locked after ≡ is_locked status)
      × (without_orders after ≡ without_orders status)
      × IsStatus after
unfolding settle_status pending_orders is_locked has_pending_orders without_orders
settle_status-step (pending_order zero) h p = ground arith
settle_status-step (pending_order (suc zero)) h p = (unlocked, refl, refl, refl, refl, tt)
settle_status-step (pending_order (suc (suc n))) h p =
    (pending_order (suc n), ground arith, refl, refl, refl, ground arith)
settle_status-step (locked_pending_order zero) h p = ground arith
settle_status-step (locked_pending_order (suc zero)) h p = (locked, refl, refl, refl, refl, tt)
settle_status-step (locked_pending_order (suc (suc n))) h p =
    (locked_pending_order (suc n), ground arith, refl, refl, refl, ground arith)
settle_status-step unlocked h p = ground arith
settle_status-step locked h p = ground arith
settle_status-step uninitialized h p = ground arith

-- Settling a valid status is refused exactly when no order is pending.
pub settle_status-eq-err :
    (status : PoolStatus)
    → IsStatus status
    → (settle_status status ≡ err invalid_account_data) ↔ (has_pending_orders status ≡ false)
unfolding settle_status has_pending_orders
settle_status-eq-err (pending_order zero) h = ground arith
settle_status-eq-err (pending_order (suc zero)) h = ground arith
settle_status-eq-err (pending_order (suc (suc n))) h = ground arith
settle_status-eq-err (locked_pending_order zero) h = ground arith
settle_status-eq-err (locked_pending_order (suc zero)) h = ground arith
settle_status-eq-err (locked_pending_order (suc (suc n))) h = ground arith
settle_status-eq-err unlocked h = (λ e. refl, λ e. refl)
settle_status-eq-err locked h = (λ e. refl, λ e. refl)
settle_status-eq-err uninitialized h = (λ e. refl, λ e. refl)
