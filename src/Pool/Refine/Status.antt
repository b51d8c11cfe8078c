-- ===== src/Pool/Refine/Status.antt =====
-- The status that a settlement writes.
use bonfida_bot.Prelude.{◌≡◌, ◌⊎◌, inl, inr, sym, subst, refl, Bool-cases}
use bonfida_bot.Processor.Settle.Status.{settle_status-step, settle_status-eq-err}
use bonfida_bot.Processor.Redeem.{has_pending_orders}
use bonfida_bot.Outcome.{ok, Result, err, panicked}
use bonfida_bot.State.{PoolHeader, PoolStatus}
use bonfida_bot.State.Status.{IsStatus}
use bonfida_bot.Processor.Settle.{OpenOrders, settled_header, settle_status, is_settled}

pub settle_status-IsStatus :
    (status after : PoolStatus) → IsStatus status → settle_status status ≡ ok after → IsStatus after
settle_status-IsStatus status after v e = elim (Bool-cases (has_pending_orders status)) [
  | inl pending ↦
      let (after', step, _, _, _, valid) = settle_status-step status v pending in
      let same : after' ≡ after = cc in subst IsStatus same valid
  | inr none_pending ↦ let refused = (settle_status-eq-err status v).1 none_pending in cc
]

-- The header that is written back differs in its status at most.
abbrev pub DiffersInStatus : PoolHeader → PoolHeader → Type 0
DiffersInStatus h h' =
    (after : PoolStatus) × (h' ≡ record h { status = after })
    × ((after ≡ h.status) ⊎ (settle_status h.status ≡ ok after))

pub with_status :
    (h h' : PoolHeader) (r : Result PoolStatus)
    → settle_status h.status ≡ r
    → (elim r [
      | ok status ↦ ok (record h { status = status })
      | err e ↦ err e
      | panicked ↦ panicked
    ])
      ≡ ok h'
    → DiffersInStatus h h'
with_status h h' (ok status) s e =
    let same : record h { status = status } ≡ h' = cc in (status, sym same, inr s)
with_status h h' (err x) s e = cc
with_status h h' panicked s e = cc

pub settled_header-eq-ok :
    (h h' : PoolHeader) (o : OpenOrders) → settled_header h o ≡ ok h' → DiffersInStatus h h'
unfolding settled_header
settled_header-eq-ok h h' o e = elim (Bool-cases (is_settled o)) [
  | inl all_of_it ↦ with_status h h' (settle_status h.status) refl (rw all_of_it at e)
  | inr a_part ↦ let e' = rw a_part at e in let same : h ≡ h' = cc in (h.status, sym same, inl refl)
]
