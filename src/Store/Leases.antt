-- ===== src/Store/Leases.antt =====
-- The leases of tasks, crates/workflow-store/src/leases.rs. `known` says which tasks have a row, and
-- an id given to a new lease is fresh: the column is unique.
pub mod Grant
pub mod Review
mod Examples
use opencode_cycle_plugin.Prelude.{
  ℕ, Bool, true, false, not, ◌||◌, ◌&&◌, Option, none, some, List, [], ◌∷◌, Result, ok, err, ◌==◌,
  if◌then◌else◌,
}
use opencode_cycle_plugin.Prelude.Int.{ℤ}
use opencode_cycle_plugin.Prelude.Map
use opencode_cycle_plugin.Prelude.Map.{Map}
use opencode_cycle_plugin.Core.Lease
use opencode_cycle_plugin.Core.Lease.{
  Lease, LeaseError, LeaseReconciliation, ActionSafety, reconcile, manual_review_required,
}

-- the column `status`
pub data LeaseStatus : Type 0 where
  active uncertain : LeaseStatus

pub record LeaseTable : Type 0 where
  pub read_write : Bool
  pub rows : Map (Lease × LeaseStatus)

pub data LeaseAcquisition : Type 0 where
  acquired occupied manual_review : Lease → LeaseAcquisition

-- the errors of `StoreError` that these calls return
pub data LeaseStoreError : Type 0 where
  read_only lease_not_found sqlite : LeaseStoreError
  lease : LeaseError → LeaseStoreError

abbrev pub is_uncertain : LeaseStatus → Bool
is_uncertain uncertain = true
is_uncertain active = false

abbrev pub needs_review : LeaseReconciliation → Bool
needs_review manual_review_required = true
needs_review _ = false

abbrev pub is_active : LeaseReconciliation → Bool
is_active LeaseReconciliation.active = true
is_active _ = false

abbrev pub with_row : LeaseTable → ℕ → Lease × LeaseStatus → LeaseTable
with_row t task_id row = record t { rows = Map.insert task_id row t.rows }

abbrev pub Answer : Type 0
Answer = LeaseTable × Result LeaseAcquisition LeaseStoreError

-- the insertion of a new lease, or of one in the place of another
abbrev pub insert_lease : Bool → LeaseTable → ℕ → Result Lease LeaseError → Answer
insert_lease possible t task_id (err e) = (t, err (lease e))
insert_lease true t task_id (ok l) = (with_row t task_id (l, active), ok (acquired l))
insert_lease false t task_id (ok l) = (t, err sqlite)

-- the branches on the row of the task, if there is one
abbrev pub acquire_at :
    Bool → LeaseTable → ℕ → ℤ → Result Lease LeaseError → Option (Lease × LeaseStatus) → Answer
acquire_at known t task_id now made none = insert_lease known t task_id made
acquire_at known t task_id now made (some (l, status)) =
    if is_uncertain status || needs_review (reconcile l now)
    then (with_row t task_id (l, uncertain), ok (manual_review l))
    else if is_active (reconcile l now)
    then (t, ok (occupied l))
    else insert_lease true t task_id made

unfoldable pub acquire_lease : (ℕ → Bool) → LeaseTable → ℕ → ℕ → ℕ → ℤ → ℤ → ActionSafety → Answer
acquire_lease known t id task_id owner now duration safety =
    if not t.read_write
    then (t, err read_only)
    else acquire_at (known task_id) t task_id now
        (Lease.acquire id task_id owner now duration safety) (Map.get task_id t.rows)

-- the active row with this lease
unfoldable pub find_active : ℕ → Map (Lease × LeaseStatus) → Option Lease
find_active id [] = none
find_active id ((task_id, (l, status)) ∷ rows) =
    if (l.id == id) && not (is_uncertain status) then some l else find_active id rows

-- the update, whose `WHERE` asks for the lease only
unfoldable pub refresh : ℕ → Lease → Map (Lease × LeaseStatus) → Map (Lease × LeaseStatus)
refresh id next [] = []
refresh id next ((task_id, (l, status)) ∷ rows) =
    let rest = refresh id next rows in
    if l.id == id then (task_id, (next, status)) ∷ rest else (task_id, (l, status)) ∷ rest

abbrev pub renew :
    LeaseTable
    → ℕ
    → Lease × Result (Unit {0}) LeaseError
    → LeaseTable × Result Lease LeaseStoreError
renew t id (next, err e) = (t, err (lease e))
renew t id (next, ok _) = (record t { rows = refresh id next t.rows }, ok next)

abbrev pub heartbeat_at :
    LeaseTable → ℕ → ℤ → ℤ → Option Lease → LeaseTable × Result Lease LeaseStoreError
heartbeat_at t id now duration none = (t, err lease_not_found)
heartbeat_at t id now duration (some l) = renew t id (Lease.heartbeat l now duration)

unfoldable pub heartbeat_lease : LeaseTable → ℕ → ℤ → ℤ → LeaseTable × Result Lease LeaseStoreError
heartbeat_lease t id now duration =
    if not t.read_write
    then (t, err read_only)
    else heartbeat_at t id now duration (find_active id t.rows)

unfoldable pub without_lease : ℕ → Map (Lease × LeaseStatus) → Map (Lease × LeaseStatus)
without_lease id [] = []
without_lease id ((task_id, (l, status)) ∷ rows) =
    let rest = without_lease id rows in if l.id == id then rest else (task_id, (l, status)) ∷ rest

-- `DELETE`, whose number of rows is 1 if one has the lease
unfoldable pub has_lease : ℕ → Map (Lease × LeaseStatus) → Bool
has_lease id [] = false
has_lease id ((task_id, (l, status)) ∷ rows) = (l.id == id) || has_lease id rows

unfoldable pub release_lease : LeaseTable → ℕ → LeaseTable × Result Bool LeaseStoreError
release_lease t id =
    if not t.read_write
    then (t, err read_only)
    else (record t { rows = without_lease id t.rows }, ok (has_lease id t.rows))
