-- ===== src/Store/Leases/Grant.antt =====
-- When a lease is granted, and what is stored then: crates/workflow-store/src/leases.rs.
use opencode_cycle_plugin.Prelude.{
  ℕ, Bool, true, Option, none, some, ok, ◌≡◌, ◌↔◌, inl, inr, arith, Option-cases,
}
use opencode_cycle_plugin.Prelude.Int.{ℤ, pos, ◌+ℤ◌, ◌<ℤ◌, is_i64}
use opencode_cycle_plugin.Prelude.Map
use opencode_cycle_plugin.Core.Lease
use opencode_cycle_plugin.Core.Lease.{Lease, ActionSafety, idempotent, non_idempotent, reconcile}
use opencode_cycle_plugin.Store.Leases.{
  LeaseTable, LeaseStatus, active, uncertain, acquired, acquire_lease,
}

-- the task is known and has no lease, or its lease is not under review, has expired, and its work
-- may be done again
abbrev pub IsFree : Bool → ℤ → Option (Lease × LeaseStatus) → Type 0
IsFree known now none = known ≡ true
IsFree known now (some (l, status)) =
    (status ≡ active) × (l.expires_at_unix_millis <ℤ now) × (l.safety ≡ idempotent)

module _ (known : ℕ → Bool) (t : LeaseTable) (id task owner : ℕ) (now duration : ℤ)
    (safety : ActionSafety) where
  abbrev pub granted : Lease
  granted = record {
    id = id;
    task_id = task;
    owner = owner;
    acquired_at_unix_millis = now;
    expires_at_unix_millis = now +ℤ duration;
    safety = safety;
  }

  -- A lease is granted exactly when the store may be written, the duration is positive, the time of
  -- expiry is an i64, and the task is free: known and without a lease, or with a lease that is not under
  -- review, has expired, and whose work may be done again. It is the lease of the call, its expiry the
  -- duration from now, and the table changes only in the row of the task, which holds it as active.
  pub acquire_lease_iff :
      (t' : LeaseTable) (l : Lease)
      → (acquire_lease known t id task owner now duration safety ≡ (t', ok (acquired l))) ↔ (
          (l ≡ granted)
          × (t' ≡ record t { rows = Map.insert task (granted, active) t.rows })
          × (t.read_write ≡ true)
          × (pos 0 <ℤ duration)
          × (is_i64 (now +ℤ duration) ≡ true)
          × IsFree (known task) now (Map.get task t.rows))
  unfolding acquire_lease Lease.acquire reconcile
  acquire_lease_iff t' l = elim (Option-cases (Map.get task t.rows)) [
    | inl e ↦ rw e (ground arith)
    | inr ((old, active), e) ↦ rw e (ground arith)
    | inr ((old, uncertain), e) ↦ rw e (ground arith)
  ]
