-- ===== src/Core/Lease.antt =====
-- Execution leases, crates/workflow-core/src/lease.rs. Times are milliseconds in an i64.
pub mod Expiry
mod Examples
use opencode_cycle_plugin.Prelude.{
  ℕ, Bool, Option, none, some, List, [], ◌∷◌, Result, ok, err, if◌then◌else◌,
}
use opencode_cycle_plugin.Prelude.Int.{ℤ, pos, ltb_ℤ, leb_ℤ, checked_add_i64}

pub data ActionSafety : Type 0 where
  idempotent non_idempotent : ActionSafety

pub data LeaseReconciliation : Type 0 where
  active replayable manual_review_required : LeaseReconciliation

-- The three ids are compared only: a number stands for each.
pub record Lease : Type 0 where
  pub id : ℕ
  pub task_id : ℕ
  pub owner : ℕ
  pub acquired_at_unix_millis : ℤ
  pub expires_at_unix_millis : ℤ
  pub safety : ActionSafety

pub data LeaseError : Type 0 where
  expired invalid_duration time_overflow : LeaseError

-- `id` is the fresh id of `LeaseId::new()`.
unfoldable pub acquire : ℕ → ℕ → ℕ → ℤ → ℤ → ActionSafety → Result Lease LeaseError
acquire id task_id owner now duration safety =
    if leb_ℤ duration (pos 0) then err invalid_duration else (elim (checked_add_i64 now duration) [
      | none ↦ err time_overflow
      | some expires ↦ ok (record {
        id = id;
        task_id = task_id;
        owner = owner;
        acquired_at_unix_millis = now;
        expires_at_unix_millis = expires;
        safety = safety;
      })
    ])

unfoldable pub heartbeat : Lease → ℤ → ℤ → Lease × Result (Unit {0}) LeaseError
heartbeat l now duration =
    if ltb_ℤ l.expires_at_unix_millis now
    then (l, err expired)
    else if leb_ℤ duration (pos 0)
    then (l, err invalid_duration)
    else (elim (checked_add_i64 now duration) [
      | none ↦ (l, err time_overflow)
      | some expires ↦ (record l { expires_at_unix_millis = expires }, ok tt)
    ])

abbrev after_expiry : ActionSafety → LeaseReconciliation
after_expiry idempotent = replayable
after_expiry non_idempotent = manual_review_required

unfoldable pub reconcile : Lease → ℤ → LeaseReconciliation
reconcile l now = if leb_ℤ now l.expires_at_unix_millis then active else after_expiry l.safety

-- the heartbeats that a lease is sent, each a time and a duration
unfoldable pub heartbeats : Lease → List (ℤ × ℤ) → Lease
heartbeats l [] = l
heartbeats l ((now, duration) ∷ rest) = heartbeats (heartbeat l now duration).0 rest
