-- ===== src/Daemon/Admission.antt =====
-- Admission of workflows with leases, crates/workflowd/src/admission.rs.
pub mod Limit
pub mod Turn
mod Examples
use opencode_cycle_plugin.Prelude.{
  ℕ, Bool, true, false, not, ◌&&◌, Option, none, some, List, [], ◌∷◌, ◌-◌, ltb, leb, ◌==◌,
  if◌then◌else◌, length, saturating_add, u64_max,
}
use opencode_cycle_plugin.Prelude.Map
use opencode_cycle_plugin.Daemon.Policy.{
  AdmissionController, AdmissionDecision, ResourceSample, ResourceDemand, remote_model, evaluate,
  begin_tick, admit,
}
use opencode_cycle_plugin.Daemon.Policy
use opencode_cycle_plugin.Daemon.Queues.{
  RuntimeAdmission, lease_millis, remove, reap, enqueue, dequeue_front, queue_of, front, is_key,
}

abbrev retry_millis : ℕ
retry_millis = 500

pub data AdmissionOperation : Type 0 where
  acquire release renew : AdmissionOperation

-- the texts of `reason`
pub data Reason : Type 0 where
  released concurrency_limit fair_queue : Reason
  deferred : AdmissionDecision → Reason

pub record AdmissionResult : Type 0 where
  pub active : ℕ
  pub admitted : Bool
  pub lease_expires_unix_millis : Option ℕ
  pub maximum_active : ℕ
  pub reason : Option Reason
  pub retry_after_millis : ℕ

abbrev pub demand : ResourceDemand
demand = record { disk_bytes = 536870912; kind = remote_model; memory_bytes = 536870912 }

-- `percent_85` is the CPU load 85.0
module _ {Cpu : Type 0} where
  unfoldable pub new : Cpu → ℕ → RuntimeAdmission Cpu
  new percent_85 maximum_active = record {
    active = [];
    controller = Policy.new (record {
      disk_reserve_bytes = 2147483648;
      max_cpu_percent = percent_85;
      memory_reserve_bytes = 1073741824;
      recovery_admissions_per_tick = 1;
    });
    last_tick = 0;
    maximum_active = if leb 1 maximum_active then maximum_active else 1;
    projects = [];
    rotation = [];
    waiting = [];
    workflow_projects = [];
  }

  abbrev pub result : RuntimeAdmission Cpu → Bool → Option ℕ → Option Reason → AdmissionResult
  result a admitted expires reason = record {
    active = length a.active;
    admitted = admitted;
    lease_expires_unix_millis = expires;
    maximum_active = a.maximum_active;
    reason = reason;
    retry_after_millis = if admitted then 0 else retry_millis;
  }

  abbrev pub tick : RuntimeAdmission Cpu → ℕ → RuntimeAdmission Cpu
  tick a now =
      if leb 1000 (now - a.last_tick)
      then record a { controller = begin_tick a.controller; last_tick = now }
      else a

  abbrev pub refuse : RuntimeAdmission Cpu → Reason → RuntimeAdmission Cpu × AdmissionResult
  refuse a reason = (a, result a false none (some reason))

  abbrev pub is_turn : RuntimeAdmission Cpu → ℕ → ℕ → Bool
  is_turn a project workflow =
      is_key (front a.rotation) project && is_key (front (queue_of project a.projects)) workflow

  abbrev pub hold : RuntimeAdmission Cpu → ℕ → ℕ → RuntimeAdmission Cpu × AdmissionResult
  hold a workflow now =
      let expires_at = saturating_add u64_max now lease_millis in
      let next = record a { active = Map.insert workflow expires_at a.active } in
      (next, result next true (some expires_at) none)

module _ {Cpu : Type 0} (debug : Bool) (exceeds : Cpu → Cpu → Bool) where
  -- the decision of the policy, and the admission
  abbrev pub decide :
      RuntimeAdmission Cpu
      → ℕ
      → ℕ
      → ℕ
      → AdmissionController Cpu × AdmissionDecision
      → RuntimeAdmission Cpu × AdmissionResult
  decide a project workflow now (controller, admit) =
      hold (dequeue_front debug (record a { controller = controller }) project workflow) workflow
        now
  decide a project workflow now (controller, decision) =
      refuse (record a { controller = controller }) (deferred decision)

  abbrev pub acquire_waiting :
      RuntimeAdmission Cpu → ℕ → ℕ → ResourceSample Cpu → ℕ → RuntimeAdmission Cpu × AdmissionResult
  acquire_waiting a project workflow sample now =
      if leb a.maximum_active (length a.active)
      then refuse a concurrency_limit
      else if not (is_turn a project workflow)
      then refuse a fair_queue
      else decide (tick a now) project workflow now
          (evaluate exceeds (tick a now).controller sample demand false)

  -- behind `reap`
  unfoldable pub execute_reaped :
      AdmissionOperation
      → RuntimeAdmission Cpu
      → ℕ
      → ℕ
      → ResourceSample Cpu
      → ℕ
      → RuntimeAdmission Cpu × AdmissionResult
  execute_reaped release a project workflow sample now = refuse (remove a workflow) released
  execute_reaped _ a project workflow sample now =
      if Map.contains_key workflow a.active
      then hold a workflow now
      else acquire_waiting (enqueue a project workflow now) project workflow sample now

  unfoldable pub execute :
      RuntimeAdmission Cpu
      → AdmissionOperation
      → ℕ
      → ℕ
      → ResourceSample Cpu
      → ℕ
      → RuntimeAdmission Cpu × AdmissionResult
  execute a operation project workflow sample now =
      execute_reaped operation (reap a now) project workflow sample now
