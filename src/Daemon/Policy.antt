-- ===== src/Daemon/Policy.antt =====
-- Admission under resource pressure, crates/workflowd/src/resources/policy.rs. A CPU load is an
-- `f32`: its type and the test `>` on it are parameters.
pub mod Admission
mod Examples
use opencode_cycle_plugin.Prelude.{
  ℕ, Bool, true, false, ◌&&◌, Option, none, some, List, [], ◌∷◌, ltb, leb, if◌then◌else◌,
  saturating_add, u64_max,
}

abbrev pub u16_max : ℕ
u16_max = 65535

pub data WorkKind : Type 0 where
  remote_model local_model build browser database indexing verification : WorkKind

pub record ResourceDemand : Type 0 where
  pub disk_bytes : ℕ
  pub kind : WorkKind
  pub memory_bytes : ℕ

-- crates/workflowd/src/resources/mod.rs
pub record ResourceSample (Cpu : Type 0) : Type 0 where
  pub available_disk_bytes : Option ℕ
  pub available_memory_bytes : Option ℕ
  pub cpu_usage_percent : Option Cpu
  pub owned_processes : Option ℕ

pub record ResourcePolicy (Cpu : Type 0) : Type 0 where
  pub disk_reserve_bytes : ℕ
  pub max_cpu_percent : Cpu
  pub memory_reserve_bytes : ℕ
  pub recovery_admissions_per_tick : ℕ

pub data AdmissionDecision : Type 0 where
  admit defer_cpu defer_disk defer_indexing defer_memory : AdmissionDecision
  defer_metrics_unavailable defer_recovery_backpressure : AdmissionDecision

pub record AdmissionController (Cpu : Type 0) : Type 0 where
  pub admitted_this_tick : ℕ
  pub policy : ResourcePolicy Cpu
  pub pressured_last_tick : Bool
  pub recovery_tick : Bool

abbrev pub is_indexing : WorkKind → Bool
is_indexing indexing = true
is_indexing _ = false

module _ {Cpu : Type 0} where
  unfoldable pub new : ResourcePolicy Cpu → AdmissionController Cpu
  new policy = record {
    admitted_this_tick = 0;
    policy = policy;
    pressured_last_tick = false;
    recovery_tick = false;
  }

  unfoldable pub begin_tick : AdmissionController Cpu → AdmissionController Cpu
  begin_tick c = record c {
    admitted_this_tick = 0;
    recovery_tick = c.pressured_last_tick;
    pressured_last_tick = false;
  }

  abbrev defer :
      AdmissionController Cpu → AdmissionDecision → AdmissionController Cpu × AdmissionDecision
  defer c decision = (record c { pressured_last_tick = true }, decision)

module _ {Cpu : Type 0} (exceeds : Cpu → Cpu → Bool) where
  -- `evaluate` behind the three `let … else`
  unfoldable pub evaluate_sampled :
      AdmissionController Cpu
      → ℕ
      → ℕ
      → Cpu
      → ResourceDemand
      → AdmissionController Cpu × AdmissionDecision
  evaluate_sampled c memory disk cpu demand =
      if ltb memory (saturating_add u64_max c.policy.memory_reserve_bytes demand.memory_bytes)
      then defer c defer_memory
      else if ltb disk (saturating_add u64_max c.policy.disk_reserve_bytes demand.disk_bytes)
      then defer c defer_disk
      else if exceeds cpu c.policy.max_cpu_percent
      then defer c defer_cpu
      else if c.recovery_tick && leb c.policy.recovery_admissions_per_tick c.admitted_this_tick
      then (c, defer_recovery_backpressure)
      else (record c { admitted_this_tick = saturating_add u16_max c.admitted_this_tick 1 }, admit)

  abbrev evaluate_memory :
      AdmissionController Cpu
      → Option ℕ
      → Option ℕ
      → Option Cpu
      → ResourceDemand
      → AdmissionController Cpu × AdmissionDecision
  evaluate_memory c (some memory) (some disk) (some cpu) demand =
      evaluate_sampled c memory disk cpu demand
  evaluate_memory c _ _ _ demand = (c, defer_metrics_unavailable)

  unfoldable pub evaluate :
      AdmissionController Cpu
      → ResourceSample Cpu
      → ResourceDemand
      → Bool
      → AdmissionController Cpu × AdmissionDecision
  evaluate c sample demand verification_waiting =
      if is_indexing demand.kind && verification_waiting
      then (c, defer_indexing)
      else evaluate_memory c sample.available_memory_bytes sample.available_disk_bytes
          sample.cpu_usage_percent demand
