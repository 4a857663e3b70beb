-- ===== src/Daemon/Repair.antt =====
-- Repair after a rejected candidate, crates/workflowd/src/repair.rs. The texts of the keys, which
-- show ids, are parameters.
pub mod Cycles
mod Examples
use opencode_cycle_plugin.Prelude.{
  ℕ, Bool, true, false, not, Option, none, some, Result, ok, err, String, ◌==◌, if◌then◌else◌,
}
use opencode_cycle_plugin.Core.Workflow
use opencode_cycle_plugin.Core.Workflow.{
  Workflow, WorkflowCommand, WorkflowState, RepairTarget, invalid_transition, begin_repair,
  retry_infrastructure, verification_rejected, reject,
}
use opencode_cycle_plugin.Store.Tables.{Store, StoreError, aggregate_conflict}
use opencode_cycle_plugin.Store.Tables
use opencode_cycle_plugin.Store.Workflows.{
  WorkflowApplyResult, apply_workflow_command, load_workflow,
}

pub data RepairCause : Type 0 where
  implementation_finding infrastructure_failure plan_defect : RepairCause

pub record RepairOutcome : Type 0 where
  pub cycles : ℕ
  pub maximum : ℕ
  pub state : WorkflowState

-- the texts of the three keys
pub record RepairKeys : Type 0 where
  pub retry : ℕ → ℕ → String
  pub rejection : ℕ → ℕ → RepairTarget → String
  pub repair : ℕ → ℕ → ℕ → String

abbrev pub outcome : Workflow → RepairOutcome
outcome w = record { cycles = w.repair_cycles; maximum = w.max_repair_cycles; state = w.state }

abbrev pub Answer : Type 0
Answer = Store × Result RepairOutcome StoreError

abbrev pub is_repair : WorkflowState → Bool
is_repair WorkflowState.repair = true
is_repair _ = false

-- `?` on the answer of a command, then its state
abbrev pub answer : Store × Result WorkflowApplyResult StoreError → Answer
answer (s, err e) = (s, err e)
answer (s, ok r) = (s, ok (outcome r.state))

-- the command by which a workflow in this state is rejected
abbrev pub rejection_command : WorkflowState → RepairTarget → Option WorkflowCommand
rejection_command WorkflowState.verification target = some (verification_rejected target)
rejection_command WorkflowState.arbitration target = some (reject target)
rejection_command _ target = none

abbrev pub is_current : Option ℕ → ℕ → Bool
is_current none c = false
is_current (some current) c = current == c

module _ (keys : RepairKeys) (workflow_id candidate_id : ℕ) where
  -- behind the rejection
  abbrev pub begin : Store × Result WorkflowApplyResult StoreError → Answer
  begin (s, err e) = (s, err e)
  begin (s, ok rejected) =
      if is_repair rejected.state.state
      then answer (
          apply_workflow_command s workflow_id
            (keys.repair workflow_id candidate_id rejected.state.repair_cycles) begin_repair)
      else (s, ok (outcome rejected.state))

  abbrev pub reject_and_begin : Store → RepairTarget → Option WorkflowCommand → Answer
  reject_and_begin s target none = (s, err (Tables.transition invalid_transition))
  reject_and_begin s target (some command) = begin (
      apply_workflow_command s workflow_id (keys.rejection workflow_id candidate_id target) command)

  unfoldable pub route_current : Store → Workflow → RepairCause → Answer
  route_current s current infrastructure_failure = answer (
      apply_workflow_command s workflow_id (keys.retry workflow_id candidate_id)
        retry_infrastructure)
  route_current s current implementation_finding =
      reject_and_begin s RepairTarget.execution
        (rejection_command current.state RepairTarget.execution)
  route_current s current plan_defect =
      reject_and_begin s RepairTarget.architecture
        (rejection_command current.state RepairTarget.architecture)

  -- the two guards of `route` on the loaded state
  abbrev pub route_loaded : Store → RepairCause → Option Workflow → Answer
  route_loaded s cause none = (s, err aggregate_conflict)
  route_loaded s cause (some current) =
      if is_current current.current_candidate candidate_id
      then route_current s current cause
      else (s, err aggregate_conflict)

unfoldable pub route :
    RepairKeys → Store → ℕ → ℕ → RepairCause → Store × Result RepairOutcome StoreError
route keys s workflow_id candidate_id cause =
    route_loaded keys workflow_id candidate_id s cause (load_workflow s workflow_id)
