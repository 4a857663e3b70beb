-- ===== src/Daemon/Repair/Examples.antt =====
-- A candidate that verification rejects; ids are shown as letters.
use opencode_cycle_plugin.Prelude.{◌≡◌, refl, some, none, [], ◌∷◌, ok, arith}
use opencode_cycle_plugin.Core.Workflow.{Workflow, WorkflowState, RepairTarget, reject_with, apply}
use opencode_cycle_plugin.Store.Tables.{
  Store, empty, recall, remember, is_reserved, validate_idempotency_key,
}
use opencode_cycle_plugin.Store.Workflows.{
  apply_workflow_command, recall_workflow, store_workflow, state_of,
}
use opencode_cycle_plugin.Daemon.Repair.{
  RepairKeys, RepairOutcome, route, route_current, implementation_finding,
}
use opencode_cycle_plugin.Daemon.Repair.Cycles.{Routed, route-Routed}
use opencode_cycle_plugin.Prelude.Map

abbrev keys : RepairKeys
keys = record {
  retry = λ w c. "w:c:infrastructure-retry";
  rejection = λ w c target. "w:c:reject";
  repair = λ w c n. "w:c:begin-repair";
}

abbrev in_verification : Workflow
in_verification = record {
  state = WorkflowState.verification;
  mode = none;
  current_candidate = some 7;
  repair_target = none;
  repair_cycles = 0;
  max_repair_cycles = 5;
  paused_from = none;
  infrastructure_blocked_from = none;
}

abbrev shop : Store
shop = record empty { workflows = (1, in_verification) ∷ [] }

route-Routed_example :
    Routed keys shop 1 7 in_verification RepairTarget.execution
      (route keys shop 1 7 implementation_finding)
unfolding is_reserved recall validate_idempotency_key Map.get
route-Routed_example =
    route-Routed keys shop 1 7 in_verification RepairTarget.execution implementation_finding refl
      refl refl refl (omega arith)
      (record {
        unreserved = refl;
        rejection_valid = refl;
        repair_valid = refl;
        rejection_free = refl;
        repair_free = refl;
        different = refl;
      })

abbrev back_at_work : RepairOutcome
back_at_work = record { cycles = 1; maximum = 5; state = WorkflowState.execution }

finding_repairs : (route keys shop 1 7 implementation_finding).1 ≡ ok back_at_work
unfolding route route_current apply_workflow_command recall_workflow store_workflow state_of recall
    remember is_reserved validate_idempotency_key apply reject_with Map.get Map.insert
finding_repairs = refl
