-- ===== src/Store/Fresh.antt =====
-- The first answer to a key, crates/workflow-store/src/workflows.rs.
use opencode_cycle_plugin.Prelude.{ℕ, false, none, List, ◌∷◌, ◌++◌, map, ok, String, ◌≡◌, arith}
use opencode_cycle_plugin.Prelude.Map
use opencode_cycle_plugin.Core.Workflow.{Workflow, WorkflowCommand, WorkflowEvent, apply}
use opencode_cycle_plugin.Store.Tables.{
  Store, of_workflow, workflow_event, recall, remember, guard, is_reserved,
}
use opencode_cycle_plugin.Store.Workflows.{
  apply_workflow_command, store_workflow, recall_workflow, state_of,
}

-- the store with the three writes of a command
abbrev pub after_command : Store → ℕ → String → Workflow → List WorkflowEvent → Store
after_command s workflow_id key w events = record s {
  workflows = Map.insert workflow_id w s.workflows;
  events = s.events ++ map (workflow_event workflow_id) events;
  remembered = (key, of_workflow workflow_id events w) ∷ s.remembered;
}

-- A key that is not in use, on a workflow that is not reserved: the command is applied.
pub apply_workflow_command_fresh :
    (s : Store) (id : ℕ) (key : String) (c : WorkflowCommand) (w : Workflow)
    (events : List WorkflowEvent)
    → guard s key ≡ ok tt
    → is_reserved id s.reservations ≡ false
    → recall key s.remembered ≡ none
    → apply (state_of id s.workflows) c ≡ (w, ok events)
    → apply_workflow_command s id key c ≡ (
      after_command s id key w events,
      ok (record { duplicate = false; events = events; state = w }),
    )
unfolding apply_workflow_command store_workflow recall_workflow remember
apply_workflow_command_fresh s id key c w events g unreserved fresh e = ground arith
