-- ===== src/Store/Examples.antt =====
-- The theorems on the store at concrete requests.
use opencode_cycle_plugin.Prelude.{◌≡◌, refl, true, false, some, List, [], ◌∷◌, ok}
use opencode_cycle_plugin.Prelude.Map
use opencode_cycle_plugin.Core.Workflow.{
  Workflow, WorkflowState, complete_intake, deliver, route, quick, state_changed, apply, new,
}
use opencode_cycle_plugin.Store.Tables.{
  Store, empty, is_reserved, recall, remember, validate_idempotency_key,
}
use opencode_cycle_plugin.Store.Workflows.{
  WorkflowApplyResult, apply_workflow_command, recall_workflow, store_workflow, state_of,
  deliver_reserved_candidate, is_held_by, reserve_candidate_delivery,
}
use opencode_cycle_plugin.Store.Requests.{
  StoreRequest, workflow_command, reserve_delivery, serve, serve_all,
}
use opencode_cycle_plugin.Store.Log.{IsLogged}
use opencode_cycle_plugin.Store.Replay.{serve_all-IsLogged}
use opencode_cycle_plugin.Store.Retries.{apply_workflow_command_again}
use opencode_cycle_plugin.Store.Delivery.{
  AreSound, serve_all-AreSound, Delivered, deliver_reserved_candidate-Delivered,
}

abbrev first : Store
first = (apply_workflow_command empty 1 "a" complete_intake).0

abbrev answer : WorkflowApplyResult
answer = record {
  duplicate = false;
  events = state_changed WorkflowState.intake WorkflowState.routing ∷ [];
  state = record (new 5) { state = WorkflowState.routing };
}

abbrev others : List StoreRequest
others =
    workflow_command 1 "b" (route quick)
    ∷ workflow_command 2 "a" complete_intake
    ∷ reserve_delivery 2 7 8
    ∷ []

first_accepted : (apply_workflow_command empty 1 "a" complete_intake).1 ≡ ok answer
unfolding apply_workflow_command recall_workflow store_workflow state_of apply new is_reserved
    recall remember validate_idempotency_key Map.get
first_accepted = refl

still_free : is_reserved 1 (serve_all first others).reservations ≡ false
unfolding serve_all serve apply_workflow_command reserve_candidate_delivery recall_workflow
    store_workflow state_of apply new is_reserved recall remember validate_idempotency_key Map.get
    Map.insert
still_free = refl

apply_workflow_command_again_example :
    apply_workflow_command (serve_all first others) 1 "a" deliver
    ≡ (serve_all first others, ok (record answer { duplicate = true }))
apply_workflow_command_again_example =
    apply_workflow_command_again empty 1 "a" complete_intake deliver answer others first_accepted
      still_free

abbrev awaiting : Workflow
awaiting = record (new 5) { state = WorkflowState.delivery; current_candidate = some 7 }

abbrev reserved : Store
reserved = record empty {
  workflows = (1, awaiting) ∷ [];
  reservations =
      (7, record { workflow_id = 1; candidate_digest = 8; journal_digest = some 9 }) ∷ [];
}

abbrev delivered : WorkflowApplyResult
delivered = record {
  duplicate = false;
  events = state_changed WorkflowState.delivery WorkflowState.completed ∷ [];
  state = record awaiting { state = WorkflowState.completed };
}

delivery_accepted : (deliver_reserved_candidate reserved 1 7 8 9 "d").1 ≡ ok delivered
unfolding deliver_reserved_candidate is_held_by store_workflow apply new recall remember
    validate_idempotency_key Map.get
delivery_accepted = refl

deliver_reserved_candidate-Delivered_example :
    Delivered reserved 1 7 8 9 (deliver_reserved_candidate reserved 1 7 8 9 "d").0 delivered
deliver_reserved_candidate-Delivered_example =
    deliver_reserved_candidate-Delivered reserved 1 7 8 9 "d" delivered delivery_accepted

serve_all-IsLogged_example : IsLogged (serve_all empty others)
serve_all-IsLogged_example = serve_all-IsLogged others

serve_all-AreSound_example : AreSound (serve_all empty others)
serve_all-AreSound_example = serve_all-AreSound others
