-- ===== src/Store/Requests.antt =====
-- What a caller can ask of the store that changes it, and the store after a series of requests.
use Prim.Native.String.{String}
use opencode_cycle_plugin.Prelude.{ℕ, Option, List, [], ◌∷◌}
use opencode_cycle_plugin.Core.Request.{WorkflowTimestamp}
use opencode_cycle_plugin.Core.Workflow.{WorkflowCommand}
use opencode_cycle_plugin.Core.Goal.{GoalCommand}
use opencode_cycle_plugin.Core.Task.{TaskCommand}
use opencode_cycle_plugin.Store.Tables.{Store}
use opencode_cycle_plugin.Store.Workflows.{
  apply_workflow_command, reserve_candidate_delivery, release_candidate_delivery,
  bind_candidate_delivery_journal, deliver_reserved_candidate,
}
use opencode_cycle_plugin.Store.Goals.{apply_goal_command, append_goal_amendment}
use opencode_cycle_plugin.Store.Tasks.{apply_task_command}

pub data StoreRequest : Type 0 where
  workflow_command : ℕ → String → WorkflowCommand → StoreRequest
  goal_command : ℕ → String → GoalCommand → StoreRequest
  goal_amendment : ℕ → String → String → WorkflowTimestamp → StoreRequest
  task_command : ℕ → ℕ → String → TaskCommand → StoreRequest
  reserve_delivery release_delivery : ℕ → ℕ → ℕ → StoreRequest
  bind_journal : ℕ → ℕ → ℕ → Option ℕ → ℕ → StoreRequest
  deliver_candidate : ℕ → ℕ → ℕ → ℕ → String → StoreRequest

unfoldable pub serve : Store → StoreRequest → Store
serve s (workflow_command id key command) = (apply_workflow_command s id key command).0
serve s (goal_command id key command) = (apply_goal_command s id key command).0
serve s (goal_amendment id key text timestamp) = (append_goal_amendment s id key text timestamp).0
serve s (task_command workflow_id id key command) =
    (apply_task_command s workflow_id id key command).0
serve s (reserve_delivery workflow_id candidate_id digest) =
    (reserve_candidate_delivery s workflow_id candidate_id digest).0
serve s (release_delivery workflow_id candidate_id digest) =
    (release_candidate_delivery s workflow_id candidate_id digest).0
serve s (bind_journal workflow_id candidate_id digest expected journal) =
    (bind_candidate_delivery_journal s workflow_id candidate_id digest expected journal).0
serve s (deliver_candidate workflow_id candidate_id digest journal key) =
    (deliver_reserved_candidate s workflow_id candidate_id digest journal key).0

unfoldable pub serve_all : Store → List StoreRequest → Store
serve_all s [] = s
serve_all s (q ∷ qs) = serve_all (serve s q) qs
