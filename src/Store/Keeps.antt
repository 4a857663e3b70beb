-- ===== src/Store/Keeps.antt =====
-- No operation forgets an answer: crates/workflow-store/src/workflows.rs, candidates.rs, goals.rs
-- and tasks.rs.
use Prim.Native.String.{String}
use opencode_cycle_plugin.Prelude.{ℕ, List, Result, ok, err}
use opencode_cycle_plugin.Core.Workflow.{Applied}
use opencode_cycle_plugin.Core.Goal
use opencode_cycle_plugin.Core.Goal.{Goal, GoalCommand, GoalError, GoalEvent}
use opencode_cycle_plugin.Core.Task
use opencode_cycle_plugin.Core.Task.{TaskCommand, TaskEvent}
use opencode_cycle_plugin.Store.Tables.{Store}
use opencode_cycle_plugin.Store.Workflows.{store_workflow}
use opencode_cycle_plugin.Store.Goals.{last_sequence, store_goal, store_amendment}
use opencode_cycle_plugin.Store.Tasks.{store_task}
use opencode_cycle_plugin.Store.Transactions.{Leaves, bind-Leaves}
use opencode_cycle_plugin.Store.Memory.{Keeps, Keeps-refl, remember-Leaves}
use opencode_cycle_plugin.Store.Invariant.{serve_all-kept}
use opencode_cycle_plugin.Store.Requests.{StoreRequest, serve_all}

workflow_row-Keeps :
    (old s : Store) (id : ℕ) (key : String) (a : Applied)
    → Keeps old s
    → Leaves (Keeps old) (store_workflow s id key a)
unfolding store_workflow
workflow_row-Keeps old s id key (w, err e) k = tt
workflow_row-Keeps old s id key (w, ok events) k =
    remember-Leaves key _ old _ _ (record { mode = k.mode; recalls = k.recalls })

goal_row-Keeps :
    (old s : Store) (id : ℕ) (key : String) (owner : ℕ) (a : Goal.Applied)
    → Keeps old s
    → Leaves (Keeps old) (store_goal s id key owner a)
unfolding store_goal
goal_row-Keeps old s id key owner (g, err e) k = tt
goal_row-Keeps old s id key owner (g, ok events) k =
    remember-Leaves key _ old _ _ (record { mode = k.mode; recalls = k.recalls })

amendment_row-Keeps :
    (old s : Store) (id : ℕ) (key : String) (owner : ℕ) (a : Goal × Result (Unit {0}) GoalError)
    → Keeps old s
    → Leaves (Keeps old) (store_amendment s id key owner a)
unfolding store_amendment
amendment_row-Keeps old s id key owner (g, err e) k = tt
amendment_row-Keeps old s id key owner (g, ok _) k =
    bind-Leaves (Keeps old) (last_sequence g.request.amendments) _
      (λ sequence. remember-Leaves key _ old _ _ (record { mode = k.mode; recalls = k.recalls }))

task_row-Keeps :
    (old s : Store) (owner id : ℕ) (key : String) (a : Task.Applied)
    → Keeps old s
    → Leaves (Keeps old) (store_task s owner id key a)
unfolding store_task
task_row-Keeps old s owner id key (t, err e) k = tt
task_row-Keeps old s owner id key (t, ok events) k =
    remember-Leaves key _ old _ _ (record { mode = k.mode; recalls = k.recalls })

-- Whatever requests follow, an answer stays under its key.
pub serve_all-Keeps : (s : Store) (qs : List StoreRequest) → Keeps s (serve_all s qs)
serve_all-Keeps s qs =
    serve_all-kept (Keeps s)
      (record {
        workflow_row = λ t id key c. workflow_row-Keeps s t id key _;
        goal_row = goal_row-Keeps s;
        amendment_row = amendment_row-Keeps s;
        task_row = task_row-Keeps s;
        reservation_row = λ t rs k. record { mode = k.mode; recalls = k.recalls };
      })
      s qs (Keeps-refl s)
