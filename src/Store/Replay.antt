-- ===== src/Store/Replay.antt =====
-- Every operation keeps the events table in step with the workflows table:
-- crates/workflow-store/src/workflows.rs, candidates.rs, goals.rs and tasks.rs.
use Prim.Native.String.{String}
use mathlib.Core.List.{append-nil}
use opencode_cycle_plugin.Prelude.{
  ℕ, some, List, [], ◌∷◌, ◌++◌, map, ◌≡◌, refl, sym, subst, Result, ok, err, arith,
}
use opencode_cycle_plugin.Prelude.Map
use opencode_cycle_plugin.Prelude.Map.{Map}
use opencode_cycle_plugin.Core.Workflow.{Workflow, WorkflowCommand, WorkflowEvent, Applied, apply}
use opencode_cycle_plugin.Core.Workflow.Steps.{progress, observe_all, observe_all-apply}
use opencode_cycle_plugin.Core.Goal
use opencode_cycle_plugin.Core.Goal.{Goal, GoalCommand, GoalError, GoalEvent}
use opencode_cycle_plugin.Core.Task
use opencode_cycle_plugin.Core.Task.{TaskCommand, TaskEvent}
use opencode_cycle_plugin.Store.Tables.{
  Store, StoredEvent, empty, goal_event, task_event, amendment_appended,
}
use opencode_cycle_plugin.Store.Workflows.{store_workflow, state_of}
use opencode_cycle_plugin.Store.Goals.{last_sequence, store_goal, store_amendment}
use opencode_cycle_plugin.Store.Tasks.{store_task}
use opencode_cycle_plugin.Store.Transactions.{Leaves, bind-Leaves}
use opencode_cycle_plugin.Store.Log.{
  IsLogged, log_of, log_of-append, log_of_goal, log_of_task, remember-IsLogged, written-IsLogged,
}
use opencode_cycle_plugin.Store.Invariant.{serve_all-kept}
use opencode_cycle_plugin.Store.Requests.{StoreRequest, serve_all}

-- what a command answers tells what it leaves
abbrev IsTold : ℕ → Store → Applied → Type 0
IsTold id s (w, err e) = Unit
IsTold id s (w, ok events) =
    observe_all (progress (state_of id s.workflows)) events ≡ some (progress w)

IsTold-intro :
    (id : ℕ) (s : Store) (a : Applied)
    → ((events : List WorkflowEvent)
        → a.1 ≡ ok events
        → observe_all (progress (state_of id s.workflows)) events ≡ some (progress a.0))
    → IsTold id s a
IsTold-intro id s (w, err e) told = tt
IsTold-intro id s (w, ok events) told = told events refl

apply-IsTold :
    (id : ℕ) (s : Store) (w : Workflow) (c : WorkflowCommand)
    → state_of id s.workflows ≡ w
    → IsTold id s (apply w c)
apply-IsTold id s w c e = IsTold-intro id s (apply w c) (λ events accepted.
    let told = observe_all-apply w c events accepted in
    subst (λ v. observe_all (progress v) events ≡ some (progress (apply w c).0)) (sym e) told)

store_workflow-IsLogged :
    (s : Store) (id : ℕ) (key : String) (a : Applied)
    → IsLogged s
    → IsTold id s a
    → Leaves IsLogged (store_workflow s id key a)
unfolding store_workflow
store_workflow-IsLogged s id key (w, err e) logged told = tt
store_workflow-IsLogged s id key (w, ok events) logged told =
    remember-IsLogged key _ _ _ (written-IsLogged s id w events logged told)

-- events that are not a workflow's
beside-IsLogged :
    (s : Store) (others : List StoredEvent) (goals : Map (ℕ × Goal)) (tasks : Map (ℕ × Task.Task))
    → IsLogged s
    → ((id : ℕ) → log_of id others ≡ [])
    → IsLogged (record s { goals = goals; tasks = tasks; events = s.events ++ others })
beside-IsLogged s others goals tasks logged silent id =
    let cut = log_of-append id s.events others in
    let quiet = silent id in
    let nothing = append-nil (log_of id s.events) in let before = logged id in ground arith

store_goal-IsLogged :
    (s : Store) (id : ℕ) (key : String) (owner : ℕ) (a : Goal.Applied)
    → IsLogged s
    → Leaves IsLogged (store_goal s id key owner a)
unfolding store_goal
store_goal-IsLogged s id key owner (g, err e) logged = tt
store_goal-IsLogged s id key owner (g, ok events) logged = remember-IsLogged key _ _ _ (
    beside-IsLogged s (map (goal_event id) events) (Map.insert id (owner, g) s.goals) s.tasks logged
      (λ j. log_of_goal j id events))

store_task-IsLogged :
    (s : Store) (owner id : ℕ) (key : String) (a : Task.Applied)
    → IsLogged s
    → Leaves IsLogged (store_task s owner id key a)
unfolding store_task
store_task-IsLogged s owner id key (t, err e) logged = tt
store_task-IsLogged s owner id key (t, ok events) logged = remember-IsLogged key _ _ _ (
    beside-IsLogged s (map (task_event id) events) s.goals (Map.insert id (owner, t) s.tasks) logged
      (λ j. log_of_task j id events))

store_amendment-IsLogged :
    (s : Store) (id : ℕ) (key : String) (owner : ℕ) (a : Goal × Result (Unit {0}) GoalError)
    → IsLogged s
    → Leaves IsLogged (store_amendment s id key owner a)
unfolding store_amendment
store_amendment-IsLogged s id key owner (g, err e) logged = tt
store_amendment-IsLogged s id key owner (g, ok _) logged =
    bind-Leaves IsLogged (last_sequence g.request.amendments) _ (λ sequence.
      remember-IsLogged key _ _ _ (
        beside-IsLogged s (amendment_appended id sequence ∷ []) (Map.insert id (owner, g) s.goals)
          s.tasks logged (λ j. unfold log_of in refl)))

workflow_row-IsLogged :
    (s : Store) (id : ℕ) (key : String) (c : WorkflowCommand)
    → IsLogged s
    → Leaves IsLogged (store_workflow s id key (apply (state_of id s.workflows) c))
workflow_row-IsLogged s id key c logged =
    store_workflow-IsLogged s id key _ logged (apply-IsTold id s (state_of id s.workflows) c refl)

-- Refinement of an event log: after any requests to an empty store, accepted or refused, the events
-- stored for a workflow, read in their order from a new workflow, are consistent and tell exactly
-- the state and the repair counters that are stored for it.
pub serve_all-IsLogged : (qs : List StoreRequest) → IsLogged (serve_all empty qs)
serve_all-IsLogged qs =
    serve_all-kept IsLogged
      (record {
        workflow_row = workflow_row-IsLogged;
        goal_row = store_goal-IsLogged;
        amendment_row = store_amendment-IsLogged;
        task_row = store_task-IsLogged;
        reservation_row = λ s rs logged. logged;
      })
      empty qs (λ id. unfold log_of state_of Map.get in refl)
