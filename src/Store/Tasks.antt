-- ===== src/Store/Tasks.antt =====
-- Commands to tasks, crates/workflow-store/src/tasks.rs.
use Prim.Native.String.{String}
use opencode_cycle_plugin.Prelude.{
  ℕ, Bool, true, false, Option, none, some, List, ◌++◌, map, Result, ok, err, ◌>>=◌, ◌>>◌, ◌==◌,
  if◌then◌else◌,
}
use opencode_cycle_plugin.Prelude.Map
use opencode_cycle_plugin.Core.Task
use opencode_cycle_plugin.Core.Task.{Task, TaskCommand, TaskEvent, Applied}
use opencode_cycle_plugin.Store.Tables
use opencode_cycle_plugin.Store.Tables.{
  Store, StoreError, Remembered, of_task, task_event, recall, remember, commit, guard,
  aggregate_conflict, idempotency_conflict,
}

pub record TaskApplyResult : Type 0 where
  pub duplicate : Bool
  pub events : List TaskEvent
  pub state : Task

unfoldable pub recall_task : ℕ → Option Remembered → Result (Option TaskApplyResult) StoreError
recall_task task_id none = ok none
recall_task task_id (some (of_task id events state)) =
    if id == task_id
    then ok (some (record { duplicate = true; events = events; state = state }))
    else err idempotency_conflict
recall_task task_id (some _) = err idempotency_conflict

-- the stored task, if it belongs to the workflow, or `Task::new()`
abbrev pub owned_task : ℕ → Option (ℕ × Task) → Result Task StoreError
owned_task workflow_id none = ok Task.new
owned_task workflow_id (some (owner, t)) =
    if owner == workflow_id then ok t else err aggregate_conflict

unfoldable pub store_task :
    Store → ℕ → ℕ → String → Applied → Result (Store × TaskApplyResult) StoreError
store_task s workflow_id task_id key (t, err e) = err (Tables.transition e)
store_task s workflow_id task_id key (t, ok events) = do
  s' ← remember key (of_task task_id events t) (record s {
    tasks = Map.insert task_id (workflow_id, t) s.tasks;
    events = s.events ++ map (task_event task_id) events;
  })
  ok (s', record { duplicate = false; events = events; state = t })

abbrev pub apply_new :
    Store
    → ℕ
    → ℕ
    → String
    → TaskCommand
    → Option TaskApplyResult
    → Result (Store × TaskApplyResult) StoreError
apply_new s workflow_id task_id key command (some recalled) = ok (s, recalled)
apply_new s workflow_id task_id key command none =
    owned_task workflow_id (Map.get task_id s.tasks) >>= λ t.
    store_task s workflow_id task_id key (Task.apply t command)

unfoldable pub apply_task_command :
    Store → ℕ → ℕ → String → TaskCommand → Store × Result TaskApplyResult StoreError
apply_task_command s workflow_id task_id key command = commit s (do
  guard s key
  recalled ← recall_task task_id (recall key s.remembered)
  apply_new s workflow_id task_id key command recalled)
