-- ===== src/Store/Tables.antt =====
-- The tables that commands read and write, crates/workflow-store/src/lib.rs and the files named
-- below. A row holds the value that its JSON codes; a column that is written and never read by
-- the code modelled here (`created_at`, `updated_at`) is left out, and so are failures of SQLite
-- other than a missing row and a key used twice. A transaction that returns before its commit
-- writes nothing.
use Prim.Native.String.{String}
use text.Mathlib.Text.{◌==◌ as str_eq}
use opencode_cycle_plugin.Prelude.{
  ℕ, Bool, true, false, not, ◌||◌, Option, none, some, List, [], ◌∷◌, Result, ok, err, ◌>>◌,
  fail_if, ltb, ◌==◌, if◌then◌else◌, byte_len, is_some,
}
use opencode_cycle_plugin.Prelude.Map.{Map}
use opencode_cycle_plugin.Core.Workflow.{Workflow, WorkflowEvent}
use opencode_cycle_plugin.Core.Workflow
use opencode_cycle_plugin.Core.Goal.{Goal, GoalEvent, GoalError}
use opencode_cycle_plugin.Core.Task.{Task, TaskEvent}

-- A row of `command_deduplication`: the columns `aggregate_type`, `aggregate_id` and `result_json`.
pub data Remembered : Type 0 where
  of_workflow : ℕ → List WorkflowEvent → Workflow → Remembered
  of_goal : ℕ → List GoalEvent → Goal → Remembered
  of_goal_amendment : ℕ → Goal → Remembered
  of_task : ℕ → List TaskEvent → Task → Remembered

-- a row of `events`; an amendment is logged with its sequence number
pub data StoredEvent : Type 0 where
  workflow_event : ℕ → WorkflowEvent → StoredEvent
  goal_event : ℕ → GoalEvent → StoredEvent
  amendment_appended : ℕ → ℕ → StoredEvent
  task_event : ℕ → TaskEvent → StoredEvent

-- a row of `candidate_delivery_reservations`, whose key is the candidate
pub record Reservation : Type 0 where
  pub workflow_id : ℕ
  pub candidate_digest : ℕ
  pub journal_digest : Option ℕ

-- `read_write` is `mode == StoreMode::ReadWrite`. The owner of a goal is a project, of a task a
-- workflow.
pub record Store : Type 0 where
  pub read_write : Bool
  pub workflows : Map Workflow
  pub goals : Map (ℕ × Goal)
  pub tasks : Map (ℕ × Task)
  pub remembered : List (String × Remembered)
  pub events : List StoredEvent
  pub reservations : Map Reservation

-- `sqlite` stands for a query that returns no row and for a key that is used already.
pub data StoreError : Type 0 where
  sqlite read_only aggregate_conflict delivery_in_progress idempotency_conflict : StoreError
  invalid_idempotency_key serialization : StoreError
  transition : Workflow.TransitionError → StoreError
  goal : GoalError → StoreError

abbrev pub empty : Store
empty = record {
  read_write = true;
  workflows = [];
  goals = [];
  tasks = [];
  remembered = [];
  events = [];
  reservations = [];
}

-- the row of `command_deduplication` with this key
unfoldable pub recall : String → List (String × Remembered) → Option Remembered
recall key [] = none
recall key ((k, r) ∷ rest) = if str_eq k key then some r else recall key rest

-- `INSERT INTO command_deduplication`, whose key is unique
unfoldable pub remember : String → Remembered → Store → Result Store StoreError
remember key r s =
    if is_some (recall key s.remembered)
    then err sqlite
    else ok (record s { remembered = (key, r) ∷ s.remembered })

unfoldable pub validate_idempotency_key : String → Result (Unit {0}) StoreError
validate_idempotency_key value =
    if (byte_len value == 0) || ltb 256 (byte_len value) then err invalid_idempotency_key else ok tt

-- a transaction: committed at the end, rolled back on an early return
abbrev pub commit {ℓ} :
    {A : Type ℓ} → Store → Result (Store × A) StoreError → Store × Result A StoreError
commit s (err e) = (s, err e)
commit s (ok (s', a)) = (s', ok a)

-- `SELECT EXISTS(… WHERE workflow_id = ?1)`
unfoldable pub is_reserved : ℕ → Map Reservation → Bool
is_reserved workflow_id [] = false
is_reserved workflow_id ((candidate_id, r) ∷ rest) =
    (r.workflow_id == workflow_id) || is_reserved workflow_id rest

abbrev pub guard : Store → String → Result (Unit {0}) StoreError
guard s key = fail_if (not s.read_write) read_only >> validate_idempotency_key key
