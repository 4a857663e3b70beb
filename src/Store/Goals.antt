-- ===== src/Store/Goals.antt =====
-- Commands to goals, crates/workflow-store/src/goals.rs.
use Prim.Native.String.{String}
use opencode_cycle_plugin.Prelude.{
  ℕ, Bool, true, false, Option, none, some, List, [], ◌∷◌, ◌++◌, map, Result, ok, err, ◌>>=◌, ◌>>◌,
  ◌==◌, if◌then◌else◌,
}
use opencode_cycle_plugin.Prelude.Map
use opencode_cycle_plugin.Core.Request
use opencode_cycle_plugin.Core.Request.{WorkflowTimestamp, RequestAmendment}
use opencode_cycle_plugin.Core.Goal
use opencode_cycle_plugin.Core.Goal.{Goal, GoalCommand, GoalEvent, Applied, GoalError}
use opencode_cycle_plugin.Store.Tables
use opencode_cycle_plugin.Store.Tables.{
  Store, StoreError, Remembered, of_goal, of_goal_amendment, goal_event, amendment_appended, recall,
  remember, commit, guard, read_only, aggregate_conflict, idempotency_conflict, sqlite,
  serialization,
}

pub record GoalApplyResult : Type 0 where
  pub duplicate : Bool
  pub events : List GoalEvent
  pub state : Goal

abbrev accepted : Result Goal GoalError → Result Goal StoreError
accepted (ok g) = ok g
accepted (err e) = err serialization

abbrev request_accepted :
    {A : Type 0} → Result A Request.RequestError → Result Goal StoreError → Result Goal StoreError
request_accepted (ok _) rest = rest
request_accepted (err e) rest = err serialization

-- `serde_json::from_str` of a goal: the checks of its request, then of the goal
unfoldable pub read_goal : Goal → Result Goal StoreError
read_goal g = request_accepted (Request.try_from g.request) (accepted (Goal.try_from g))

-- the goal of a row, read
abbrev pub read_row : Option (ℕ × Goal) → Result (ℕ × Goal) StoreError
read_row none = err sqlite
read_row (some (owner, g)) = read_goal g >>= λ read. ok (owner, read)

unfoldable pub load_goal : Store → ℕ → Result (Option (ℕ × Goal)) StoreError
load_goal s goal_id = elim (Map.get goal_id s.goals) [
  | none ↦ ok none
  | some row ↦ read_row (some row) >>= λ read. ok (some read)
]

unfoldable pub recall_goal : ℕ → Option Remembered → Result (Option GoalApplyResult) StoreError
recall_goal goal_id none = ok none
recall_goal goal_id (some (of_goal id events state)) =
    if id == goal_id
    then (do
      read ← read_goal state
      ok (some (record { duplicate = true; events = events; state = read })))
    else err idempotency_conflict
recall_goal goal_id (some _) = err idempotency_conflict

unfoldable pub store_goal :
    Store → ℕ → String → ℕ → Applied → Result (Store × GoalApplyResult) StoreError
store_goal s goal_id key owner (g, err e) = err (Tables.goal e)
store_goal s goal_id key owner (g, ok events) = do
  s' ← remember key (of_goal goal_id events g) (record s {
    goals = Map.insert goal_id (owner, g) s.goals;
    events = s.events ++ map (goal_event goal_id) events;
  })
  ok (s', record { duplicate = false; events = events; state = g })

abbrev apply_read :
    Store → ℕ → String → GoalCommand → ℕ × Goal → Result (Store × GoalApplyResult) StoreError
apply_read s goal_id key command (owner, g) = store_goal s goal_id key owner (Goal.apply g command)

abbrev pub apply_new :
    Store
    → ℕ
    → String
    → GoalCommand
    → Option GoalApplyResult
    → Result (Store × GoalApplyResult) StoreError
apply_new s goal_id key command (some recalled) = ok (s, recalled)
apply_new s goal_id key command none =
    read_row (Map.get goal_id s.goals) >>= apply_read s goal_id key command

unfoldable pub apply_goal_command :
    Store → ℕ → String → GoalCommand → Store × Result GoalApplyResult StoreError
apply_goal_command s goal_id key command = commit s (do
  guard s key
  recalled ← recall_goal goal_id (recall key s.remembered)
  apply_new s goal_id key command recalled)

unfoldable pub recall_amendment : ℕ → Option Remembered → Result (Option Goal) StoreError
recall_amendment goal_id none = ok none
recall_amendment goal_id (some (of_goal_amendment id state)) =
    if id == goal_id then (do read ← read_goal state; ok (some read)) else err idempotency_conflict
recall_amendment goal_id (some _) = err idempotency_conflict

-- `goal.amendments().last()`
abbrev pub last_sequence : List RequestAmendment → Result ℕ StoreError
last_sequence [] = err aggregate_conflict
last_sequence (a ∷ []) = ok a.sequence
last_sequence (a ∷ b ∷ rest) = last_sequence (b ∷ rest)

unfoldable pub store_amendment :
    Store → ℕ → String → ℕ → Goal × Result (Unit {0}) GoalError → Result (Store × Goal) StoreError
store_amendment s goal_id key owner (g, err e) = err (Tables.goal e)
store_amendment s goal_id key owner (g, ok _) = do
  sequence ← last_sequence g.request.amendments
  s' ← remember key (of_goal_amendment goal_id g) (record s {
    goals = Map.insert goal_id (owner, g) s.goals;
    events = s.events ++ amendment_appended goal_id sequence ∷ [];
  })
  ok (s', g)

abbrev amend_read :
    Store → ℕ → String → String → WorkflowTimestamp → ℕ × Goal → Result (Store × Goal) StoreError
amend_read s goal_id key text timestamp (owner, g) =
    store_amendment s goal_id key owner (Goal.append_amendment g text timestamp)

abbrev pub amend_new :
    Store → ℕ → String → String → WorkflowTimestamp → Option Goal → Result (Store × Goal) StoreError
amend_new s goal_id key text timestamp (some recalled) = ok (s, recalled)
amend_new s goal_id key text timestamp none =
    read_row (Map.get goal_id s.goals) >>= amend_read s goal_id key text timestamp

unfoldable pub append_goal_amendment :
    Store → ℕ → String → String → WorkflowTimestamp → Store × Result Goal StoreError
append_goal_amendment s goal_id key text timestamp = commit s (do
  guard s key
  recalled ← recall_amendment goal_id (recall key s.remembered)
  amend_new s goal_id key text timestamp recalled)
