-- ===== src/Store/Documents.antt =====
-- Requests, and the focus, the plans and the links of goals: crates/workflow-store/src/goals.rs and
-- crates/workflow-store/src/requests.rs. The JSON of a value and the digest of a text are
-- parameters, and so is the order of the texts by which a query sorts links.
use Prim.Native.String.{[] as nil, ◌∷◌ as cons}
use Prim.Native.Char.{code}
use text.Mathlib.Text.{◌==◌ as str_eq}
use opencode_cycle_plugin.Prelude.{
  ℕ, Bool, true, false, not, ◌&&◌, ◌||◌, Option, none, some, List, [], ◌∷◌, Result, ok, err, ◌>>=◌,
  ◌>>◌, fail_if, String, byte_len, is_blank, ltb, ◌==◌, if◌then◌else◌,
}
use opencode_cycle_plugin.Prelude.Map
use opencode_cycle_plugin.Prelude.Map.{Map}
use opencode_cycle_plugin.Core.Request
use opencode_cycle_plugin.Core.Request.{WorkflowTimestamp, RequestRecord}
use opencode_cycle_plugin.Core.Goal.{Goal}
use opencode_cycle_plugin.Store.Tables.{
  Store, StoreError, read_only, aggregate_conflict, serialization,
}
use opencode_cycle_plugin.Store.Goals.{load_goal}

-- a row of `goal_plans`; the digest is that of the content
pub record GoalPlanRecord : Type 0 where
  pub goal_id : ℕ
  pub content : String
  pub created_at : WorkflowTimestamp
  pub revision : ℕ
  pub source_session_id : String

-- a row of `goal_workflows`
pub record GoalLink : Type 0 where
  pub goal_id : ℕ
  pub workflow_id : ℕ
  pub milestone : String
  pub linked_at : WorkflowTimestamp

-- a row of `goal_focus`, whose key is the project and the session
pub record GoalFocus : Type 0 where
  pub project_id : ℕ
  pub session_id : String
  pub goal_id : ℕ

-- Plans stand latest first, and links in the order of their query.
pub record Database : Type 0 where
  pub store : Store
  pub requests : Map (ℕ × RequestRecord)
  pub focus : List GoalFocus
  pub plans : List GoalPlanRecord
  pub links : List GoalLink

-- `contains('\0')`
abbrev pub contains_nul : String → Bool
contains_nul nil = false
contains_nul (cons c s) = (code c == 0) || contains_nul s

unfoldable pub validate_session : String → Result (Unit {0}) StoreError
validate_session value =
    fail_if (is_blank value || ltb 512 (byte_len value) || contains_nul value) aggregate_conflict

-- a write to the store itself
abbrev pub with_store : Database → Store → Database
with_store d s = record d { store = s }

-- a row under the key of another with the same owner and JSON is the same row
abbrev pub same_row : ℕ × String → ℕ × String → Bool
same_row (owner, json) (owner', json') = (owner == owner') && str_eq json json'

unfoldable pub save_goal_once :
    (Goal → String) → Database → ℕ → ℕ → Goal → Database × Result Bool StoreError
save_goal_once json d goal_id project_id goal =
    if not d.store.read_write then (d, err read_only) else (elim (Map.get goal_id d.store.goals) [
      | none ↦ (
        with_store d
            (record d.store { goals = Map.insert goal_id (project_id, goal) d.store.goals }),
        ok false,
      )
      | some (owner, stored) ↦ (
        d,
        (if same_row (owner, json stored) (project_id, json goal)
            then ok true
            else err aggregate_conflict),
      )
    ])

unfoldable pub save_request_once :
    (RequestRecord → String) → Database → ℕ → ℕ → RequestRecord → Database × Result Bool StoreError
save_request_once json d workflow_id project_id request =
    if not d.store.read_write then (d, err read_only) else (elim (Map.get workflow_id d.requests) [
      | none ↦ (
        record d { requests = Map.insert workflow_id (project_id, request) d.requests },
        ok false,
      )
      | some (owner, stored) ↦ (
        d,
        (if same_row (owner, json stored) (project_id, json request)
            then ok true
            else err aggregate_conflict),
      )
    ])

-- `INSERT … ON CONFLICT(project_id, session_id) DO UPDATE`
unfoldable pub put_focus : GoalFocus → List GoalFocus → List GoalFocus
put_focus f [] = f ∷ []
put_focus f (row ∷ rows) =
    let rest = put_focus f rows in
    if (row.project_id == f.project_id) && str_eq row.session_id f.session_id
    then f ∷ rows
    else row ∷ rest

unfoldable pub find_focus : ℕ → String → List GoalFocus → Option ℕ
find_focus project_id session_id [] = none
find_focus project_id session_id (row ∷ rows) =
    if (row.project_id == project_id) && str_eq row.session_id session_id
    then some row.goal_id
    else find_focus project_id session_id rows

-- the goal is there, and the project's
abbrev pub require_project : ℕ → Option (ℕ × Goal) → Result (Unit {0}) StoreError
require_project project_id none = err aggregate_conflict
require_project project_id (some (owner, goal)) =
    fail_if (not (owner == project_id)) aggregate_conflict

-- a write that its checks allow
abbrev pub write {ℓ} :
    {A : Type ℓ}
    → Database
    → Result (Unit {0}) StoreError
    → Database × A
    → Database × Result A StoreError
write d (err e) _ = (d, err e)
write d (ok _) (d', a) = (d', ok a)

unfoldable pub focus_goal : Database → ℕ → String → ℕ → Database × Result (Unit {0}) StoreError
focus_goal d project_id session_id goal_id =
    write d
      (do
        fail_if (not d.store.read_write) read_only
        validate_session session_id
        loaded ← load_goal d.store goal_id
        require_project project_id loaded)
      (
        record d {
          focus =
              put_focus
                (record { project_id = project_id; session_id = session_id; goal_id = goal_id })
                d.focus;
        },
        tt,
      )

unfoldable pub focused_goal : Database → ℕ → String → Result (Option ℕ) StoreError
focused_goal d project_id session_id =
    validate_session session_id >> ok (find_focus project_id session_id d.focus)

-- `serde_json::from_str` of a request
abbrev pub read_request :
    Option (ℕ × RequestRecord) → Result (Option (ℕ × RequestRecord)) StoreError
read_request none = ok none
read_request (some (owner, r)) = elim (Request.try_from r) [
  | ok read ↦ ok (some (owner, read))
  | err e ↦ err serialization
]

unfoldable pub load_request : Database → ℕ → Result (Option (ℕ × RequestRecord)) StoreError
load_request d workflow_id = read_request (Map.get workflow_id d.requests)
