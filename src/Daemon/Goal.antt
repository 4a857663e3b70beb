-- ===== src/Daemon/Goal.antt =====
-- The checks of the goal operations, crates/workflowd/src/goal.rs.
pub mod Milestones
pub mod Acceptance
use text.Mathlib.Text.{◌==◌ as str_eq}
use opencode_cycle_plugin.Prelude.{
  ℕ, Bool, true, false, not, ◌&&◌, ◌||◌, Option, none, some, List, [], ◌∷◌, Result, ok, err, ◌>>=◌,
  ◌>>◌, fail_if, String, byte_len, is_blank, ltb, ◌==◌, if◌then◌else◌, is_some, is_empty,
}
use opencode_cycle_plugin.Core.Workflow.{Workflow, WorkflowState}
use opencode_cycle_plugin.Core.Goal.{Goal, GoalCommand, GoalError}
use opencode_cycle_plugin.Core.Goal
use opencode_cycle_plugin.Store.Tables.{Store, StoreError}
use opencode_cycle_plugin.Store.Goals.{load_goal}
use opencode_cycle_plugin.Store.Workflows.{load_workflow}
use opencode_cycle_plugin.Store.Documents.{Database, GoalLink}
use opencode_cycle_plugin.Store.Plans.{latest_plan, goal_workflows}

pub data GoalControlAction : Type 0 where
  start_planning mark_ready activate pause resume block resume_blocked continue : GoalControlAction
  request_completion approve_completion reject_completion abort : GoalControlAction

-- the texts of the errors
pub data Refusal : Type 0 where
  of_store : StoreError → Refusal
  evidence_not_accepted reason_required no_plan no_link no_linked_state : Refusal
  unfinished_link unfinished_milestone evidence_required : Refusal
  no_goal foreign_goal no_request foreign_workflow not_planning no_continuations : Refusal
  of_goal : GoalError → Refusal

abbrev pub is_approval : GoalControlAction → Bool
is_approval approve_completion = true
is_approval _ = false

abbrev pub is_completion : GoalControlAction → Bool
is_completion request_completion = true
is_completion approve_completion = true
is_completion _ = false

abbrev pub is_mark_ready : GoalControlAction → Bool
is_mark_ready mark_ready = true
is_mark_ready _ = false

abbrev pub needs_reason : GoalControlAction → Bool
needs_reason abort = true
needs_reason block = true
needs_reason reject_completion = true
needs_reason _ = false

unfoldable pub command : GoalControlAction → GoalCommand
command start_planning = GoalCommand.start_planning
command mark_ready = GoalCommand.mark_ready
command activate = GoalCommand.activate
command pause = GoalCommand.pause
command resume = GoalCommand.resume
command block = GoalCommand.block
command resume_blocked = GoalCommand.resume_blocked
command continue = GoalCommand.continue
command request_completion = GoalCommand.request_completion
command approve_completion = GoalCommand.approve_completion
command reject_completion = GoalCommand.reject_completion
command abort = GoalCommand.abort

-- `map_err(|error| error.to_string())`
abbrev pub map_store_error {ℓ} : {A : Type ℓ} → Result A StoreError → Result A Refusal
map_store_error (ok a) = ok a
map_store_error (err e) = err (of_store e)

-- `is_none_or(|value| …)` on the reason
abbrev pub is_missing : Option String → Bool
is_missing none = true
is_missing (some reason) = is_blank reason || ltb 4096 (byte_len reason)

-- the map from a milestone to whether a workflow of it completed
abbrev pub Milestones : Type 0
Milestones = List (String × Bool)

-- `insert(milestone, true)`
unfoldable pub complete : String → Milestones → Milestones
complete milestone [] = (milestone, true) ∷ []
complete milestone ((m, done) ∷ rest) =
    let others = complete milestone rest in
    if str_eq m milestone then (milestone, true) ∷ rest else (m, done) ∷ others

-- `entry(milestone).or_insert(false)`
unfoldable pub mention : String → Milestones → Milestones
mention milestone [] = (milestone, false) ∷ []
mention milestone ((m, done) ∷ rest) =
    let others = mention milestone rest in
    if str_eq m milestone then (m, done) ∷ rest else (m, done) ∷ others

-- the `match` on the state of one linked workflow
abbrev pub record_state : WorkflowState → String → Milestones → Result Milestones Refusal
record_state WorkflowState.completed milestone ms = ok (complete milestone ms)
record_state WorkflowState.cancelled milestone ms = ok (mention milestone ms)
record_state _ milestone ms = err unfinished_link

abbrev pub record_link : Option Workflow → String → Milestones → Result Milestones Refusal
record_link none milestone ms = err no_linked_state
record_link (some w) milestone ms = record_state w.state milestone ms

unfoldable pub record_links : Store → List GoalLink → Milestones → Result Milestones Refusal
record_links s [] ms = ok ms
record_links s (l ∷ ls) ms = do
  next ← record_link (load_workflow s l.workflow_id) l.milestone ms
  record_links s ls next

-- `values().any(|completed| !completed)`
unfoldable pub any_unfinished : Milestones → Bool
any_unfinished [] = false
any_unfinished ((m, done) ∷ rest) = not done || any_unfinished rest

unfoldable pub validate_completion : Store → List GoalLink → Result (Unit {0}) Refusal
validate_completion s links = do
  fail_if (is_empty links) no_link
  milestones ← record_links s links []
  fail_if (any_unfinished milestones) unfinished_milestone

-- a project's goal
abbrev pub owned_goal : ℕ → Option (ℕ × Goal) → Result Goal Refusal
owned_goal project_id none = err no_goal
owned_goal project_id (some (owner, goal)) =
    if owner == project_id then ok goal else err foreign_goal

unfoldable pub require_owner : Store → ℕ → ℕ → Result Goal Refusal
require_owner s project_id goal_id = map_store_error (load_goal s goal_id) >>= owned_goal project_id

-- evidence is a digest
unfoldable pub validate_control :
    Database → ℕ → GoalControlAction → Option ℕ → Option String → Result (Unit {0}) Refusal
validate_control d goal_id action completion_evidence reason = do
  fail_if (is_some completion_evidence && not (is_approval action)) evidence_not_accepted
  fail_if (needs_reason action && is_missing reason) reason_required
  fail_if (is_mark_ready action && not (is_some (latest_plan goal_id d.plans))) no_plan
  (if is_completion action
      then validate_completion d.store (goal_workflows goal_id d.links)
      else ok tt)
  fail_if (is_approval action && not (is_some completion_evidence)) evidence_required
