-- ===== src/Daemon/GoalOperations.antt =====
-- The goal operations that change the store, crates/workflowd/src/goal.rs, each up to the audit
-- record that follows it. The texts of the keys, which show ids, are parameters, as the JSON of a
-- goal and the digest of a text are.
pub mod Completion
mod Examples
use opencode_cycle_plugin.Prelude.{
  ℕ, Bool, true, false, not, Option, none, some, List, Result, ok, err, ◌>>=◌, ◌>>◌, fail_if,
  String, ◌==◌, if◌then◌else◌,
}
use opencode_cycle_plugin.Core.Request.{WorkflowTimestamp, RequestRecord}
use opencode_cycle_plugin.Core.Goal
use opencode_cycle_plugin.Core.Goal.{Goal, GoalCommand, GoalState, GoalError}
use opencode_cycle_plugin.Store.Tables.{Store, StoreError}
use opencode_cycle_plugin.Store.Goals.{GoalApplyResult, apply_goal_command, append_goal_amendment}
use opencode_cycle_plugin.Store.Documents.{
  Database, GoalLink, with_store, load_request, save_goal_once, focus_goal,
}
use opencode_cycle_plugin.Store.Plans.{save_goal_plan, link_goal_workflow}
use opencode_cycle_plugin.Daemon.Goal.{
  GoalControlAction, Refusal, of_store, command, require_owner, validate_control, map_store_error,
  no_continuations, of_goal, no_request, foreign_workflow, not_planning,
}

-- a step on the store, its error as a text
abbrev pub on_store {ℓ} :
    {A : Type ℓ} → Database → Store × Result A StoreError → Database × Result A Refusal
on_store d (s, r) = (with_store d s, map_store_error r)

abbrev pub on_database {ℓ} :
    {A : Type ℓ} → Database × Result A StoreError → Database × Result A Refusal
on_database (d, r) = (d, map_store_error r)

-- `?` between two steps
abbrev pub then_step {ℓ κ} :
    {A : Type ℓ} {B : Type κ}
    → Database × Result A Refusal
    → (Database → A → Database × Result B Refusal)
    → Database × Result B Refusal
then_step (d, err e) next = (d, err e)
then_step (d, ok a) next = next d a

-- a check that changes nothing
abbrev pub checked {ℓ κ} :
    {A : Type ℓ} {B : Type κ}
    → Database
    → Result A Refusal
    → (A → Database × Result B Refusal)
    → Database × Result B Refusal
checked d r next = then_step (d, r) (λ d' a. next a)

abbrev map_goal_error : Result Goal GoalError → Result Goal Refusal
map_goal_error (ok g) = ok g
map_goal_error (err e) = err (of_goal e)

abbrev made_goal : String → List String → List String → List String → ℕ → Result Goal Refusal
made_goal objective criteria constraints non_goals maximum =
    fail_if (maximum == 0) no_continuations
    >> map_goal_error (Goal.new objective criteria constraints non_goals maximum)

-- `GoalOperation::Create`
unfoldable pub create :
    (Goal → String)
    → Database
    → ℕ
    → ℕ
    → String
    → String
    → List String
    → List String
    → List String
    → ℕ
    → Database × Result Bool Refusal
create json d project_id goal_id session_id objective criteria constraints non_goals maximum =
    checked d (made_goal objective criteria constraints non_goals maximum) (λ goal.
      then_step (on_database (save_goal_once json d goal_id project_id goal)) (λ saved duplicate.
        then_step (on_database (focus_goal saved project_id session_id goal_id))
          (λ focused _. (focused, ok duplicate))))

-- `GoalOperation::Amend`
unfoldable pub amend :
    Database → ℕ → ℕ → String → String → WorkflowTimestamp → Database × Result Goal Refusal
amend d project_id goal_id key text now =
    checked d (require_owner d.store project_id goal_id)
      (λ _. on_store d (append_goal_amendment d.store goal_id key text now))

-- `GoalOperation::Control`
unfoldable pub control :
    Database
    → ℕ
    → ℕ
    → String
    → GoalControlAction
    → Option ℕ
    → Option String
    → Database × Result GoalApplyResult Refusal
control d project_id goal_id key action completion_evidence reason =
    checked d (require_owner d.store project_id goal_id) (λ _.
      checked d (validate_control d goal_id action completion_evidence reason)
        (λ _. on_store d (apply_goal_command d.store goal_id key (command action))))

-- `GoalOperation::Focus`
unfoldable pub focus : Database → ℕ → ℕ → String → Database × Result (Unit {0}) Refusal
focus d project_id goal_id session_id =
    checked d (require_owner d.store project_id goal_id)
      (λ _. on_database (focus_goal d project_id session_id goal_id))

abbrev own_workflow : ℕ → Option (ℕ × RequestRecord) → Result (Unit {0}) Refusal
own_workflow project_id none = err no_request
own_workflow project_id (some (owner, r)) = fail_if (not (owner == project_id)) foreign_workflow

-- `GoalOperation::LinkWorkflow`
unfoldable pub link_workflow :
    (GoalLink → GoalLink → Bool) → Database → ℕ → GoalLink → Database × Result (Unit {0}) Refusal
link_workflow precedes d project_id l = checked d (require_owner d.store project_id l.goal_id) (λ _.
    checked d (map_store_error (load_request d l.workflow_id) >>= own_workflow project_id)
      (λ _. on_database (link_goal_workflow precedes d l)))

-- the goal is planning, or starts to
abbrev pub start_plan : Database → ℕ → String → GoalState → Database × Result (Unit {0}) Refusal
start_plan d goal_id key GoalState.draft =
    then_step (on_store d (apply_goal_command d.store goal_id key GoalCommand.start_planning))
      (λ started _. (started, ok tt))
start_plan d goal_id key GoalState.planning = (d, ok tt)
start_plan d goal_id key _ = (d, err not_planning)

-- `GoalOperation::SavePlan`
unfoldable pub save_plan :
    (String → ℕ)
    → Database
    → ℕ
    → ℕ
    → String
    → String
    → String
    → WorkflowTimestamp
    → Database × Result ℕ Refusal
save_plan digest d project_id goal_id key source_session_id content now =
    checked d (require_owner d.store project_id goal_id) (λ goal.
      then_step (start_plan d goal_id key goal.state) (λ started _.
        on_database (save_goal_plan digest started goal_id source_session_id content now)))
