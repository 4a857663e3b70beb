-- ===== src/Daemon/GoalOperations/Examples.antt =====
-- An active goal with a completed and a cancelled workflow of one milestone.
use opencode_cycle_plugin.Prelude.{ℕ, ◌≡◌, ◌↔◌, refl, none, [], ◌∷◌, ok, String, false, Bool, ltb}
use opencode_cycle_plugin.Prelude.Map
use opencode_cycle_plugin.Core.Workflow.{Workflow, WorkflowState}
use opencode_cycle_plugin.Core.Workflow
use opencode_cycle_plugin.Core.Request
use opencode_cycle_plugin.Core.Goal
use opencode_cycle_plugin.Core.Goal.{Goal, GoalState}
use opencode_cycle_plugin.Store.Tables.{Store, empty, recall, remember, validate_idempotency_key}
use opencode_cycle_plugin.Store.Goals.{
  GoalApplyResult, load_goal, read_goal, apply_goal_command, recall_goal, store_goal,
}
use opencode_cycle_plugin.Store.Documents.{Database, GoalLink, validate_session}
use opencode_cycle_plugin.Store.Plans.{
  goal_workflows, save_goal_plan, find_plan, latest_plan, link_goal_workflow,
}
use opencode_cycle_plugin.Store.Revisions.{save_goal_plan_again}
use opencode_cycle_plugin.Store.Links.{HaveOneGoal, link_goal_workflow-HaveOneGoal}
use opencode_cycle_plugin.Daemon.Goal.{
  request_completion, require_owner, validate_control, validate_completion, record_links, complete,
  mention, any_unfinished, command,
}
use opencode_cycle_plugin.Daemon.GoalOperations.{control}
use opencode_cycle_plugin.Daemon.GoalOperations.Completion.{IsOwn, IsAllowed, control_iff}

abbrev ended : WorkflowState → Workflow
ended state = record (Workflow.new 5) { state = state }

abbrev goal : Goal
goal = record {
  request = record { original_text = "ship"; attachment_hashes = []; amendments = [] };
  success_criteria = [];
  constraints = [];
  non_goals = [];
  state = GoalState.active;
  max_continuations = 3;
  continuations = 0;
  paused_from = none;
  blocked_from = none;
}

abbrev link : ℕ → GoalLink
link workflow = record { goal_id = 3; workflow_id = workflow; milestone = "core"; linked_at = 0 }

abbrev database : Database
database = record {
  store = record empty {
    goals = (3, (9, goal)) ∷ [];
    workflows = (1, ended WorkflowState.completed) ∷ (2, ended WorkflowState.cancelled) ∷ [];
  };
  requests = [];
  focus = [];
  plans = [];
  links = link 2 ∷ link 1 ∷ [];
}

abbrev completing : GoalApplyResult
completing = record {
  duplicate = false;
  events = Goal.state_changed GoalState.active GoalState.completing ∷ [];
  state = record goal { state = GoalState.completing };
}

completion_requested : (control database 9 3 "k" request_completion none none).1 ≡ ok completing
unfolding control require_owner load_goal read_goal validate_control validate_completion
    record_links complete mention any_unfinished command goal_workflows apply_goal_command
    recall_goal store_goal recall remember validate_idempotency_key Map.get Map.insert Goal.apply
    Goal.try_from Goal.validate_objective Goal.validate_items Request.try_from
completion_requested = refl

control_iff_example :
    let (d', r) = control database 9 3 "k" request_completion none none in
    (control database 9 3 "k" request_completion none none ≡ (d', ok completing)) ↔ (
      ((own : Goal) × IsOwn database.store 9 3 own)
      × IsAllowed database 3 request_completion none none
      × ((s : Store) × (apply_goal_command database.store 3 "k" (command request_completion)
            ≡ (s, ok completing))
          × (d' ≡ record database { store = s })))
control_iff_example =
    control_iff database 9 3 "k" request_completion none none
      (control database 9 3 "k" request_completion none none).0 completing

abbrev digest : String → ℕ
digest s = 5

plan_saved : (save_goal_plan digest database 3 "s" "plan" 0).1 ≡ ok 1
unfolding save_goal_plan validate_session find_plan latest_plan Map.get
plan_saved = refl

save_goal_plan_again_example :
    let saved = (save_goal_plan digest database 3 "s" "plan" 0).0 in
    save_goal_plan digest saved 3 "s" "plan" 8 ≡ (saved, ok 1)
save_goal_plan_again_example = save_goal_plan_again digest database 3 "s" "plan" 0 8 1 plan_saved

abbrev precedes : GoalLink → GoalLink → Bool
precedes l m = ltb l.workflow_id m.workflow_id

link_goal_workflow-HaveOneGoal_example :
    HaveOneGoal
      (link_goal_workflow precedes (record database { links = link 2 ∷ [] }) (link 1)).0.links
link_goal_workflow-HaveOneGoal_example =
    link_goal_workflow-HaveOneGoal precedes (record database { links = link 2 ∷ [] }) (link 1)
      (tt, tt)
