-- ===== src/Core/Goal/Examples.antt =====
-- The theorems on goals at concrete goals.
use opencode_cycle_plugin.Prelude.{◌≡◌, refl, ◌↔◌, true, none, [], ◌∷◌, ok, err, is_ok, arith, List}
use opencode_cycle_plugin.Core.Request
use opencode_cycle_plugin.Core.Goal.{
  GoalState, GoalCommand, Goal, apply, run, try_from, new, validate_objective, validate_items,
  start_planning, mark_ready, activate, continue, resume_blocked, invalid_field,
}
use opencode_cycle_plugin.Core.Goal.Steps.{IsSound, goal_run-IsSound}
use opencode_cycle_plugin.Core.Goal.Reload.{PassesLimit, try_from-apply, passed_limit_unreadable}

abbrev drafted : Goal
drafted = record {
  request = Request.new "ship it" [];
  success_criteria = "tests pass" ∷ [];
  constraints = [];
  non_goals = [];
  state = GoalState.draft;
  max_continuations = 2;
  continuations = 0;
  paused_from = none;
  blocked_from = none;
}

abbrev begun : List GoalCommand
begun = start_planning ∷ mark_ready ∷ activate ∷ []

-- active, with one continuation left
abbrev active_goal : Goal
active_goal = record drafted { state = GoalState.active; continuations = 1 }

new-drafted : new "ship it" ("tests pass" ∷ []) [] [] 2 ≡ ok drafted
unfolding new validate_objective validate_items
new-drafted = refl

goal_run-IsSound_example : IsSound (run drafted begun)
goal_run-IsSound_example =
    goal_run-IsSound "ship it" ("tests pass" ∷ []) [] [] 2 begun drafted new-drafted

active_goal_readable : try_from active_goal ≡ ok active_goal
unfolding try_from validate_objective validate_items Request.new
active_goal_readable = refl

try_from-apply_example :
    (try_from (apply active_goal continue).0 ≡ ok (apply active_goal continue).0)
    ↔ ¬ PassesLimit active_goal continue
try_from-apply_example = try_from-apply active_goal continue active_goal_readable

passed_limit_unreadable_example :
    let g₁ = (apply active_goal continue).0 in
    let g₂ = (apply g₁ resume_blocked).0 in
    (is_ok (apply active_goal continue).1 ≡ true)
    × (is_ok (apply g₁ resume_blocked).1 ≡ true)
    × (is_ok (apply g₂ continue).1 ≡ true)
    × (try_from (apply g₂ continue).0 ≡ err invalid_field)
passed_limit_unreadable_example =
    passed_limit_unreadable active_goal active_goal_readable refl (omega arith) (omega arith)
