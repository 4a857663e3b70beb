-- ===== src/Core/Goal/Reload.antt =====
-- Whether a stored goal can be read again (crates/workflow-core/src/goal.rs): the store writes the
-- fields of a goal, and reading them runs `try_from`.
use opencode_cycle_plugin.Prelude.{◌+◌, ◌<◌, ◌≤◌, ◌≡◌, ◌↔◌, true, arith, ok, err, u8_max, is_ok}
use opencode_cycle_plugin.Core.Goal.{
  GoalState, GoalCommand, Goal, apply, try_from, validate_objective, validate_items, start_planning,
  continue, resume_blocked, invalid_field,
}

-- the command that passes the limit: Continue of an active goal that has reached it
abbrev pub PassesLimit : Goal → GoalCommand → Type 0
PassesLimit g c =
    (c ≡ continue)
    × (g.state ≡ GoalState.active)
    × (g.continuations ≡ g.max_continuations)
    × (g.continuations < u8_max)

abbrev HasTexts : Goal → Type 0
HasTexts g =
    (validate_objective g.request.original_text ≡ ok tt)
    × (validate_items g.success_criteria ≡ ok tt)
    × (validate_items g.constraints ≡ ok tt)
    × (validate_items g.non_goals ≡ ok tt)

abbrev HasCounters : Goal → Type 0
HasCounters g = (0 < g.max_continuations) × (g.continuations ≤ g.max_continuations)

try_from_iff : (g : Goal) → (try_from g ≡ ok g) ↔ (HasTexts g × HasCounters g)
unfolding try_from
try_from_iff g = ground arith

try_from_passed :
    (g : Goal) → HasTexts g → g.max_continuations < g.continuations → try_from g ≡ err invalid_field
unfolding try_from
try_from_passed g h k = ground arith

-- what a command does to the parts that are validated
apply_keeps :
    (g : Goal) (c : GoalCommand)
    → ((apply g c).0.request ≡ g.request)
      × ((apply g c).0.success_criteria ≡ g.success_criteria)
      × ((apply g c).0.constraints ≡ g.constraints)
      × ((apply g c).0.non_goals ≡ g.non_goals)
      × ((apply g c).0.max_continuations ≡ g.max_continuations)
unfolding apply
apply_keeps g start_planning = ground arith
apply_keeps g _ = ground arith

counters_step :
    (g : Goal) (c : GoalCommand)
    → HasCounters g
    → (((apply g c).0.continuations ≤ g.max_continuations) ↔ ¬ PassesLimit g c)
unfolding apply
counters_step g start_planning h = ground arith
counters_step g _ h = ground arith

-- A goal that can be read again can be read again after a command, accepted or refused, exactly
-- unless the command is a Continue of an active goal whose continuations have reached their limit
-- below 255.
pub try_from-apply :
    (g : Goal) (c : GoalCommand)
    → try_from g ≡ ok g
    → (try_from (apply g c).0 ≡ ok (apply g c).0) ↔ ¬ PassesLimit g c
try_from-apply g c h =
    ground (arith, try_from_iff g, try_from_iff (apply g c).0, apply_keeps g c, counters_step g c)

-- An active goal one short of a limit below 255 that continues, is resumed from the block that
-- the limit sets, and continues once more: each command is accepted, and the goal that results is
-- refused when it is read again.
pub passed_limit_unreadable :
    (g : Goal)
    → try_from g ≡ ok g
    → g.state ≡ GoalState.active
    → g.continuations + 1 ≡ g.max_continuations
    → g.max_continuations < u8_max
    → let g₁ = (apply g continue).0 in
      let g₂ = (apply g₁ resume_blocked).0 in
      (is_ok (apply g continue).1 ≡ true)
      × (is_ok (apply g₁ resume_blocked).1 ≡ true)
      × (is_ok (apply g₂ continue).1 ≡ true)
      × (try_from (apply g₂ continue).0 ≡ err invalid_field)
unfolding apply
passed_limit_unreadable g h s e m =
    let (texts, counters) = (try_from_iff g).0 h in
    let last = (apply (apply (apply g continue).0 resume_blocked).0 continue).0 in
    ground (arith, try_from_passed last)
