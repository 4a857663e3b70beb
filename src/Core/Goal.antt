-- ===== src/Core/Goal.antt =====
-- The goal state machine, crates/workflow-core/src/goal.rs, without the request's digests.
pub mod Steps
pub mod Reload
mod Examples
use opencode_cycle_plugin.Prelude.{
  ℕ, ◌+◌, ◌*◌, String, Bool, true, false, ◌||◌, Option, none, some, List, [], ◌∷◌, ◌++◌, Result, ok,
  err, ◌>>=◌, ◌>>◌, fail_if, leb, ltb, ◌==◌, if◌then◌else◌, length, any, checked_add, u8_max,
  byte_len, is_blank,
}
use opencode_cycle_plugin.Core.Request
use opencode_cycle_plugin.Core.Request.{RequestRecord, RequestError, WorkflowTimestamp}

abbrev pub max_items : ℕ
max_items = 256

abbrev pub max_objective_bytes : ℕ
max_objective_bytes = 8 * 1024 * 1024

abbrev pub max_text_bytes : ℕ
max_text_bytes = 4096

pub data GoalState : Type 0 where
  draft planning ready active paused blocked completing completed aborted : GoalState

abbrev pub is_terminal : GoalState → Bool
is_terminal GoalState.completed = true
is_terminal GoalState.aborted = true
is_terminal _ = false

pub data GoalCommand : Type 0 where
  start_planning mark_ready activate pause resume block resume_blocked continue : GoalCommand
  request_completion approve_completion reject_completion abort : GoalCommand

pub data GoalEvent : Type 0 where
  state_changed : GoalState → GoalState → GoalEvent
  continuation_recorded : ℕ → ℕ → GoalEvent
  continuation_limit_reached : ℕ → GoalEvent

-- `UncheckedGoal` has the same fields.
pub record Goal : Type 0 where
  pub request : RequestRecord
  pub success_criteria : List String
  pub constraints : List String
  pub non_goals : List String
  pub state : GoalState
  pub max_continuations : ℕ  -- u8
  pub continuations : ℕ  -- u8
  pub paused_from : Option GoalState
  pub blocked_from : Option GoalState

pub data GoalError : Type 0 where
  invalid_objective invalid_field invalid_transition : GoalError
  request_error : RequestError → GoalError

unfoldable pub validate_objective : String → Result (Unit {0}) GoalError
validate_objective value =
    if is_blank value || ltb max_objective_bytes (byte_len value)
    then err invalid_objective
    else ok tt

unfoldable pub validate_items : List String → Result (Unit {0}) GoalError
validate_items values =
    if ltb max_items (length values)
      || any (λ value. is_blank value || ltb max_text_bytes (byte_len value)) values
    then err invalid_field
    else ok tt

unfoldable pub try_from : Goal → Result Goal GoalError
try_from value = do
  validate_objective value.request.original_text
  validate_items value.success_criteria
  validate_items value.constraints
  validate_items value.non_goals
  fail_if (value.max_continuations == 0 || ltb value.max_continuations value.continuations)
      invalid_field
  ok value

-- `max_continuations` is a `NonZeroU8`
unfoldable pub new : String → List String → List String → List String → ℕ → Result Goal GoalError
new objective success_criteria constraints non_goals max_continuations = do
  validate_objective objective
  validate_items success_criteria
  validate_items constraints
  validate_items non_goals
  ok (record {
    request = Request.new objective [];
    success_criteria = success_criteria;
    constraints = constraints;
    non_goals = non_goals;
    state = GoalState.draft;
    max_continuations = max_continuations;
    continuations = 0;
    paused_from = none;
    blocked_from = none;
  })

abbrev pub map_request_error : Result (Unit {0}) RequestError → Result (Unit {0}) GoalError
map_request_error (ok u) = ok u
map_request_error (err e) = err (request_error e)

unfoldable pub append_amendment :
    Goal → String → WorkflowTimestamp → Goal × Result (Unit {0}) GoalError
append_amendment g text received_at =
    if is_terminal g.state || is_blank text || ltb max_objective_bytes (byte_len text)
    then (g, err invalid_transition)
    else (let (request, result) = Request.append_amendment g.request text received_at in
        (record g { request = request }, map_request_error result))

abbrev pub Applied : Type 0
Applied = Goal × Result (List GoalEvent) GoalError

abbrev pub transition_after : List GoalEvent → Goal → GoalState → Applied
transition_after before g to =
    (record g { state = to }, ok (before ++ state_changed g.state to ∷ []))

abbrev pub transition : Goal → GoalState → Applied
transition = transition_after []

abbrev pub fail : Goal → Applied
fail g = (g, err invalid_transition)

continue_goal : Goal → Applied
continue_goal g = elim (checked_add u8_max g.continuations 1) [
  | none ↦ fail g
  | some current ↦
      let recorded = continuation_recorded current g.max_continuations in
      if leb g.max_continuations current
      then transition_after (recorded ∷ continuation_limit_reached g.max_continuations ∷ [])
          (record g { continuations = current; blocked_from = some g.state }) GoalState.blocked
      else (record g { continuations = current }, ok (recorded ∷ []))
]

resume_from : Goal → Applied
resume_from g = elim g.paused_from [
  | none ↦ fail g
  | some previous ↦ transition (record g { paused_from = none }) previous
]

resume_from_block : Goal → Applied
resume_from_block g = elim g.blocked_from [
  | none ↦ fail g
  | some previous ↦ transition (record g { blocked_from = none }) previous
]

abbrev pub can_pause : GoalState → Bool
can_pause GoalState.planning = true
can_pause GoalState.ready = true
can_pause GoalState.active = true
can_pause _ = false

abbrev pub can_block : GoalState → Bool
can_block GoalState.planning = true
can_block GoalState.active = true
can_block GoalState.completing = true
can_block _ = false

-- the `match` of `apply`; a guard on the state is a pattern, the last clause is the `_` arm
apply_at : GoalCommand → GoalState → Goal → Applied
unfolding continue_goal resume_from resume_from_block
apply_at start_planning GoalState.draft g = transition g GoalState.planning
apply_at mark_ready GoalState.planning g = transition g GoalState.ready
apply_at activate GoalState.ready g = transition g GoalState.active
apply_at pause s g =
    if can_pause s then transition (record g { paused_from = some s }) GoalState.paused else fail g
apply_at resume GoalState.paused g = resume_from g
apply_at block s g =
    if can_block s
    then transition (record g { blocked_from = some s }) GoalState.blocked
    else fail g
apply_at resume_blocked GoalState.blocked g = resume_from_block g
apply_at continue GoalState.active g = continue_goal g
apply_at request_completion GoalState.active g = transition g GoalState.completing
apply_at approve_completion GoalState.completing g = transition g GoalState.completed
apply_at reject_completion GoalState.completing g = transition g GoalState.active
apply_at abort s g =
    if is_terminal s
    then fail g
    else transition (record g { paused_from = none; blocked_from = none }) GoalState.aborted
apply_at _ _ g = fail g

unfoldable pub apply : Goal → GoalCommand → Applied
unfolding apply_at
apply g command = apply_at command g.state g

-- a caller that goes on after a refused command
unfoldable pub run : Goal → List GoalCommand → Goal
run g [] = g
run g (c ∷ cs) = run (apply g c).0 cs
