-- ===== src/Core/Workflow.antt =====
-- The workflow state machine, crates/workflow-core/src/workflow.rs. A `&mut self` method returns
-- the workflow that it leaves behind beside its `Result`.
pub mod Invariant
pub mod Steps
pub mod Gates
pub mod Budget
pub mod Completion
mod Examples
use opencode_cycle_plugin.Prelude.{
  ℕ, Bool, true, false, Option, none, some, List, [], ◌∷◌, ◌++◌, Result, ok, err, leb, ◌==◌,
  if◌then◌else◌, checked_add, u8_max,
}

-- UUIDs are compared and ordered only: a number stands for one.
abbrev pub CandidateId : Type 0
CandidateId = ℕ

pub data WorkflowMode : Type 0 where
  quick full : WorkflowMode

pub data RepairTarget : Type 0 where
  execution architecture : RepairTarget

pub data WorkflowState : Type 0 where
  intake routing quick_execution architecture execution verification : WorkflowState
  independent_reviews arbitration delivery repair paused blocked completed cancelled : WorkflowState

abbrev pub is_terminal : WorkflowState → Bool
is_terminal WorkflowState.completed = true
is_terminal WorkflowState.cancelled = true
is_terminal _ = false

pub data WorkflowCommand : Type 0 where
  complete_intake architecture_accepted verification_passed verification_failed : WorkflowCommand
  reviews_ready deliver begin_repair pause resume cancel retry_infrastructure : WorkflowCommand
  block_infrastructure resume_infrastructure replan_execution : WorkflowCommand
  route : WorkflowMode → WorkflowCommand
  candidate_ready : CandidateId → WorkflowCommand
  verification_rejected reject : RepairTarget → WorkflowCommand
  approve : Bool → WorkflowCommand
  resume_blocked : ℕ → WorkflowCommand

pub data WorkflowEvent : Type 0 where
  state_changed : WorkflowState → WorkflowState → WorkflowEvent
  candidate_selected : CandidateId → WorkflowEvent
  repair_cycle_consumed repair_budget_extended : ℕ → ℕ → WorkflowEvent
  infrastructure_retry_accepted : WorkflowEvent

pub data TransitionError : Type 0 where
  invalid_transition mandatory_gate_failed missing_candidate : TransitionError
  missing_repair_target invalid_additional_cycles repair_budget_overflow : TransitionError

pub record Workflow : Type 0 where
  pub state : WorkflowState
  pub mode : Option WorkflowMode
  pub current_candidate : Option CandidateId
  pub repair_target : Option RepairTarget
  pub repair_cycles : ℕ  -- u8
  pub max_repair_cycles : ℕ  -- u8
  pub paused_from : Option WorkflowState
  pub infrastructure_blocked_from : Option WorkflowState

abbrev pub Applied : Type 0
Applied = Workflow × Result (List WorkflowEvent) TransitionError

-- `max_repair_cycles` is a `NonZeroU8`
unfoldable pub new : ℕ → Workflow
new max_repair_cycles = record {
  state = WorkflowState.intake;
  mode = none;
  current_candidate = none;
  repair_target = none;
  repair_cycles = 0;
  max_repair_cycles = max_repair_cycles;
  paused_from = none;
  infrastructure_blocked_from = none;
}

-- `self.transition(to)`, wrapped in `Ok`, behind the events `before`
abbrev pub transition_after : List WorkflowEvent → Workflow → WorkflowState → Applied
transition_after before w to =
    (record w { state = to }, ok (before ++ state_changed w.state to ∷ []))

abbrev pub transition : Workflow → WorkflowState → Applied
transition = transition_after []

abbrev pub fail : Workflow → TransitionError → Applied
fail w e = (w, err e)

-- `self.require_candidate()?` before the rest
abbrev pub require_candidate : Workflow → Applied → Applied
require_candidate w rest = elim w.current_candidate [
  | none ↦ fail w missing_candidate
  | some _ ↦ rest
]

unfoldable pub reject_with : Workflow → RepairTarget → Applied
reject_with w target = elim (checked_add u8_max w.repair_cycles 1) [
  | none ↦ fail w repair_budget_overflow
  | some next_cycle ↦
      transition_after (repair_cycle_consumed next_cycle w.max_repair_cycles ∷ [])
        (record w { repair_cycles = next_cycle; repair_target = some target })
        (if leb w.max_repair_cycles next_cycle then WorkflowState.blocked else WorkflowState.repair)
]

abbrev pub can_pause : WorkflowState → Bool
can_pause WorkflowState.paused = false
can_pause WorkflowState.blocked = false
can_pause WorkflowState.verification = false
can_pause WorkflowState.delivery = false
can_pause WorkflowState.completed = false
can_pause WorkflowState.cancelled = false
can_pause _ = true

-- `can_retry_infrastructure` and `can_block_infrastructure` list the same states
abbrev pub can_retry_infrastructure : WorkflowState → Bool
can_retry_infrastructure WorkflowState.paused = false
can_retry_infrastructure WorkflowState.blocked = false
can_retry_infrastructure WorkflowState.completed = false
can_retry_infrastructure WorkflowState.cancelled = false
can_retry_infrastructure _ = true

abbrev pub can_block_infrastructure : WorkflowState → Bool
can_block_infrastructure WorkflowState.paused = false
can_block_infrastructure WorkflowState.blocked = false
can_block_infrastructure WorkflowState.completed = false
can_block_infrastructure WorkflowState.cancelled = false
can_block_infrastructure _ = true

abbrev entry_state : WorkflowMode → WorkflowState
entry_state quick = WorkflowState.quick_execution
entry_state full = WorkflowState.architecture

abbrev repair_state : RepairTarget → WorkflowState
repair_state RepairTarget.execution = WorkflowState.execution
repair_state RepairTarget.architecture = WorkflowState.architecture

select_candidate : Workflow → CandidateId → Applied
select_candidate w candidate_id =
    transition_after (candidate_selected candidate_id ∷ [])
      (record w { current_candidate = some candidate_id }) WorkflowState.verification

pass_verification : Workflow → Applied
pass_verification w = require_candidate w (elim w.mode [
  | none ↦ fail w invalid_transition
  | some m ↦
      transition w
        (elim m [ quick ↦ WorkflowState.arbitration | full ↦ WorkflowState.independent_reviews ])
])

start_repair : Workflow → Applied
start_repair w = elim w.repair_target [
  | none ↦ fail w missing_repair_target
  | some target ↦
      transition (record w { repair_target = none; current_candidate = none }) (repair_state target)
]

resume_from : Workflow → Applied
resume_from w = elim w.paused_from [
  | none ↦ fail w invalid_transition
  | some previous ↦ transition (record w { paused_from = none }) previous
]

-- the two arms for `Blocked` with an infrastructure mark and without one
extend_budget : Workflow → ℕ → Applied
extend_budget w additional_cycles = elim w.infrastructure_blocked_from [
  | some _ ↦ fail w invalid_transition
  | none ↦
      if additional_cycles == 0
      then fail w invalid_additional_cycles
      else elim (checked_add u8_max w.max_repair_cycles additional_cycles) [
        | none ↦ fail w repair_budget_overflow
        | some current ↦
            transition_after (repair_budget_extended w.max_repair_cycles current ∷ [])
              (record w { max_repair_cycles = current }) WorkflowState.repair
      ]
]

leave_infrastructure : Workflow → Applied
leave_infrastructure w = elim w.infrastructure_blocked_from [
  | none ↦ fail w invalid_transition
  | some previous ↦ transition (record w { infrastructure_blocked_from = none }) previous
]

-- the `match` of `apply`; a guard on the state is a pattern, the last clause is the `_` arm
apply_at : WorkflowCommand → WorkflowState → Workflow → Applied
unfolding select_candidate pass_verification reject_with start_repair resume_from extend_budget
    leave_infrastructure
apply_at complete_intake WorkflowState.intake w = transition w WorkflowState.routing
apply_at (route m) WorkflowState.routing w = transition (record w { mode = some m }) (entry_state m)
apply_at architecture_accepted WorkflowState.architecture w = transition w WorkflowState.execution
apply_at (candidate_ready c) WorkflowState.quick_execution w = select_candidate w c
apply_at (candidate_ready c) WorkflowState.execution w = select_candidate w c
apply_at verification_passed WorkflowState.verification w = pass_verification w
apply_at verification_failed WorkflowState.verification w =
    require_candidate w (reject_with w RepairTarget.execution)
apply_at (verification_rejected t) WorkflowState.verification w =
    require_candidate w (reject_with w t)
apply_at reviews_ready WorkflowState.independent_reviews w = transition w WorkflowState.arbitration
apply_at (approve gates) WorkflowState.arbitration w =
    require_candidate w
      (if gates then transition w WorkflowState.delivery else fail w mandatory_gate_failed)
apply_at deliver WorkflowState.delivery w =
    require_candidate w (transition w WorkflowState.completed)
apply_at (reject t) WorkflowState.arbitration w = require_candidate w (reject_with w t)
apply_at begin_repair WorkflowState.repair w = start_repair w
apply_at pause s w =
    if can_pause s
    then transition (record w { paused_from = some s }) WorkflowState.paused
    else fail w invalid_transition
apply_at resume WorkflowState.paused w = resume_from w
apply_at cancel s w =
    if is_terminal s
    then fail w invalid_transition
    else transition (record w { paused_from = none }) WorkflowState.cancelled
apply_at retry_infrastructure s w =
    if can_retry_infrastructure s
    then (w, ok (infrastructure_retry_accepted ∷ []))
    else fail w invalid_transition
apply_at (resume_blocked n) WorkflowState.blocked w = extend_budget w n
apply_at block_infrastructure s w =
    if can_block_infrastructure s
    then transition (record w { infrastructure_blocked_from = some s }) WorkflowState.blocked
    else fail w invalid_transition
apply_at resume_infrastructure WorkflowState.blocked w = leave_infrastructure w
apply_at replan_execution WorkflowState.execution w = transition w WorkflowState.architecture
apply_at _ _ w = fail w invalid_transition

unfoldable pub apply : Workflow → WorkflowCommand → Applied
unfolding apply_at
apply w command = apply_at command w.state w

-- a caller that goes on after a refused command
unfoldable pub run : Workflow → List WorkflowCommand → Workflow
run w [] = w
run w (c ∷ cs) = run (apply w c).0 cs
