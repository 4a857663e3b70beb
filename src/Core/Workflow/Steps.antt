-- ===== src/Core/Workflow/Steps.antt =====
-- Single commands of the workflow state machine: refusals, terminal states, suspensions, events
-- (crates/workflow-core/src/workflow.rs).
use opencode_cycle_plugin.Prelude.{
  ℕ, ◌+◌, ◌<◌, ◌≤◌, ◌≡◌, refl, true, Option, none, some, List, [], ◌∷◌, arith, ok, err, ◌==◌,
  if◌then◌else◌, u8_max,
}
use opencode_cycle_plugin.Core.Workflow.{
  WorkflowState, WorkflowCommand, WorkflowEvent, TransitionError, Workflow, is_terminal, can_pause,
  can_block_infrastructure, new, apply, run, complete_intake, pause, resume, block_infrastructure,
  resume_infrastructure, state_changed, candidate_selected, repair_cycle_consumed,
  repair_budget_extended, infrastructure_retry_accepted, invalid_transition,
}
use opencode_cycle_plugin.Core.Workflow.Invariant.{IsSound, new-IsSound, apply-IsSound}

pub run_from-IsSound : (w : Workflow) (cs : List WorkflowCommand) → IsSound w → IsSound (run w cs)
unfolding run
run_from-IsSound w [] h = h
run_from-IsSound w (c ∷ cs) h = run_from-IsSound (apply w c).0 cs (apply-IsSound w c h)

-- Whatever commands a new workflow with a budget between 1 and 255 is given, accepted or refused,
-- the workflow that results is sound.
pub run-IsSound :
    (n : ℕ) (cs : List WorkflowCommand) → 0 < n → n ≤ u8_max → IsSound (run (new n) cs)
run-IsSound n cs h k = run_from-IsSound (new n) cs (new-IsSound n h k)

-- A refused command leaves the workflow as it was, every field of it.
pub apply-err_unchanged :
    (w : Workflow) (c : WorkflowCommand) (e : TransitionError)
    → (apply w c).1 ≡ err e
    → (apply w c).0 ≡ w
unfolding apply
apply-err_unchanged w complete_intake e h = ground arith
apply-err_unchanged w _ e h = ground arith

apply_terminal :
    (w : Workflow) (c : WorkflowCommand)
    → is_terminal w.state ≡ true
    → apply w c ≡ (w, err invalid_transition)
unfolding apply
apply_terminal w complete_intake h = ground arith
apply_terminal w _ h = ground arith

-- A completed or cancelled workflow refuses every command and never changes again.
pub run_terminal :
    (w : Workflow) (cs : List WorkflowCommand) → is_terminal w.state ≡ true → run w cs ≡ w
unfolding run
run_terminal w [] h = refl
run_terminal w (c ∷ cs) h = let e = apply_terminal w c h in simp (e, run_terminal w cs h)

-- From a sound workflow in a state that can be paused, Pause and then Resume restore every field;
-- from one that can be blocked, so do BlockInfrastructure and then ResumeInfrastructure.
pub suspend-resume :
    (w : Workflow)
    → IsSound w
    → (can_pause w.state ≡ true → run w (pause ∷ resume ∷ []) ≡ w)
      × (can_block_infrastructure w.state ≡ true
          → run w (block_infrastructure ∷ resume_infrastructure ∷ []) ≡ w)
unfolding run apply
suspend-resume w h = (λ p. ground arith, λ p. ground arith)

abbrev index : WorkflowState → ℕ
index WorkflowState.intake = 0
index WorkflowState.routing = 1
index WorkflowState.quick_execution = 2
index WorkflowState.architecture = 3
index WorkflowState.execution = 4
index WorkflowState.verification = 5
index WorkflowState.independent_reviews = 6
index WorkflowState.arbitration = 7
index WorkflowState.delivery = 8
index WorkflowState.repair = 9
index WorkflowState.paused = 10
index WorkflowState.blocked = 11
index WorkflowState.completed = 12
index WorkflowState.cancelled = 13

-- What the events tell: the state and the two counters of the repair budget.
pub record Progress : Type 0 where
  pub state : WorkflowState
  pub cycles : ℕ
  pub maximum : ℕ

abbrev pub progress : Workflow → Progress
progress w = record { state = w.state; cycles = w.repair_cycles; maximum = w.max_repair_cycles }

-- A reader of the event log; `none` when an event does not continue what was read so far.
abbrev pub observe : Progress → WorkflowEvent → Option Progress
observe p (state_changed from to) =
    if index from == index p.state then some (record p { state = to }) else none
observe p (candidate_selected c) = some p
observe p (repair_cycle_consumed cycle maximum) =
    if cycle == p.cycles + 1
    then (if maximum == p.maximum then some (record p { cycles = cycle }) else none)
    else none
observe p (repair_budget_extended previous current) =
    if previous == p.maximum then some (record p { maximum = current }) else none
observe p infrastructure_retry_accepted = some p

abbrev pub observe_all : Progress → List WorkflowEvent → Option Progress
observe_all p [] = some p
observe_all p (e ∷ es) = elim (observe p e) [ none ↦ none | some q ↦ observe_all q es ]

-- The events of an accepted command, read after what was known of the workflow before it, are
-- consistent with it and yield exactly its state and repair counters after the command.
pub observe_all-apply :
    (w : Workflow) (c : WorkflowCommand) (es : List WorkflowEvent)
    → (apply w c).1 ≡ ok es
    → observe_all (progress w) es ≡ some (progress (apply w c).0)
unfolding apply
observe_all-apply w complete_intake es h = ground arith
observe_all-apply w _ es h = ground arith
