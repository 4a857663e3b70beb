-- ===== src/Core/Task.antt =====
-- The task state machine, crates/workflow-core/src/task.rs.
pub mod Traces
mod Examples
use opencode_cycle_plugin.Prelude.{
  ℕ, Bool, true, false, List, [], ◌∷◌, ◌++◌, Result, ok, err, if◌then◌else◌, saturating_add,
  u32_max,
}
use opencode_cycle_plugin.Core.Workflow.{TransitionError, invalid_transition, mandatory_gate_failed}

pub data TaskState : Type 0 where
  pending ready leased running verifying completed failed blocked cancelled : TaskState

abbrev pub is_terminal : TaskState → Bool
is_terminal TaskState.completed = true
is_terminal TaskState.failed = true
is_terminal TaskState.cancelled = true
is_terminal _ = false

pub data TaskCommand : Type 0 where
  dependencies_satisfied lease start submit_candidate block unblock cancel : TaskCommand
  -- whether the mandatory gates passed; whether a retry is allowed
  verification_passed verification_failed : Bool → TaskCommand

pub data TaskEvent : Type 0 where
  state_changed : TaskState → TaskState → TaskEvent
  attempt_started : ℕ → TaskEvent

pub record Task : Type 0 where
  pub state : TaskState
  pub attempts : ℕ  -- u32

abbrev pub Applied : Type 0
Applied = Task × Result (List TaskEvent) TransitionError

unfoldable pub new : Task
new = record { state = TaskState.pending; attempts = 0 }

abbrev pub transition_after : List TaskEvent → Task → TaskState → Applied
transition_after before t to =
    (record t { state = to }, ok (before ++ state_changed t.state to ∷ []))

abbrev pub transition : Task → TaskState → Applied
transition = transition_after []

start_attempt : Task → Applied
start_attempt t =
    let attempt = saturating_add u32_max t.attempts 1 in
    transition_after (attempt_started attempt ∷ []) (record t { attempts = attempt })
      TaskState.running

abbrev pub can_block : TaskState → Bool
can_block TaskState.blocked = false
can_block s = if is_terminal s then false else true

-- the `match` of `apply`; a guard on the state is a pattern, the last clause is the `_` arm
apply_at : TaskCommand → TaskState → Task → Applied
unfolding start_attempt
apply_at dependencies_satisfied TaskState.pending t = transition t TaskState.ready
apply_at lease TaskState.ready t = transition t TaskState.leased
apply_at start TaskState.leased t = start_attempt t
apply_at submit_candidate TaskState.running t = transition t TaskState.verifying
apply_at (verification_passed gates) TaskState.verifying t =
    if gates then transition t TaskState.completed else (t, err mandatory_gate_failed)
apply_at (verification_failed retryable) TaskState.verifying t =
    transition t (if retryable then TaskState.ready else TaskState.failed)
apply_at block s t =
    if can_block s then transition t TaskState.blocked else (t, err invalid_transition)
apply_at unblock TaskState.blocked t = transition t TaskState.ready
apply_at cancel s t =
    if is_terminal s then (t, err invalid_transition) else transition t TaskState.cancelled
apply_at _ _ t = (t, err invalid_transition)

unfoldable pub apply : Task → TaskCommand → Applied
unfolding apply_at
apply t command = apply_at command t.state t

-- a caller that goes on after a refused command
unfoldable pub run : Task → List TaskCommand → Task
run t [] = t
run t (c ∷ cs) = run (apply t c).0 cs
