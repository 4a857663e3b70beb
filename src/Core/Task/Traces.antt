-- ===== src/Core/Task/Traces.antt =====
-- Tasks over whole runs (crates/workflow-core/src/task.rs).
use opencode_cycle_plugin.Prelude.{
  ℕ, ◌+◌, ◌≤◌, ◌≡◌, refl, true, false, List, [], ◌∷◌, ◌++◌, arith, err, is_ok, if◌then◌else◌,
  u32_max, min, saturating_add,
}
use opencode_cycle_plugin.Core.Workflow.{invalid_transition}
use opencode_cycle_plugin.Core.Task.{
  TaskState, TaskCommand, Task, apply, run, new, is_terminal, dependencies_satisfied, start,
  submit_candidate, verification_passed, verification_failed,
}

-- A refused command leaves the task as it was; a completed, failed or cancelled task refuses every
-- command.
pub apply_refusals :
    (t : Task) (c : TaskCommand)
    → (is_ok (apply t c).1 ≡ false → (apply t c).0 ≡ t)
      × (is_terminal t.state ≡ true → apply t c ≡ (t, err invalid_transition))
unfolding apply
apply_refusals t dependencies_satisfied = ground arith
apply_refusals t _ = ground arith

-- The commands accepted since the last accepted Start, that one included.
abbrev pub extend : List TaskCommand → TaskCommand → List TaskCommand
extend log start = start ∷ []
extend log c = log ++ c ∷ []

pub since_start : Task → List TaskCommand → List TaskCommand → List TaskCommand
since_start t log [] = log
since_start t log (c ∷ cs) =
    since_start (apply t c).0 (if is_ok (apply t c).1 then extend log c else log) cs

-- what the log holds at the states of an attempt
abbrev pub AttemptLog : TaskState → List TaskCommand → Type 0
AttemptLog TaskState.running log = log ≡ start ∷ []
AttemptLog TaskState.verifying log = log ≡ start ∷ submit_candidate ∷ []
AttemptLog TaskState.completed log = log ≡ start ∷ submit_candidate ∷ verification_passed true ∷ []
AttemptLog TaskState.failed log = log ≡ start ∷ submit_candidate ∷ verification_failed false ∷ []
AttemptLog _ log = Unit

attempt_step :
    (t : Task) (c : TaskCommand) (log : List TaskCommand)
    → AttemptLog t.state log
    → AttemptLog (apply t c).0.state (if is_ok (apply t c).1 then extend log c else log)
unfolding apply
attempt_step t dependencies_satisfied log h = ground arith
attempt_step t _ log h = ground arith

attempt_run :
    (t : Task) (log cs : List TaskCommand)
    → AttemptLog t.state log
    → AttemptLog (run t cs).state (since_start t log cs)
unfolding run since_start
attempt_run t log [] h = h
attempt_run t log (c ∷ cs) h =
    attempt_run (apply t c).0 (if is_ok (apply t c).1 then extend log c else log) cs
      (attempt_step t c log h)

-- For any commands sent to a new task: while it runs or is verified, and when it has completed or
-- failed, the commands accepted since its last Start are exactly those of one attempt. A completed
-- task was started, submitted and verified with the mandatory gates passed, and a failed task was
-- started, submitted and refused without a retry, with nothing accepted in between.
pub run-AttemptLog : (cs : List TaskCommand) → AttemptLog (run new cs).state (since_start new [] cs)
run-AttemptLog cs = attempt_run new [] cs (unfold new in tt)

-- how many Start commands were accepted
pub starts : Task → List TaskCommand → ℕ
starts t [] = 0
starts t (start ∷ cs) = (if is_ok (apply t start).1 then 1 else 0) + starts (apply t start).0 cs
starts t (c ∷ cs) = starts (apply t c).0 cs

abbrev started : Task → TaskCommand → ℕ
started t start = if is_ok (apply t start).1 then 1 else 0
started t c = 0

attempts_step :
    (t : Task) (c : TaskCommand)
    → t.attempts ≤ u32_max
    → (apply t c).0.attempts ≡ saturating_add u32_max t.attempts (started t c)
unfolding apply
attempts_step t dependencies_satisfied h = ground arith
attempts_step t _ h = ground arith

starts_cons :
    (t : Task) (c : TaskCommand) (cs : List TaskCommand)
    → starts t (c ∷ cs) ≡ started t c + starts (apply t c).0 cs
unfolding starts
starts_cons t start cs = refl
starts_cons t _ cs = omega arith

attempts_run :
    (t : Task) (cs : List TaskCommand)
    → t.attempts ≤ u32_max
    → (run t cs).attempts ≡ saturating_add u32_max t.attempts (starts t cs)
unfolding run
attempts_run t [] h = unfold starts in ground arith
attempts_run t (c ∷ cs) h =
    ground (arith, attempts_step t c h, starts_cons t c cs, attempts_run (apply t c).0 cs)

-- The attempt counter of a task is the number of accepted Start commands, capped at 2 ^ 32 - 1.
pub attempts_counted : (cs : List TaskCommand) → (run new cs).attempts ≡ min (starts new cs) u32_max
unfolding new
attempts_counted cs = ground (arith, attempts_run new cs)
