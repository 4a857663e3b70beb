-- ===== src/Core/Workflow/Budget.antt =====
-- The repair budget over a whole run (crates/workflow-core/src/workflow.rs).
use opencode_cycle_plugin.Prelude.{
  ℕ, suc, ◌+◌, ◌<◌, ◌≤◌, ◌≡◌, List, [], ◌∷◌, arith, Result, ok, err, u8_max,
}
use opencode_cycle_plugin.Core.Workflow.{
  WorkflowCommand, WorkflowEvent, TransitionError, Workflow, new, apply, run, complete_intake,
  repair_cycle_consumed, resume_blocked,
}
use opencode_cycle_plugin.Core.Workflow.Steps.{run-IsSound}

abbrev pub consumed : List WorkflowEvent → ℕ
consumed [] = 0
consumed (repair_cycle_consumed _ _ ∷ es) = suc (consumed es)
consumed (_ ∷ es) = consumed es

-- the events that an application adds to the log
abbrev pub emitted : Result (List WorkflowEvent) TransitionError → List WorkflowEvent
emitted (ok es) = es
emitted (err _) = []

-- how many repair cycles the events of a run report
pub cycles_in : Workflow → List WorkflowCommand → ℕ
cycles_in w [] = 0
cycles_in w (c ∷ cs) = consumed (emitted (apply w c).1) + cycles_in (apply w c).0 cs

-- what the user granted with ResumeBlocked
abbrev pub granted : List WorkflowCommand → ℕ
granted [] = 0
granted (resume_blocked k ∷ cs) = k + granted cs
granted (_ ∷ cs) = granted cs

cycles_step :
    (w : Workflow) (c : WorkflowCommand)
    → (apply w c).0.repair_cycles ≡ w.repair_cycles + consumed (emitted (apply w c).1)
unfolding apply
cycles_step w complete_intake = ground arith
cycles_step w _ = ground arith

maximum_step :
    (w : Workflow) (c : WorkflowCommand)
    → (apply w c).0.max_repair_cycles ≤ w.max_repair_cycles + granted (c ∷ [])
unfolding apply
maximum_step w complete_intake = ground arith
maximum_step w _ = ground arith

granted_cons :
    (c : WorkflowCommand) (cs : List WorkflowCommand)
    → granted (c ∷ cs) ≡ granted (c ∷ []) + granted cs
granted_cons complete_intake cs = omega arith
granted_cons _ cs = omega arith

cycles_run :
    (w : Workflow) (cs : List WorkflowCommand)
    → (run w cs).repair_cycles ≡ w.repair_cycles + cycles_in w cs
unfolding run cycles_in
cycles_run w [] = omega arith
cycles_run w (c ∷ cs) = omega (arith, cycles_step w c, cycles_run (apply w c).0 cs)

maximum_run :
    (w : Workflow) (cs : List WorkflowCommand)
    → (run w cs).max_repair_cycles ≤ w.max_repair_cycles + granted cs
unfolding run
maximum_run w [] = omega arith
maximum_run w (c ∷ cs) =
    omega (arith, maximum_step w c, granted_cons c cs, maximum_run (apply w c).0 cs)

-- Over any run of a new workflow with a budget between 1 and 255 the repair cycles that its events
-- report are exactly those that it counts, they are at most the first budget and what ResumeBlocked
-- commands offered, and never more than 255.
pub cycles_bounded :
    (n : ℕ) (cs : List WorkflowCommand)
    → 0 < n
    → n ≤ u8_max
    → (cycles_in (new n) cs ≡ (run (new n) cs).repair_cycles)
      × (cycles_in (new n) cs ≤ n + granted cs)
      × (cycles_in (new n) cs ≤ u8_max)
unfolding new
cycles_bounded n cs h k =
    omega (arith, cycles_run (new n) cs, maximum_run (new n) cs, run-IsSound n cs h k)
