-- ===== src/Core/Workflow/Examples.antt =====
-- The theorems on the workflow state machine at concrete runs.
use opencode_cycle_plugin.Prelude.{
  ℕ, ◌+◌, ◌≤◌, ◌≡◌, refl, true, false, some, List, [], ◌∷◌, arith, Occur, u8_max,
}
use opencode_cycle_plugin.Core.Workflow.{
  quick, full, WorkflowState, WorkflowCommand, Workflow, apply, run, new, complete_intake, route,
  architecture_accepted, candidate_ready, verification_passed, verification_failed, reviews_ready,
  approve, deliver, begin_repair, pause, resume, invalid_transition,
}
use opencode_cycle_plugin.Core.Workflow.Invariant.{IsSound}
use opencode_cycle_plugin.Core.Workflow.Steps.{run-IsSound, apply-err_unchanged}
use opencode_cycle_plugin.Core.Workflow.Gates.{completed_gated, delivery_gates, since_candidate}
use opencode_cycle_plugin.Core.Workflow.Budget.{cycles_bounded, cycles_in, granted}
use opencode_cycle_plugin.Core.Workflow.Completion.{completion_path, completion_path-completes}

-- a full run with one failed verification before the candidate that is delivered
abbrev repaired : List WorkflowCommand
repaired =
    complete_intake
    ∷ route full
    ∷ architecture_accepted
    ∷ candidate_ready 7
    ∷ verification_failed
    ∷ begin_repair
    ∷ candidate_ready 8
    ∷ verification_passed
    ∷ pause
    ∷ resume
    ∷ reviews_ready
    ∷ approve false
    ∷ approve true
    ∷ deliver
    ∷ []

-- the budget of one cycle is used up
abbrev exhausted : List WorkflowCommand
exhausted = complete_intake ∷ route quick ∷ candidate_ready 7 ∷ verification_failed ∷ []

repaired_completes : (run (new 5) repaired).state ≡ WorkflowState.completed
unfolding run apply new
repaired_completes = refl

run-IsSound_example : IsSound (run (new 5) repaired)
run-IsSound_example = run-IsSound 5 repaired (omega arith) (omega arith)

apply-err_unchanged_example : (apply (new 5) deliver).0 ≡ new 5
unfolding apply new
apply-err_unchanged_example = apply-err_unchanged (new 5) deliver invalid_transition refl

-- a workflow in the state Routing
abbrev routed : Workflow
routed = run (new 5) (complete_intake ∷ [])

completed_gated_example :
    (c : ℕ) × ((run (new 5) repaired).current_candidate ≡ some c)
    × Occur (delivery_gates (run (new 5) repaired).mode c) (since_candidate (new 5) [] repaired)
completed_gated_example = completed_gated 5 repaired (omega arith) (omega arith) repaired_completes

cycles_bounded_example :
    (cycles_in (new 5) repaired ≡ (run (new 5) repaired).repair_cycles)
    × (cycles_in (new 5) repaired ≤ 5 + granted repaired)
    × (cycles_in (new 5) repaired ≤ u8_max)
cycles_bounded_example = cycles_bounded 5 repaired (omega arith) (omega arith)

completion_path-completes_example :
    (run (run (new 1) exhausted) (completion_path (run (new 1) exhausted))).state
    ≡ WorkflowState.completed
unfolding run apply new
completion_path-completes_example =
    completion_path-completes (run (new 1) exhausted)
      (run-IsSound 1 exhausted (omega arith) (omega arith)) refl (λ _ _. omega arith)
