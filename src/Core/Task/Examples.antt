-- ===== src/Core/Task/Examples.antt =====
-- The theorems on tasks at concrete runs.
use opencode_cycle_plugin.Prelude.{◌≡◌, true, List, [], ◌∷◌}
use opencode_cycle_plugin.Core.Task.{
  TaskCommand, apply, run, new, dependencies_satisfied, lease, start, submit_candidate,
  verification_failed, verification_passed,
}
use opencode_cycle_plugin.Core.Task.Traces.{since_start, run-AttemptLog}

-- a first attempt that is retried, and a second one that completes
abbrev retried : List TaskCommand
retried =
    dependencies_satisfied
    ∷ lease
    ∷ start
    ∷ submit_candidate
    ∷ verification_failed true
    ∷ lease
    ∷ start
    ∷ start
    ∷ submit_candidate
    ∷ verification_passed true
    ∷ []

run-AttemptLog_example :
    since_start new [] retried ≡ start ∷ submit_candidate ∷ verification_passed true ∷ []
unfolding run apply new
run-AttemptLog_example = run-AttemptLog retried
