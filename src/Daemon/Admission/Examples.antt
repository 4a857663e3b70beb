-- ===== src/Daemon/Admission/Examples.antt =====
-- Two workflows of two projects, one lease; a CPU load is a number of percent.
use opencode_cycle_plugin.Prelude.{
  ℕ, ◌≡◌, ◌⊎◌, refl, Bool, true, false, [], ◌∷◌, some, none, ltb, arith, All, saturating_add,
  u64_max,
}
use opencode_cycle_plugin.Prelude.Map
use opencode_cycle_plugin.Daemon.Policy.{ResourceSample, evaluate, evaluate_sampled, begin_tick}
use opencode_cycle_plugin.Daemon.Policy
use opencode_cycle_plugin.Daemon.Queues.{
  RuntimeAdmission, reap, enqueue, remove_all, dequeue_front, repair_queue_invariants, retain, keep,
  clean_queues, queued_from, queue_entries, retain_rotation, missing_projects,
}
use opencode_cycle_plugin.Daemon.Queues.Waiting.{AreWaiting, reap-AreWaiting}
use opencode_cycle_plugin.Daemon.Admission.{
  new, execute, execute_reaped, acquire, concurrency_limit,
}
use opencode_cycle_plugin.Daemon.Admission.Turn.{HasTurn, IsLeased, execute-HasTurn}
use opencode_cycle_plugin.Daemon.Admission.Limit.{started, executed, IsBounded, Reached-IsBounded}

abbrev idle : ResourceSample ℕ
idle = record {
  available_disk_bytes = some 107374182400;
  available_memory_bytes = some 17179869184;
  cpu_usage_percent = some 10;
  owned_processes = none;
}

abbrev exceeds : ℕ → ℕ → Bool
exceeds a b = ltb b a

abbrev start : RuntimeAdmission ℕ
start = new 85 1

abbrev first : RuntimeAdmission ℕ
first = (execute false exceeds start acquire 1 10 idle 1000).0

abbrev second : RuntimeAdmission ℕ
second = (execute false exceeds first acquire 2 20 idle 1100).0

first_admitted : (execute false exceeds start acquire 1 10 idle 1000).1.admitted ≡ true
unfolding new execute execute_reaped reap repair_queue_invariants remove_all retain clean_queues
    queued_from retain_rotation missing_projects enqueue dequeue_front evaluate evaluate_sampled
    begin_tick Policy.new Map.get Map.insert Map.remove
first_admitted = refl

-- the release build leaves the admitted workflow in its queue
first_queue : first.projects ≡ (1, 10 ∷ []) ∷ []
unfolding new execute execute_reaped reap repair_queue_invariants remove_all retain clean_queues
    queued_from retain_rotation missing_projects enqueue dequeue_front evaluate evaluate_sampled
    begin_tick Policy.new Map.get Map.insert Map.remove
first_queue = refl

second_waits :
    (execute false exceeds first acquire 2 20 idle 1100).1.reason ≡ some concurrency_limit
unfolding new execute execute_reaped reap repair_queue_invariants remove_all retain keep
    clean_queues queued_from queue_entries retain_rotation missing_projects enqueue dequeue_front
    evaluate evaluate_sampled begin_tick Policy.new Map.get Map.insert Map.remove
second_waits = refl

execute-HasTurn_example :
    ((Map.contains_key 10 (reap start 1000).active ≡ true)
      ⊎ HasTurn exceeds (reap start 1000) 1 10 idle)
    × IsLeased 10
        (saturating_add u64_max 1000 15000)
        (execute false exceeds start acquire 1 10 idle 1000)
execute-HasTurn_example = execute-HasTurn false exceeds start acquire 1 10 idle 1000 first_admitted

reap-AreWaiting_example :
    All
      (AreWaiting (reap first 1100).waiting (reap first 1100).workflow_projects)
      (reap first 1100).projects
reap-AreWaiting_example = reap-AreWaiting first 1100

-- the next call removes what the release build left
second_queue : second.projects ≡ (2, 20 ∷ []) ∷ []
unfolding new execute execute_reaped reap repair_queue_invariants remove_all retain keep
    clean_queues queued_from queue_entries retain_rotation missing_projects enqueue dequeue_front
    evaluate evaluate_sampled begin_tick Policy.new Map.get Map.insert Map.remove
second_queue = refl

Reached-IsBounded_example : IsBounded 1 second
Reached-IsBounded_example =
    Reached-IsBounded false exceeds 85 1 (omega arith)
      (executed acquire 2 20 idle 1100 (executed acquire 1 10 idle 1000 started))
