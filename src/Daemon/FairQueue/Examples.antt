-- ===== src/Daemon/FairQueue/Examples.antt =====
-- Two projects: the first has a paused task and one that is ready, the second a paused one.
use opencode_cycle_plugin.Prelude.{ℕ, ◌≡◌, refl, some, none, true, false, All}
use opencode_cycle_plugin.Prelude.Int.{pos}
use opencode_cycle_plugin.Prelude.Map
use opencode_cycle_plugin.Prelude.Set
use opencode_cycle_plugin.Daemon.FairQueue.{
  FairQueue, ScheduledTask, ready, paused, new, enqueue, set_workflow_state, set_projects,
  set_entries, pop, check_projects, select, remove_at, without,
}
use opencode_cycle_plugin.Daemon.FairQueue.Service.{IsServed, pop-IsServed, IsIdleAt, pop-none}

abbrev task : ℕ → ℕ → ℕ → ScheduledTask
task priority project id = record {
  priority = pos priority;
  project_id = project;
  task_id = id;
  workflow_id = project;
}

abbrev queue : FairQueue
queue =
    (enqueue (enqueue (enqueue new (task 9 1 10) paused).0 (task 5 1 11) ready).0 (task 5 2 20)
      paused).0

served : (pop queue).1 ≡ some (task 5 1 11)
unfolding new enqueue pop check_projects select remove_at without Map.get Map.insert Set.contains
    Set.insert
served = refl

twice : (enqueue queue (task 5 2 11) ready).1 ≡ false
unfolding new enqueue Map.get Map.insert Set.contains Set.insert
twice = refl

pop-IsServed_example : IsServed queue.projects (task 5 1 11)
pop-IsServed_example = pop-IsServed queue (task 5 1 11) served

abbrev stopped : FairQueue
stopped = set_workflow_state queue 1 paused

both_queued : All (λ p. Map.contains_key p stopped.projects ≡ true) stopped.rotation
unfolding new enqueue set_workflow_state set_projects set_entries Map.get Map.insert Set.contains
    Set.insert
both_queued = (refl, (refl, tt))

none_served : (pop stopped).1 ≡ none
unfolding new enqueue set_workflow_state set_projects set_entries pop check_projects select
    remove_at without Map.get Map.insert Set.contains Set.insert
none_served = refl

pop-none_example : All (IsIdleAt stopped.projects) stopped.rotation
pop-none_example = pop-none stopped both_queued none_served
