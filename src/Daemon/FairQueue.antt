-- ===== src/Daemon/FairQueue.antt =====
-- The fair queue of tasks, crates/workflowd/src/scheduler/queue.rs. A priority is an `i16`.
pub mod Selection
pub mod Service
mod Examples
use opencode_cycle_plugin.Prelude.{
  ℕ, zero, suc, ◌+◌, Bool, true, false, not, ◌&&◌, ◌||◌, Option, none, some, List, [], ◌∷◌, ◌++◌,
  leb, ltb, ◌==◌, if◌then◌else◌, length, is_empty, saturating_add, u64_max,
}
use opencode_cycle_plugin.Prelude.Int.{ℤ, ltb_ℤ}
use opencode_cycle_plugin.Prelude.Map
use opencode_cycle_plugin.Prelude.Map.{Map}
use opencode_cycle_plugin.Prelude.Set

pub data SchedulingState : Type 0 where
  ready paused blocked : SchedulingState

pub record ScheduledTask : Type 0 where
  pub priority : ℤ
  pub project_id : ℕ
  pub task_id : ℕ
  pub workflow_id : ℕ

pub record Entry : Type 0 where
  pub sequence : ℕ  -- u64
  pub state : SchedulingState
  pub task : ScheduledTask

pub record FairQueue : Type 0 where
  pub projects : Map (List Entry)
  pub rotation : List ℕ
  pub sequence : ℕ  -- u64
  pub tasks : List ℕ

unfoldable pub new : FairQueue
new = record { projects = []; rotation = []; sequence = 0; tasks = [] }

abbrev pub entries_of : ℕ → Map (List Entry) → List Entry
entries_of project projects = elim (Map.get project projects) [ none ↦ [] | some entries ↦ entries ]

abbrev add : FairQueue → ScheduledTask → SchedulingState → FairQueue
add q task state = record {
  projects =
      Map.insert task.project_id
        (entries_of task.project_id q.projects
          ++ record { sequence = q.sequence; state = state; task = task } ∷ [])
        q.projects;
  rotation =
      if Map.contains_key task.project_id q.projects
      then q.rotation
      else q.rotation ++ task.project_id ∷ [];
  sequence = saturating_add u64_max q.sequence 1;
  tasks = Set.insert task.task_id q.tasks;
}

unfoldable pub enqueue : FairQueue → ScheduledTask → SchedulingState → FairQueue × Bool
enqueue q task state =
    if Set.contains task.task_id q.tasks then (q, false) else (add q task state, true)

abbrev set_state : ℕ → SchedulingState → Entry → Entry
set_state workflow_id state e =
    if e.task.workflow_id == workflow_id then record e { state = state } else e

unfoldable pub set_entries : ℕ → SchedulingState → List Entry → List Entry
set_entries workflow_id state [] = []
set_entries workflow_id state (e ∷ es) =
    set_state workflow_id state e ∷ set_entries workflow_id state es

unfoldable pub set_projects : ℕ → SchedulingState → Map (List Entry) → Map (List Entry)
set_projects workflow_id state [] = []
set_projects workflow_id state ((p, es) ∷ rest) =
    (p, set_entries workflow_id state es) ∷ set_projects workflow_id state rest

unfoldable pub set_workflow_state : FairQueue → ℕ → SchedulingState → FairQueue
set_workflow_state q workflow_id state = record q {
  projects = set_projects workflow_id state q.projects;
}

abbrev pub is_ready : SchedulingState → Bool
is_ready ready = true
is_ready _ = false

-- the order of the keys `(priority, Reverse(sequence))`
abbrev pub is_below : Entry → Entry → Bool
is_below a b =
    ltb_ℤ a.task.priority b.task.priority
    || (not (ltb_ℤ b.task.priority a.task.priority) && ltb b.sequence a.sequence)

-- `max_by_key` on the ready entries: the last of the greatest, with its index
abbrev pub Selected : Type 0
Selected = Option (ℕ × Entry)

abbrev pub better : Entry → ℕ → Selected → Selected
better e index none = some (index, e)
better e index (some (i, best)) = if is_below best e then some (index, e) else some (i, best)

-- the selection among `e ∷ es`, from the one among `es`
unfoldable pub select : ℕ → List Entry → Selected
select index [] = none
select index (e ∷ es) =
    let later = select (suc index) es in if is_ready e.state then better e index later else later

-- `Vec::remove`
unfoldable pub remove_at : ℕ → List Entry → List Entry
remove_at i [] = []
remove_at zero (e ∷ es) = es
remove_at (suc i) (e ∷ es) = e ∷ remove_at i es

-- `BTreeSet::remove`
unfoldable pub without : ℕ → List ℕ → List ℕ
without t [] = []
without t (u ∷ us) = let rest = without t us in if u == t then rest else u ∷ rest

-- the selected entry leaves its project
abbrev pub take_entry : FairQueue → ℕ → List Entry → ℕ × Entry → FairQueue × Option ScheduledTask
take_entry q project entries (index, e) =
    let left = remove_at index entries in
    (
      record q {
        tasks = without e.task.task_id q.tasks;
        projects =
            if is_empty left
            then Map.remove project q.projects
            else Map.insert project left q.projects;
        rotation = if is_empty left then q.rotation else q.rotation ++ project ∷ [];
      },
      some e.task,
    )

abbrev pub serve_project :
    FairQueue
    → ℕ
    → List Entry
    → Selected
    → (FairQueue → FairQueue × Option ScheduledTask)
    → FairQueue × Option ScheduledTask
serve_project q project entries (some selected) next = take_entry q project entries selected
serve_project q project entries none next =
    next (record q { rotation = q.rotation ++ project ∷ [] })

-- the turn of one project, which the rotation has lost; `next` goes on with the others
abbrev pub turn :
    FairQueue
    → ℕ
    → Option (List Entry)
    → (FairQueue → FairQueue × Option ScheduledTask)
    → FairQueue × Option ScheduledTask
turn q project none next = (q, none)
turn q project (some entries) next = serve_project q project entries (select 0 entries) next

-- `pop_front` of the rotation, with `?`
abbrev pub first_turn :
    FairQueue
    → List ℕ
    → (FairQueue → FairQueue × Option ScheduledTask)
    → FairQueue × Option ScheduledTask
first_turn q [] next = (q, none)
first_turn q (p ∷ ps) next = turn (record q { rotation = ps }) p (Map.get p q.projects) next

-- the loop, with the number of projects left to check
unfoldable pub check_projects : ℕ → FairQueue → FairQueue × Option ScheduledTask
check_projects zero q = (q, none)
check_projects (suc n) q = first_turn q q.rotation (check_projects n)

unfoldable pub pop : FairQueue → FairQueue × Option ScheduledTask
pop q = check_projects (length q.rotation) q
