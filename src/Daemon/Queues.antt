-- ===== src/Daemon/Queues.antt =====
-- The queues of the fair admission, crates/workflowd/src/admission.rs. `debug` says whether the
-- daemon is built with debug assertions: the argument of `debug_assert_eq!` runs only then.
pub mod Entries
pub mod Waiting
use opencode_cycle_plugin.Prelude.{
  ℕ, Bool, true, false, not, ◌&&◌, Option, none, some, List, [], ◌∷◌, ◌++◌, ltb, leb, ◌==◌,
  if◌then◌else◌, is_empty, saturating_add, u64_max,
}
use opencode_cycle_plugin.Prelude.Map
use opencode_cycle_plugin.Prelude.Map.{Map}
use opencode_cycle_plugin.Prelude.Set
use opencode_cycle_plugin.Daemon.Policy.{AdmissionController}

abbrev pub lease_millis : ℕ
lease_millis = 15000

-- A lease holds its expiry only, as `waiting` does.
pub record RuntimeAdmission (Cpu : Type 0) : Type 0 where
  pub active : Map ℕ
  pub controller : AdmissionController Cpu
  pub last_tick : ℕ
  pub maximum_active : ℕ
  pub projects : Map (List ℕ)
  pub rotation : List ℕ
  pub waiting : Map ℕ
  pub workflow_projects : Map ℕ

-- `retain` on a map and on a list
unfoldable pub retain {ℓ} : {V : Type ℓ} → (ℕ → V → Bool) → Map V → Map V
retain p [] = []
retain p ((k, v) ∷ m) = let rest = retain p m in if p k v then (k, v) ∷ rest else rest

unfoldable pub keep {ℓ} : {A : Type ℓ} → (A → Bool) → List A → List A
keep p [] = []
keep p (x ∷ xs) = let rest = keep p xs in if p x then x ∷ rest else rest

abbrev pub is_key : Option ℕ → ℕ → Bool
is_key none k = false
is_key (some j) k = j == k

abbrev pub front {ℓ} : {A : Type ℓ} → List A → Option A
front [] = none
front (x ∷ xs) = some x

abbrev pub pop_front {ℓ} : {A : Type ℓ} → List A → List A
pop_front [] = []
pop_front (x ∷ xs) = xs

abbrev pub queue_of : ℕ → Map (List ℕ) → List ℕ
queue_of project projects = elim (Map.get project projects) [ none ↦ [] | some queue ↦ queue ]

-- the queued workflows with their projects, by `collect::<BTreeMap<_, _>>()`
unfoldable pub queue_entries : ℕ → List ℕ → Map ℕ → Map ℕ
queue_entries project [] m = m
queue_entries project (w ∷ ws) m = queue_entries project ws (Map.insert w project m)

unfoldable pub queued_from : Map (List ℕ) → Map ℕ → Map ℕ
queued_from [] m = m
queued_from ((project, queue) ∷ rest) m = queued_from rest (queue_entries project queue m)

-- the rotation without repetition and without projects that have no queue, `seen` so far
unfoldable pub retain_rotation : Map (List ℕ) → List ℕ → List ℕ → List ℕ
retain_rotation projects seen [] = []
retain_rotation projects seen (p ∷ ps) =
    let kept = retain_rotation projects (p ∷ seen) ps in
    let dropped = retain_rotation projects seen ps in
    if Map.contains_key p projects && not (Set.contains p seen) then p ∷ kept else dropped

-- the projects that the rotation misses
unfoldable pub missing_projects : List ℕ → List ℕ → List ℕ
missing_projects rotation [] = []
missing_projects rotation (p ∷ ps) =
    let rest = missing_projects rotation ps in if Set.contains p rotation then rest else p ∷ rest

-- each queue without the workflows that do not wait for it
unfoldable pub clean_queues : Map ℕ → Map ℕ → Map (List ℕ) → Map (List ℕ)
clean_queues waiting owners [] = []
clean_queues waiting owners ((project, queue) ∷ rest) =
    (project, keep (λ w. Map.contains_key w waiting && is_key (Map.get w owners) project) queue)
    ∷ clean_queues waiting owners rest

module _ {Cpu : Type 0} where
  unfoldable pub repair_queue_invariants : RuntimeAdmission Cpu → RuntimeAdmission Cpu
  repair_queue_invariants a =
      let queues =
        retain (λ project queue. not (is_empty queue))
          (clean_queues a.waiting a.workflow_projects a.projects) in
      let queued = queued_from queues [] in
      let rotation = retain_rotation queues [] a.rotation in
      record a {
        projects = queues;
        waiting = retain (λ w expiry. Map.contains_key w queued) a.waiting;
        workflow_projects = retain (λ w p. is_key (Map.get w queued) p) a.workflow_projects;
        rotation = rotation ++ missing_projects rotation (Map.keys queues);
      }

  -- the queue of one workflow's project without it
  abbrev pub leave_queue : ℕ → ℕ → List ℕ → RuntimeAdmission Cpu → RuntimeAdmission Cpu
  leave_queue workflow project [] a = record a {
    projects = Map.remove project a.projects;
    rotation = keep (λ p. not (p == project)) a.rotation;
  }
  leave_queue workflow project (w ∷ ws) a = record a {
    projects = Map.insert project (w ∷ ws) a.projects;
  }

  abbrev pub remove_waiting : ℕ → ℕ → RuntimeAdmission Cpu → RuntimeAdmission Cpu
  remove_waiting workflow project a = elim (Map.get project a.projects) [
    | none ↦ a
    | some queue ↦ leave_queue workflow project (keep (λ w. not (w == workflow)) queue) a
  ]

  unfoldable pub remove : RuntimeAdmission Cpu → ℕ → RuntimeAdmission Cpu
  remove a workflow = elim (Map.get workflow a.workflow_projects) [
    | none ↦ record a { active = Map.remove workflow a.active }
    | some project ↦ remove_waiting workflow project (record a {
      active = Map.remove workflow a.active;
      waiting = Map.remove workflow a.waiting;
      workflow_projects = Map.remove workflow a.workflow_projects;
    })
  ]

  unfoldable pub remove_all : RuntimeAdmission Cpu → List ℕ → RuntimeAdmission Cpu
  remove_all a [] = a
  remove_all a (w ∷ ws) = remove_all (remove a w) ws

  unfoldable pub reap : RuntimeAdmission Cpu → ℕ → RuntimeAdmission Cpu
  reap a now =
      let live = record a { active = retain (λ w expires_at. ltb now expires_at) a.active } in
      repair_queue_invariants
        (remove_all live (Map.keys (retain (λ w expires_at. leb expires_at now) live.waiting)))

  unfoldable pub enqueue : RuntimeAdmission Cpu → ℕ → ℕ → ℕ → RuntimeAdmission Cpu
  enqueue a project workflow now =
      let expires_at = saturating_add u64_max now lease_millis in
      let waiting = Map.insert workflow expires_at a.waiting in
      if Map.contains_key workflow a.waiting then record a { waiting = waiting } else record a {
        waiting = waiting;
        projects = Map.insert project (queue_of project a.projects ++ workflow ∷ []) a.projects;
        workflow_projects = Map.insert workflow project a.workflow_projects;
        rotation =
            if Map.contains_key project a.projects then a.rotation else a.rotation ++ project ∷ [];
      }

  -- `expect` does not fail: `execute` has found the workflow in the queue of its project
  unfoldable pub dequeue_front : Bool → RuntimeAdmission Cpu → ℕ → ℕ → RuntimeAdmission Cpu
  dequeue_front debug a project workflow =
      let queue = queue_of project a.projects in
      let left = if debug then pop_front queue else queue in
      record a {
        waiting = Map.remove workflow a.waiting;
        workflow_projects = Map.remove workflow a.workflow_projects;
        rotation =
            if is_empty left then pop_front a.rotation else pop_front a.rotation ++ project ∷ [];
        projects =
            if is_empty left
            then Map.remove project a.projects
            else Map.insert project left a.projects;
      }
