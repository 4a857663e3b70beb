-- ===== src/Daemon/FairQueue/Service.antt =====
-- What `pop` serves, and when it serves nothing: crates/workflowd/src/scheduler/queue.rs.
use opencode_cycle_plugin.Prelude.{
  ℕ, zero, suc, true, Option, none, some, List, [], ◌∷◌, ◌++◌, ◌≡◌, refl, sym, arith, length, All,
  is_some, subst,
}
use mathlib.Core.List.{append_assoc, append-nil}
use opencode_cycle_plugin.Prelude.Map
use opencode_cycle_plugin.Prelude.Map.{Map}
use opencode_cycle_plugin.Daemon.FairQueue.{
  FairQueue, Entry, ScheduledTask, Selected, select, turn, first_turn, serve_project,
  check_projects, pop,
}
use opencode_cycle_plugin.Daemon.FairQueue.Selection.{IsBest, IsIdle, SelectedIn, select-SelectedIn}

-- the task is that of the best entry of a project
abbrev pub IsServed : Map (List Entry) → ScheduledTask → Type 0
IsServed projects t =
    (project : ℕ) × (es : List Entry) × (selected : ℕ × Entry) × (Map.get project projects
      ≡ some es)
    × IsBest 0 es selected
    × ((selected.1).task ≡ t)

serve_project-IsServed :
    (q : FairQueue) (project : ℕ) (es : List Entry) (selected : Selected)
    (next : FairQueue → FairQueue × Option ScheduledTask) (t : ScheduledTask)
    → Map.get project q.projects ≡ some es
    → SelectedIn 0 es selected
    → ((rotation : List ℕ)
        → (next (record q { rotation = rotation })).1 ≡ some t
        → IsServed q.projects t)
    → (serve_project q project es selected next).1 ≡ some t
    → IsServed q.projects t
serve_project-IsServed q project es none next t found s later h = later _ h
serve_project-IsServed q project es (some (i, e)) next t found s later h =
    (project, es, (i, e), found, s, ground (arith, h))

turn-IsServed :
    (q : FairQueue) (project : ℕ) (found : Option (List Entry))
    (next : FairQueue → FairQueue × Option ScheduledTask) (t : ScheduledTask)
    → Map.get project q.projects ≡ found
    → ((rotation : List ℕ)
        → (next (record q { rotation = rotation })).1 ≡ some t
        → IsServed q.projects t)
    → (turn q project found next).1 ≡ some t
    → IsServed q.projects t
turn-IsServed q project none next t e later h = absurd (cc)
turn-IsServed q project (some es) next t e later h =
    serve_project-IsServed q project es (select 0 es) next t e (select-SelectedIn 0 es) later h

first_turn-IsServed :
    (q : FairQueue) (rotation : List ℕ) (next : FairQueue → FairQueue × Option ScheduledTask)
    (t : ScheduledTask)
    → ((rotation : List ℕ)
        → (next (record q { rotation = rotation })).1 ≡ some t
        → IsServed q.projects t)
    → (first_turn q rotation next).1 ≡ some t
    → IsServed q.projects t
first_turn-IsServed q [] next t later h = absurd (cc)
first_turn-IsServed q (p ∷ ps) next t later h =
    turn-IsServed (record q { rotation = ps }) p (Map.get p q.projects) next t refl later h

check_projects-IsServed :
    (n : ℕ) (q : FairQueue) (t : ScheduledTask)
    → (check_projects n q).1 ≡ some t
    → IsServed q.projects t
unfolding check_projects
check_projects-IsServed zero q t h = absurd (cc)
check_projects-IsServed (suc n) q t h =
    first_turn-IsServed q q.rotation (check_projects n) t
      (λ rotation later. check_projects-IsServed n (record q { rotation = rotation }) t later) h

-- A task that `pop` returns is that of an entry of some project whose state is ready, and no ready
-- entry of that project has a higher priority, or the same and a smaller sequence number.
pub pop-IsServed : (q : FairQueue) (t : ScheduledTask) → (pop q).1 ≡ some t → IsServed q.projects t
unfolding pop
pop-IsServed q t h = check_projects-IsServed (length q.rotation) q t h

-- the project has a queue without ready tasks
abbrev pub IsIdleAt : Map (List Entry) → ℕ → Type 0
IsIdleAt projects p = (es : List Entry) × (Map.get p projects ≡ some es) × IsIdle es

abbrev NoneServed : FairQueue × Option ScheduledTask → Type 0
NoneServed answer = answer.1 ≡ none

serve_project-none :
    (q : FairQueue) (project : ℕ) (es : List Entry) (selected : Selected)
    (next : FairQueue → FairQueue × Option ScheduledTask)
    → SelectedIn 0 es selected
    → NoneServed (serve_project q project es selected next)
    → IsIdle es × NoneServed (next (record q { rotation = q.rotation ++ project ∷ [] }))
serve_project-none q project es none next s h = (s, h)
serve_project-none q project es (some (i, e)) next s h = absurd (cc)

turn-none :
    (q : FairQueue) (project : ℕ) (found : Option (List Entry))
    (next : FairQueue → FairQueue × Option ScheduledTask)
    → Map.get project q.projects ≡ found
    → is_some found ≡ true
    → NoneServed (turn q project found next)
    → IsIdleAt q.projects project
      × NoneServed (next (record q { rotation = q.rotation ++ project ∷ [] }))
turn-none q project none next e queued h = absurd (cc)
turn-none q project (some es) next e queued h =
    let (idle, later) =
      serve_project-none q project es (select 0 es) next (select-SelectedIn 0 es) h in
    ((es, e, idle), later)

check_projects-none :
    (q : FairQueue) (xs ys : List ℕ)
    → All (λ p. Map.contains_key p q.projects ≡ true) xs
    → NoneServed (check_projects (length xs) (record q { rotation = xs ++ ys }))
    → All (IsIdleAt q.projects) xs
unfolding check_projects
check_projects-none q [] ys queued h = tt
check_projects-none q (x ∷ xs) ys queued h =
    let (idle, later) =
      turn-none (record q { rotation = xs ++ ys }) x (Map.get x q.projects)
        (check_projects (length xs)) refl queued.0 h in
    (
      idle,
      check_projects-none q xs (ys ++ x ∷ []) queued.1 (
          subst
            (λ rotation. NoneServed (check_projects (length xs) (record q { rotation = rotation })))
            (append_assoc xs ys (x ∷ [])) later),
    )

-- When every project of the rotation has a queue, `pop` returns nothing only if no task of these
-- projects is ready: a project without ready tasks does not hide the others.
pub pop-none :
    (q : FairQueue)
    → All (λ p. Map.contains_key p q.projects ≡ true) q.rotation
    → (pop q).1 ≡ none
    → All (IsIdleAt q.projects) q.rotation
unfolding pop
pop-none q queued h = check_projects-none q q.rotation [] queued (
    subst
      (λ rotation.
        NoneServed (check_projects (length q.rotation) (record q { rotation = rotation })))
      (sym (append-nil q.rotation)) h)
