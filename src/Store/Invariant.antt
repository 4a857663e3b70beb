-- ===== src/Store/Invariant.antt =====
-- What every write keeps, every operation keeps: crates/workflow-store/src/workflows.rs,
-- candidates.rs, goals.rs and tasks.rs.
use Prim.Native.String.{String}
use opencode_cycle_plugin.Prelude.{
  ℕ, Option, none, some, List, [], ◌∷◌, ◌≡◌, refl, sym, subst, inl, inr, Result, ok, err, ◌>>=◌,
  fail_if, ok_or, arith, Option-cases, Bool-cases, ◌⊎◌, ◌&&◌,
}
use opencode_cycle_plugin.Prelude.Map
use opencode_cycle_plugin.Prelude.Map.{Map}
use opencode_cycle_plugin.Core.Workflow.{Workflow, WorkflowCommand, apply, deliver}
use opencode_cycle_plugin.Core.Goal
use opencode_cycle_plugin.Core.Goal.{Goal, GoalCommand, GoalError, GoalEvent}
use opencode_cycle_plugin.Core.Task
use opencode_cycle_plugin.Core.Task.{TaskCommand, TaskEvent}
use opencode_cycle_plugin.Core.Request.{WorkflowTimestamp}
use opencode_cycle_plugin.Store.Tables.{
  Store, StoreError, Reservation, sqlite, recall, guard, is_reserved, delivery_in_progress,
}
use opencode_cycle_plugin.Store.Workflows
use opencode_cycle_plugin.Store.Workflows.{
  WorkflowApplyResult, apply_workflow_command, store_workflow, recall_workflow, state_of,
  check_reservation, release_row, is_held_by, opt_eq, deliver_reserved_candidate,
  reserve_candidate_delivery, release_candidate_delivery, bind_candidate_delivery_journal,
}
use opencode_cycle_plugin.Store.Goals
use opencode_cycle_plugin.Store.Goals.{
  GoalApplyResult, recall_goal, read_row, recall_amendment, last_sequence, apply_goal_command,
  append_goal_amendment, store_goal, store_amendment,
}
use opencode_cycle_plugin.Store.Tasks
use opencode_cycle_plugin.Store.Tasks.{
  TaskApplyResult, recall_task, owned_task, apply_task_command, store_task,
}
use opencode_cycle_plugin.Store.Transactions.{Leaves, bind-Leaves, commit-Leaves}
use opencode_cycle_plugin.Store.Requests.{
  StoreRequest, workflow_command, goal_command, goal_amendment, task_command, reserve_delivery,
  release_delivery, bind_journal, deliver_candidate, serve, serve_all,
}

abbrev IsReservationWrite : Store → Store → Type 0
IsReservationWrite s t = (t ≡ s) ⊎ ((rs : Map Reservation) × (t ≡ record s { reservations = rs }))

reserved_or_same :
    (s : Store) (id candidate digest : ℕ)
    → IsReservationWrite s (reserve_candidate_delivery s id candidate digest).0
unfolding reserve_candidate_delivery
reserved_or_same s id candidate digest = elim (Bool-cases s.read_write) [
  | inr closed ↦ inl (ground arith)
  | inl writable ↦ elim (Option-cases (Map.get candidate s.reservations)) [
    | inr (r, e) ↦ inl (ground arith)
    | inl free ↦ elim (Bool-cases (is_reserved id s.reservations)) [
      | inl taken ↦ inl (ground arith)
      | inr open_row ↦ inr (
        Map.insert candidate
            (record { workflow_id = id; candidate_digest = digest; journal_digest = none })
            s.reservations,
        ground arith,
      )
    ]
  ]
]

released_or_same :
    (s : Store) (id candidate digest : ℕ)
    → IsReservationWrite s (release_candidate_delivery s id candidate digest).0
unfolding release_candidate_delivery
released_or_same s id candidate digest = elim (Bool-cases s.read_write) [
  | inr closed ↦ inl (ground arith)
  | inl writable ↦ elim (Option-cases (Map.get candidate s.reservations)) [
    | inl e ↦ inl (ground arith)
    | inr (r, e) ↦ elim (Bool-cases (is_held_by r id digest)) [
      | inr other ↦ inl (ground arith)
      | inl held ↦ inr (Map.remove candidate s.reservations, ground arith)
    ]
  ]
]

bound_or_same :
    (s : Store) (id candidate digest : ℕ) (expected : Option ℕ) (journal : ℕ)
    → IsReservationWrite s
        (bind_candidate_delivery_journal s id candidate digest expected journal).0
unfolding bind_candidate_delivery_journal
bound_or_same s id candidate digest expected journal =
    elim (Option-cases (Map.get candidate s.reservations)) [
      | inl e ↦ inl (ground arith)
      | inr (r, e) ↦
          elim (Bool-cases (is_held_by r id digest && opt_eq expected r.journal_digest)) [
            | inr other ↦ inl (ground arith)
            | inl held ↦ inr (
              Map.insert candidate (record r { journal_digest = some journal }) s.reservations,
              ground arith,
            )
          ]
    ]

-- A property of the store that the writes of each kind keep.
pub record IsInvariant (P : Store → Type 0) : Type 0 where
  pub workflow_row :
      (s : Store) (id : ℕ) (key : String) (c : WorkflowCommand)
      → P s
      → Leaves P (store_workflow s id key (apply (state_of id s.workflows) c))
  pub goal_row :
      (s : Store) (id : ℕ) (key : String) (owner : ℕ) (a : Goal.Applied)
      → P s
      → Leaves P (store_goal s id key owner a)
  pub amendment_row :
      (s : Store) (id : ℕ) (key : String) (owner : ℕ) (a : Goal × Result (Unit {0}) GoalError)
      → P s
      → Leaves P (store_amendment s id key owner a)
  pub task_row :
      (s : Store) (owner id : ℕ) (key : String) (a : Task.Applied)
      → P s
      → Leaves P (store_task s owner id key a)
  pub reservation_row :
      (s : Store) (rs : Map Reservation) → P s → P (record s { reservations = rs })

module _ (P : Store → Type 0) (kept : IsInvariant P) where
  new_workflow-kept :
      (s : Store) (id : ℕ) (key : String) (c : WorkflowCommand) (old : Option WorkflowApplyResult)
      → P s
      → Leaves P (Workflows.apply_new s id key c old)
  new_workflow-kept s id key c (some r) p = p
  new_workflow-kept s id key c none p = kept.workflow_row s id key c p

  apply_workflow_command-kept :
      (s : Store) (id : ℕ) (key : String) (c : WorkflowCommand)
      → P s
      → P (apply_workflow_command s id key c).0
  unfolding apply_workflow_command
  apply_workflow_command-kept s id key c p = commit-Leaves P s _ p (
      bind-Leaves P (guard s key) _ (λ _.
        bind-Leaves P (fail_if (is_reserved id s.reservations) delivery_in_progress) _ (λ _.
          bind-Leaves P (recall_workflow id (recall key s.remembered)) _
            (λ old. new_workflow-kept s id key c old p))))

  new_goal-kept :
      (s : Store) (id : ℕ) (key : String) (c : GoalCommand) (old : Option GoalApplyResult)
      → P s
      → Leaves P (Goals.apply_new s id key c old)
  new_goal-kept s id key c (some r) p = p
  new_goal-kept s id key c none p =
      bind-Leaves P (read_row (Map.get id s.goals)) _
        (λ row. kept.goal_row s id key row.0 (Goal.apply row.1 c) p)

  apply_goal_command-kept :
      (s : Store) (id : ℕ) (key : String) (c : GoalCommand)
      → P s
      → P (apply_goal_command s id key c).0
  unfolding apply_goal_command
  apply_goal_command-kept s id key c p = commit-Leaves P s _ p (
      bind-Leaves P (guard s key) _ (λ _.
        bind-Leaves P (recall_goal id (recall key s.remembered)) _
          (λ old. new_goal-kept s id key c old p)))

  new_amendment-kept :
      (s : Store) (id : ℕ) (key text : String) (t : WorkflowTimestamp) (old : Option Goal)
      → P s
      → Leaves P (Goals.amend_new s id key text t old)
  new_amendment-kept s id key text t (some r) p = p
  new_amendment-kept s id key text t none p =
      bind-Leaves P (read_row (Map.get id s.goals)) _
        (λ row. kept.amendment_row s id key row.0 (Goal.append_amendment row.1 text t) p)

  append_goal_amendment-kept :
      (s : Store) (id : ℕ) (key text : String) (t : WorkflowTimestamp)
      → P s
      → P (append_goal_amendment s id key text t).0
  unfolding append_goal_amendment
  append_goal_amendment-kept s id key text t p = commit-Leaves P s _ p (
      bind-Leaves P (guard s key) _ (λ _.
        bind-Leaves P (recall_amendment id (recall key s.remembered)) _
          (λ old. new_amendment-kept s id key text t old p)))

  new_task-kept :
      (s : Store) (owner id : ℕ) (key : String) (c : TaskCommand) (old : Option TaskApplyResult)
      → P s
      → Leaves P (Tasks.apply_new s owner id key c old)
  new_task-kept s owner id key c (some r) p = p
  new_task-kept s owner id key c none p =
      bind-Leaves P (owned_task owner (Map.get id s.tasks)) _
        (λ t. kept.task_row s owner id key (Task.apply t c) p)

  apply_task_command-kept :
      (s : Store) (owner id : ℕ) (key : String) (c : TaskCommand)
      → P s
      → P (apply_task_command s owner id key c).0
  unfolding apply_task_command
  apply_task_command-kept s owner id key c p = commit-Leaves P s _ p (
      bind-Leaves P (guard s key) _ (λ _.
        bind-Leaves P (recall_task id (recall key s.remembered)) _
          (λ old. new_task-kept s owner id key c old p)))

  release-kept :
      (candidate : ℕ) (m : Result (Store × WorkflowApplyResult) StoreError)
      → Leaves P m
      → Leaves P (m >>= release_row candidate)
  release-kept candidate (err e) h = tt
  release-kept candidate (ok (t, r)) h = kept.reservation_row t _ h

  -- a stored workflow is the state of its id
  delivered-kept :
      (s : Store) (id candidate : ℕ) (key : String) (row : Option Workflow)
      → Map.get id s.workflows ≡ row
      → P s
      → Leaves P (
          ok_or row sqlite >>= λ w.
          store_workflow s id key (apply w deliver) >>= release_row candidate)
  delivered-kept s id candidate key none e p = tt
  delivered-kept s id candidate key (some w) e p =
      let same : state_of id s.workflows ≡ w = unfold state_of in ground arith in
      release-kept candidate _ (
        subst (λ v. Leaves P (store_workflow s id key (apply v deliver))) same
          (kept.workflow_row s id key deliver p))

  deliver_reserved_candidate-kept :
      (s : Store) (id candidate digest journal : ℕ) (key : String)
      → P s
      → P (deliver_reserved_candidate s id candidate digest journal key).0
  unfolding deliver_reserved_candidate
  deliver_reserved_candidate-kept s id candidate digest journal key p = commit-Leaves P s _ p (
      bind-Leaves P (guard s key) _ (λ _.
        bind-Leaves P (check_reservation id digest journal (Map.get candidate s.reservations)) _
          (λ _. delivered-kept s id candidate key (Map.get id s.workflows) refl p)))

  -- an operation on reservations leaves the store, or writes them alone
  reservation-kept :
      (s t : Store)
      → (t ≡ s) ⊎ ((rs : Map Reservation) × (t ≡ record s { reservations = rs }))
      → P s
      → P t
  reservation-kept s t (inl e) p = subst P (sym e) p
  reservation-kept s t (inr (rs, e)) p = subst P (sym e) (kept.reservation_row s rs p)

  serve-kept : (s : Store) (q : StoreRequest) → P s → P (serve s q)
  unfolding serve
  serve-kept s (workflow_command id key c) p = apply_workflow_command-kept s id key c p
  serve-kept s (goal_command id key c) p = apply_goal_command-kept s id key c p
  serve-kept s (goal_amendment id key text t) p = append_goal_amendment-kept s id key text t p
  serve-kept s (task_command owner id key c) p = apply_task_command-kept s owner id key c p
  serve-kept s (reserve_delivery id candidate digest) p =
      reservation-kept s _ (reserved_or_same s id candidate digest) p
  serve-kept s (release_delivery id candidate digest) p =
      reservation-kept s _ (released_or_same s id candidate digest) p
  serve-kept s (bind_journal id candidate digest expected journal) p =
      reservation-kept s _ (bound_or_same s id candidate digest expected journal) p
  serve-kept s (deliver_candidate id candidate digest journal key) p =
      deliver_reserved_candidate-kept s id candidate digest journal key p

  -- What the writes keep holds after any series of requests, accepted or refused.
  pub serve_all-kept : (s : Store) (qs : List StoreRequest) → P s → P (serve_all s qs)
  unfolding serve_all
  serve_all-kept s [] p = p
  serve_all-kept s (q ∷ qs) p = serve_all-kept (serve s q) qs (serve-kept s q p)
