-- ===== src/Store/Delivery.antt =====
-- Stored workflows, and the delivery of a reserved candidate: crates/workflow-store/src/workflows.rs.
use Prim.Native.String.{String}
use opencode_cycle_plugin.Prelude.{
  ℕ, Option, none, some, List, ◌≡◌, refl, sym, ap, subst, true, false, inl, inr, Result, ok, err,
  ◌>>=◌, ok_or, arith, Option-cases, Bool-cases, ◌==◌,
}
use opencode_cycle_plugin.Prelude.Map
use opencode_cycle_plugin.Prelude.Map.{Map}
use opencode_cycle_plugin.Core.Workflow.{
  Workflow, WorkflowState, WorkflowEvent, Applied, apply, deliver,
}
use opencode_cycle_plugin.Core.Workflow.Invariant.{IsSound, new-IsSound, apply-IsSound}
use opencode_cycle_plugin.Core.Goal
use opencode_cycle_plugin.Core.Goal.{Goal, GoalError}
use opencode_cycle_plugin.Core.Task
use opencode_cycle_plugin.Store.Tables.{
  Store, Reservation, Remembered, sqlite, empty, remember, recall, guard,
}
use opencode_cycle_plugin.Store.Workflows.{
  WorkflowApplyResult, store_workflow, state_of, check_reservation, release_row, opt_eq, is_held_by,
  deliver_reserved_candidate,
}
use opencode_cycle_plugin.Store.Goals.{store_goal, store_amendment, last_sequence}
use opencode_cycle_plugin.Store.Tasks.{store_task}
use opencode_cycle_plugin.Store.Transactions.{
  Leaves, bind-Leaves, Commits, bind-Commits, commit-Commits,
}
use opencode_cycle_plugin.Store.Invariant.{serve_all-kept}
use opencode_cycle_plugin.Store.Requests.{StoreRequest, serve_all}

-- the workflows that are stored, and the one that a first command meets
abbrev pub AreSound : Store → Type 0
AreSound s = (id : ℕ) → IsSound (state_of id s.workflows)

-- writes that leave the workflows alone
same_workflows-AreSound :
    {A : Type 0} (key : String) (r : Remembered) (s t : Store) (a : A)
    → t.workflows ≡ s.workflows
    → AreSound s
    → Leaves AreSound (remember key r t >>= λ u. ok (u, a))
unfolding remember
same_workflows-AreSound key r s t a same sound = elim (Option-cases (recall key t.remembered)) [
  | inr (old, e) ↦ rw e tt
  | inl free ↦ rw free (λ id. subst (λ m. IsSound (state_of id m)) (sym same) (sound id))
]

state_of-insert :
    (id j : ℕ) (w : Workflow) (m : Map Workflow)
    → IsSound w
    → IsSound (state_of j m)
    → IsSound (state_of j (Map.insert id w m))
state_of-insert id j w m sound others =
    let put = Map.get-insert id j w m in
    elim (Bool-cases (id == j)) [
      | inl own ↦
          let now : w ≡ state_of j (Map.insert id w m) = unfold state_of in ground arith in
          subst IsSound now sound
      | inr other ↦
          let kept : state_of j m ≡ state_of j (Map.insert id w m) =
            unfold state_of in ground arith in
          subst IsSound kept others
    ]

workflow_row-AreSound :
    (s : Store) (id : ℕ) (key : String) (a : Applied)
    → IsSound a.0
    → AreSound s
    → Leaves AreSound (store_workflow s id key a)
unfolding store_workflow remember
workflow_row-AreSound s id key (w, err e) one sound = tt
workflow_row-AreSound s id key (w, ok events) one sound =
    elim (Option-cases (recall key s.remembered)) [
      | inr (old, e) ↦ rw e tt
      | inl free ↦ rw free (λ j. state_of-insert id j w s.workflows one (sound j))
    ]

goal_row-AreSound :
    (s : Store) (id : ℕ) (key : String) (owner : ℕ) (a : Goal.Applied)
    → AreSound s
    → Leaves AreSound (store_goal s id key owner a)
unfolding store_goal
goal_row-AreSound s id key owner (g, err e) sound = tt
goal_row-AreSound s id key owner (g, ok events) sound =
    same_workflows-AreSound key _ s _ _ refl sound

amendment_row-AreSound :
    (s : Store) (id : ℕ) (key : String) (owner : ℕ) (a : Goal × Result (Unit {0}) GoalError)
    → AreSound s
    → Leaves AreSound (store_amendment s id key owner a)
unfolding store_amendment
amendment_row-AreSound s id key owner (g, err e) sound = tt
amendment_row-AreSound s id key owner (g, ok _) sound =
    bind-Leaves AreSound (last_sequence g.request.amendments) _
      (λ sequence. same_workflows-AreSound key _ s _ _ refl sound)

task_row-AreSound :
    (s : Store) (owner id : ℕ) (key : String) (a : Task.Applied)
    → AreSound s
    → Leaves AreSound (store_task s owner id key a)
unfolding store_task
task_row-AreSound s owner id key (t, err e) sound = tt
task_row-AreSound s owner id key (t, ok events) sound =
    same_workflows-AreSound key _ s _ _ refl sound

-- After any requests to an empty store, accepted or refused, every stored workflow is sound.
pub serve_all-AreSound : (qs : List StoreRequest) → AreSound (serve_all empty qs)
serve_all-AreSound qs =
    serve_all-kept AreSound
      (record {
        workflow_row = λ s id key c sound.
            workflow_row-AreSound s id key (apply (state_of id s.workflows) c)
              (apply-IsSound _ c (sound id)) sound;
        goal_row = goal_row-AreSound;
        amendment_row = amendment_row-AreSound;
        task_row = task_row-AreSound;
        reservation_row = λ s rs sound. sound;
      })
      empty qs (λ id. unfold state_of Map.get in new-IsSound 5 (omega arith) (omega arith))

-- what a delivery is: of a reservation that names the workflow, the candidate's digest and the journal
abbrev pub Delivered : Store → ℕ → ℕ → ℕ → ℕ → Store → WorkflowApplyResult → Type 0
Delivered s id candidate digest journal s' r =
    (w : Workflow) × (Map.get id s.workflows ≡ some w)
    × (w.state ≡ WorkflowState.delivery)
    × (r.state.state ≡ WorkflowState.completed)
    × (Map.get id s'.workflows ≡ some r.state)
    × (Map.get candidate s.reservations
        ≡ some
            (record { workflow_id = id; candidate_digest = digest; journal_digest = some journal }))
    × (Map.get candidate s'.reservations ≡ none)

journal_bound :
    (bound : Option ℕ) (journal : ℕ)
    → opt_eq none bound ≡ false
    → opt_eq (some journal) bound ≡ true
    → bound ≡ some journal
journal_bound none journal h k = cc
journal_bound (some j) journal h k = ground (arith, k)

same_row :
    (r : Reservation) (id digest journal : ℕ)
    → r.workflow_id ≡ id
    → r.candidate_digest ≡ digest
    → r.journal_digest ≡ some journal
    → r ≡ record { workflow_id = id; candidate_digest = digest; journal_digest = some journal }
same_row r id digest journal a b c = rw (sym a, sym b, sym c) refl

check_reservation_lem :
    (id digest journal : ℕ) (row : Option Reservation)
    → check_reservation id digest journal row ≡ ok tt
    → row
      ≡ some (record { workflow_id = id; candidate_digest = digest; journal_digest = some journal })
unfolding is_held_by
check_reservation_lem id digest journal none h = cc
check_reservation_lem id digest journal (some r) h =
    elim (Bool-cases (opt_eq none r.journal_digest)) [
      | inl unbound ↦ absurd (ground (arith, unbound, h))
      | inr bound ↦
          let journal_eq =
            journal_bound r.journal_digest journal bound (ground (arith, bound, h)) in
          let id_eq : r.workflow_id ≡ id = ground (arith, bound, h) in
          let digest_eq : r.candidate_digest ≡ digest = ground (arith, bound, h) in
          ap some (same_row r id digest journal id_eq digest_eq journal_eq)
    ]

apply-deliver :
    (w w' : Workflow) (events : List WorkflowEvent)
    → apply w deliver ≡ (w', ok events)
    → (w.state ≡ WorkflowState.delivery) × (w'.state ≡ WorkflowState.completed)
unfolding apply
apply-deliver w w' events h = ground arith

stored-Delivered :
    (s : Store) (id candidate digest journal : ℕ) (key : String) (w : Workflow) (a : Applied)
    → Map.get id s.workflows ≡ some w
    → check_reservation id digest journal (Map.get candidate s.reservations) ≡ ok tt
    → apply w deliver ≡ a
    → Commits
        (Delivered s id candidate digest journal)
        (store_workflow s id key a >>= release_row candidate)
unfolding store_workflow remember
stored-Delivered s id candidate digest journal key w (w', err e) row held applied = tt
stored-Delivered s id candidate digest journal key w (w', ok events) row held applied =
    elim (Option-cases (recall key s.remembered)) [
      | inr (old, e) ↦ rw e tt
      | inl free ↦
          let (before, done) = apply-deliver w w' events applied in
          let put = Map.get-insert id id w' s.workflows in
          let gone = Map.get-remove candidate candidate s.reservations in
          rw free (
            w,
            row,
            before,
            done,
            ground arith,
            check_reservation_lem id digest journal _ held,
            ground arith,
          )
    ]

row-Delivered :
    (s : Store) (id candidate digest journal : ℕ) (key : String) (row : Option Workflow)
    → Map.get id s.workflows ≡ row
    → check_reservation id digest journal (Map.get candidate s.reservations) ≡ ok tt
    → Commits (Delivered s id candidate digest journal) (
        ok_or row sqlite >>= λ w.
        store_workflow s id key (apply w deliver) >>= release_row candidate)
row-Delivered s id candidate digest journal key none row held = tt
row-Delivered s id candidate digest journal key (some w) row held =
    stored-Delivered s id candidate digest journal key w (apply w deliver) row held refl

-- A delivery that is accepted was reserved for this workflow, candidate digest and journal; it takes
-- the stored workflow from Delivery to Completed, and its reservation is gone.
pub deliver_reserved_candidate-Delivered :
    (s : Store) (id candidate digest journal : ℕ) (key : String) (r : WorkflowApplyResult)
    → (deliver_reserved_candidate s id candidate digest journal key).1 ≡ ok r
    → Delivered s id candidate digest journal
        (deliver_reserved_candidate s id candidate digest journal key).0
        r
unfolding deliver_reserved_candidate
deliver_reserved_candidate-Delivered s id candidate digest journal key r =
    commit-Commits (Delivered s id candidate digest journal) s _ r (
      bind-Commits (Delivered s id candidate digest journal) (guard s key) _ (λ _ _.
        bind-Commits (Delivered s id candidate digest journal)
          (check_reservation id digest journal (Map.get candidate s.reservations)) _
          (λ _ held.
            row-Delivered s id candidate digest journal key (Map.get id s.workflows) refl held)))
