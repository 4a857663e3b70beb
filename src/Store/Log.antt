-- ===== src/Store/Log.antt =====
-- The events table tells the workflows table: crates/workflow-store/src/workflows.rs.
use Prim.Native.String.{String}
use mathlib.Core.List.{append-nil}
use opencode_cycle_plugin.Prelude.{
  ℕ, some, List, [], ◌∷◌, ◌++◌, map, ◌≡◌, refl, ap, subst, inl, inr, ok, ◌>>=◌, arith, ◌==◌, ==_iff,
  if◌then◌else◌, Bool-cases, Option-cases,
}
use opencode_cycle_plugin.Prelude.Map
use opencode_cycle_plugin.Core.Workflow.{Workflow, WorkflowEvent, new}
use opencode_cycle_plugin.Core.Workflow.Steps.{Progress, progress, observe, observe_all}
use opencode_cycle_plugin.Core.Goal.{GoalEvent}
use opencode_cycle_plugin.Core.Task.{TaskEvent}
use opencode_cycle_plugin.Store.Tables.{
  Store, StoredEvent, Remembered, workflow_event, goal_event, amendment_appended, task_event,
  recall, remember,
}
use opencode_cycle_plugin.Store.Workflows.{state_of}
use opencode_cycle_plugin.Store.Transactions.{Leaves}

-- the events of one workflow
unfoldable pub log_of : ℕ → List StoredEvent → List WorkflowEvent
log_of id [] = []
log_of id (workflow_event j e ∷ es) = let rest = log_of id es in if j == id then e ∷ rest else rest
log_of id (goal_event j e ∷ es) = log_of id es
log_of id (amendment_appended j n ∷ es) = log_of id es
log_of id (task_event j e ∷ es) = log_of id es

-- The events of each workflow, read from the start, tell its state and its repair counters.
abbrev pub IsLogged : Store → Type 0
IsLogged s =
    (id : ℕ)
    → observe_all (progress (new 5)) (log_of id s.events)
      ≡ some (progress (state_of id s.workflows))

pub log_of-append :
    (id : ℕ) (es fs : List StoredEvent) → log_of id (es ++ fs) ≡ log_of id es ++ log_of id fs
unfolding log_of
log_of-append id [] fs = refl
log_of-append id (workflow_event j e ∷ es) fs = ground (arith, log_of-append id es fs)
log_of-append id (goal_event j e ∷ es) fs = log_of-append id es fs
log_of-append id (amendment_appended j n ∷ es) fs = log_of-append id es fs
log_of-append id (task_event j e ∷ es) fs = log_of-append id es fs

log_of_workflow :
    (id j : ℕ) (es : List WorkflowEvent)
    → log_of id (map (workflow_event j) es) ≡ (if j == id then es else [])
unfolding log_of
log_of_workflow id j [] = ground arith
log_of_workflow id j (e ∷ es) = ground (arith, log_of_workflow id j es)

pub log_of_goal : (id j : ℕ) (es : List GoalEvent) → log_of id (map (goal_event j) es) ≡ []
unfolding log_of
log_of_goal id j [] = refl
log_of_goal id j (e ∷ es) = log_of_goal id j es

pub log_of_task : (id j : ℕ) (es : List TaskEvent) → log_of id (map (task_event j) es) ≡ []
unfolding log_of
log_of_task id j [] = refl
log_of_task id j (e ∷ es) = log_of_task id j es

observe_all-append :
    (p q : Progress) (es fs : List WorkflowEvent)
    → observe_all p es ≡ some q
    → observe_all p (es ++ fs) ≡ observe_all q fs
observe_all-append p q [] fs h = let same : p ≡ q = ground arith in ap (λ r. observe_all r fs) same
observe_all-append p q (e ∷ es) fs h = elim (Option-cases (observe p e)) [
  | inl none_left ↦ absurd (ground arith)
  | inr (r, step) ↦ let more = observe_all-append r q es fs (ground arith) in ground arith
]

-- the row of answers is beside the log
pub remember-IsLogged :
    {A : Type 0} (key : String) (r : Remembered) (s : Store) (a : A)
    → IsLogged s
    → Leaves IsLogged (remember key r s >>= λ s'. ok (s', a))
unfolding remember state_of
remember-IsLogged key r s a logged = elim (Option-cases (recall key s.remembered)) [
  | inl free ↦ rw free logged
  | inr (old, e) ↦ rw e tt
]

-- a command to one workflow, written with its events
pub written-IsLogged :
    (s : Store) (id : ℕ) (w : Workflow) (events : List WorkflowEvent)
    → IsLogged s
    → observe_all (progress (state_of id s.workflows)) events ≡ some (progress w)
    → IsLogged (record s {
      workflows = Map.insert id w s.workflows;
      events = s.events ++ map (workflow_event id) events;
    })
written-IsLogged s id w events logged told j =
    let cut = log_of-append j s.events (map (workflow_event id) events) in
    let own = log_of_workflow j id events in
    let put = Map.get-insert id j w s.workflows in
    elim (Bool-cases (id == j)) [
      | inr other ↦
          let kept : state_of j (Map.insert id w s.workflows) ≡ state_of j s.workflows =
            unfold state_of in ground arith in
          let nothing = append-nil (log_of j s.events) in let before = logged j in ground arith
      | inl own_id ↦
          let same : id ≡ j = (==_iff id j).0 own_id in
          let now : state_of j (Map.insert id w s.workflows) ≡ w =
            unfold state_of in ground arith in
          let told_here : observe_all (progress (state_of j s.workflows)) events
              ≡ some (progress w) =
            subst (λ k. observe_all (progress (state_of k s.workflows)) events ≡ some (progress w))
              same told in
          let more =
            observe_all-append (progress (new 5)) (progress (state_of j s.workflows))
              (log_of j s.events) events (logged j) in
          ground arith
    ]
