-- ===== src/Store/Retries.antt =====
-- A command is applied once, however often it is sent: crates/workflow-store/src/workflows.rs.
use Prim.Native.String.{String}
use opencode_cycle_plugin.Prelude.{
  ℕ, true, false, Option, none, some, List, ◌≡◌, refl, inl, inr, ok, err, fail_if, arith, ◌==◌,
  ==_iff, Bool-cases,
}
use opencode_cycle_plugin.Core.Workflow.{WorkflowCommand, Applied}
use opencode_cycle_plugin.Store.Tables.{
  Store, Remembered, of_workflow, recall, remember, guard, is_reserved, delivery_in_progress,
}
use opencode_cycle_plugin.Store.Workflows
use opencode_cycle_plugin.Store.Workflows.{
  WorkflowApplyResult, apply_workflow_command, store_workflow, recall_workflow, state_of,
}
use opencode_cycle_plugin.Store.Transactions.{Commits, bind-Commits, commit-Commits}
use opencode_cycle_plugin.Store.Memory.{recall-remember}
use opencode_cycle_plugin.Store.Keeps.{serve_all-Keeps}
use opencode_cycle_plugin.Store.Requests.{StoreRequest, serve_all}

-- the answer stands under the key, and the key may be used
record Answered (id : ℕ) (key : String) (s : Store) (r : WorkflowApplyResult) : Type 0 where
  recalled : recall key s.remembered ≡ some (of_workflow id r.events r.state)
  writable : guard s key ≡ ok tt

store_workflow-Answered :
    (s : Store) (id : ℕ) (key : String) (a : Applied)
    → guard s key ≡ ok tt
    → Commits (Answered id key) (store_workflow s id key a)
unfolding store_workflow
store_workflow-Answered s id key (w, err e) g = tt
store_workflow-Answered s id key (w, ok events) g =
    bind-Commits (Answered id key) (remember key _ _) _ (λ s' e.
      let (found, mode) = recall-remember key (of_workflow id events w) _ s' e in
      record { recalled = found; writable = ground arith })

recall_workflow-Answered :
    (s : Store) (id : ℕ) (key : String) (old : Option Remembered) (r : WorkflowApplyResult)
    → recall key s.remembered ≡ old
    → guard s key ≡ ok tt
    → recall_workflow id old ≡ ok (some r)
    → Answered id key s r
unfolding recall_workflow
recall_workflow-Answered s id key none r e g h = absurd (ground arith)
recall_workflow-Answered s id key (some (of_workflow j events w)) r e g h =
    elim (Bool-cases (j == id)) [
      | inr other ↦ absurd (ground arith)
      | inl own ↦
          let same : j ≡ id = (==_iff j id).0 own in
          record { recalled = ground arith; writable = g }
    ]
recall_workflow-Answered s id key (some _) r e g h = absurd (ground arith)

apply_new-Answered :
    (s : Store) (id : ℕ) (key : String) (c : WorkflowCommand) (old : Option WorkflowApplyResult)
    → recall_workflow id (recall key s.remembered) ≡ ok old
    → guard s key ≡ ok tt
    → Commits (Answered id key) (Workflows.apply_new s id key c old)
apply_new-Answered s id key c none e g = store_workflow-Answered s id key _ g
apply_new-Answered s id key c (some r) e g =
    recall_workflow-Answered s id key (recall key s.remembered) r refl g e

apply_workflow_command-Answered :
    (s : Store) (id : ℕ) (key : String) (c : WorkflowCommand) (r : WorkflowApplyResult)
    → (apply_workflow_command s id key c).1 ≡ ok r
    → Answered id key (apply_workflow_command s id key c).0 r
unfolding apply_workflow_command
apply_workflow_command-Answered s id key c r = commit-Commits (Answered id key) s _ r (
    bind-Commits (Answered id key) (guard s key) _ (λ _ g.
      bind-Commits (Answered id key) (fail_if (is_reserved id s.reservations) delivery_in_progress)
        _
        (λ _ _.
          bind-Commits (Answered id key) (recall_workflow id (recall key s.remembered)) _
            (λ old e. apply_new-Answered s id key c old e g))))

-- A command that was accepted under a key, sent again under that key after any other requests to the
-- store, gets the same events and state, marked as a duplicate, and changes nothing; unless
-- a delivery of the workflow is reserved at that time.
pub apply_workflow_command_again :
    (s : Store) (id : ℕ) (key : String) (c again : WorkflowCommand) (r : WorkflowApplyResult)
    (others : List StoreRequest)
    → (apply_workflow_command s id key c).1 ≡ ok r
    → is_reserved id (serve_all (apply_workflow_command s id key c).0 others).reservations ≡ false
    → apply_workflow_command (serve_all (apply_workflow_command s id key c).0 others) id key again
      ≡ (serve_all (apply_workflow_command s id key c).0 others, ok (record r { duplicate = true }))
apply_workflow_command_again s id key c again r others accepted free =
    let first = (apply_workflow_command s id key c).0 in
    let last = serve_all first others in
    let answered = apply_workflow_command-Answered s id key c r accepted in
    let kept = serve_all-Keeps first others in
    let found = kept.recalls key _ answered.recalled in
    let open_guard : guard last key ≡ ok tt =
      let mode = kept.mode in let before = answered.writable in ground arith in
    unfold apply_workflow_command recall_workflow in ground arith
