-- ===== src/Store/Workflows.antt =====
-- Commands to workflows, and the reservation of a delivery: crates/workflow-store/src/workflows.rs
-- and the reservations of crates/workflow-store/src/candidates.rs.
use Prim.Native.String.{String}
use opencode_cycle_plugin.Prelude.{
  ℕ, Bool, true, false, not, ◌&&◌, Option, none, some, List, ◌++◌, map, Result, ok, err, ◌>>=◌,
  ◌>>◌, fail_if, ok_or, ◌==◌, if◌then◌else◌,
}
use opencode_cycle_plugin.Prelude.Map
use opencode_cycle_plugin.Core.Workflow.{
  Workflow, WorkflowCommand, WorkflowEvent, Applied, apply, new, deliver,
}
use opencode_cycle_plugin.Store.Tables.{
  Store, StoreError, Reservation, Remembered, of_workflow, workflow_event, recall, remember, commit,
  guard, is_reserved, read_only, aggregate_conflict, delivery_in_progress, idempotency_conflict,
  sqlite,
}
use opencode_cycle_plugin.Store.Tables

pub record WorkflowApplyResult : Type 0 where
  pub duplicate : Bool
  pub events : List WorkflowEvent
  pub state : Workflow

-- what the key has been used for, if it has
unfoldable pub recall_workflow :
    ℕ → Option Remembered → Result (Option WorkflowApplyResult) StoreError
recall_workflow workflow_id none = ok none
recall_workflow workflow_id (some (of_workflow id events state)) =
    if id == workflow_id
    then ok (some (record { duplicate = true; events = events; state = state }))
    else err idempotency_conflict
recall_workflow workflow_id (some _) = err idempotency_conflict

-- the stored state, or `Workflow::default()`
unfoldable pub state_of : ℕ → Map.Map Workflow → Workflow
state_of workflow_id workflows = elim (Map.get workflow_id workflows) [ none ↦ new 5 | some w ↦ w ]

-- the writes of a command: the state, its events, and the answer under its key
unfoldable pub store_workflow :
    Store → ℕ → String → Applied → Result (Store × WorkflowApplyResult) StoreError
store_workflow s workflow_id key (w, err e) = err (Tables.transition e)
store_workflow s workflow_id key (w, ok events) = do
  s' ← remember key (of_workflow workflow_id events w) (record s {
    workflows = Map.insert workflow_id w s.workflows;
    events = s.events ++ map (workflow_event workflow_id) events;
  })
  ok (s', record { duplicate = false; events = events; state = w })

abbrev pub apply_new :
    Store
    → ℕ
    → String
    → WorkflowCommand
    → Option WorkflowApplyResult
    → Result (Store × WorkflowApplyResult) StoreError
apply_new s workflow_id key command (some recalled) = ok (s, recalled)
apply_new s workflow_id key command none =
    store_workflow s workflow_id key (apply (state_of workflow_id s.workflows) command)

unfoldable pub apply_workflow_command :
    Store → ℕ → String → WorkflowCommand → Store × Result WorkflowApplyResult StoreError
apply_workflow_command s workflow_id key command = commit s (do
  guard s key
  fail_if (is_reserved workflow_id s.reservations) delivery_in_progress
  recalled ← recall_workflow workflow_id (recall key s.remembered)
  apply_new s workflow_id key command recalled)

unfoldable pub is_held_by : Reservation → ℕ → ℕ → Bool
is_held_by r workflow_id candidate_digest =
    (r.workflow_id == workflow_id) && (r.candidate_digest == candidate_digest)

abbrev pub opt_eq : Option ℕ → Option ℕ → Bool
opt_eq none none = true
opt_eq (some a) (some b) = a == b
opt_eq _ _ = false

-- `INSERT … ON CONFLICT(candidate_id) DO NOTHING`; the workflow is unique in the table
unfoldable pub reserve_candidate_delivery : Store → ℕ → ℕ → ℕ → Store × Result Bool StoreError
reserve_candidate_delivery s workflow_id candidate_id digest =
    if not s.read_write then (s, err read_only) else (elim (Map.get candidate_id s.reservations) [
      | some r ↦ (s, if is_held_by r workflow_id digest then ok true else err aggregate_conflict)
      | none ↦ if is_reserved workflow_id s.reservations then (s, err sqlite) else (
        record s {
          reservations =
              Map.insert candidate_id
                (record {
                  workflow_id = workflow_id;
                  candidate_digest = digest;
                  journal_digest = none;
                })
                s.reservations;
        },
        ok false,
      )
    ])

unfoldable pub release_candidate_delivery : Store → ℕ → ℕ → ℕ → Store × Result (Unit {0}) StoreError
release_candidate_delivery s workflow_id candidate_id digest =
    if not s.read_write then (s, err read_only) else (elim (Map.get candidate_id s.reservations) [
      | none ↦ (s, err aggregate_conflict)
      | some r ↦
          if is_held_by r workflow_id digest
          then (record s { reservations = Map.remove candidate_id s.reservations }, ok tt)
          else (s, err aggregate_conflict)
    ])

-- the journal of a reservation changes only from the digest that the caller expects
unfoldable pub bind_candidate_delivery_journal :
    Store → ℕ → ℕ → ℕ → Option ℕ → ℕ → Store × Result (Unit {0}) StoreError
bind_candidate_delivery_journal s workflow_id candidate_id digest expected journal =
    elim (Map.get candidate_id s.reservations) [
      | none ↦ (s, err aggregate_conflict)
      | some r ↦
          if is_held_by r workflow_id digest && opt_eq expected r.journal_digest
          then (
            record s {
              reservations =
                  Map.insert candidate_id (record r { journal_digest = some journal })
                    s.reservations;
            },
            ok tt,
          )
          else (s, err aggregate_conflict)
    ]

-- the row that is compared with the delivery; a journal that is NULL is no text
abbrev pub check_reservation : ℕ → ℕ → ℕ → Option Reservation → Result (Unit {0}) StoreError
check_reservation workflow_id digest journal none = err aggregate_conflict
check_reservation workflow_id digest journal (some r) =
    if opt_eq none r.journal_digest
    then err sqlite
    else fail_if (not (is_held_by r workflow_id digest && opt_eq (some journal) r.journal_digest))
        aggregate_conflict

abbrev pub release_row :
    ℕ → Store × WorkflowApplyResult → Result (Store × WorkflowApplyResult) StoreError
release_row candidate_id (s, result) =
    ok (record s { reservations = Map.remove candidate_id s.reservations }, result)

-- the workflow of a reservation is delivered past the check of `apply_workflow_command`
unfoldable pub deliver_reserved_candidate :
    Store → ℕ → ℕ → ℕ → ℕ → String → Store × Result WorkflowApplyResult StoreError
deliver_reserved_candidate s workflow_id candidate_id digest journal key = commit s (do
  guard s key
  check_reservation workflow_id digest journal (Map.get candidate_id s.reservations)
  w ← ok_or (Map.get workflow_id s.workflows) sqlite
  stored ← store_workflow s workflow_id key (apply w deliver)
  release_row candidate_id stored)

abbrev pub load_workflow : Store → ℕ → Option Workflow
load_workflow s workflow_id = Map.get workflow_id s.workflows
