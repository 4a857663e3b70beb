-- ===== src/Daemon/Repair/Cycles.antt =====
-- What a rejection does to the workflow, crates/workflowd/src/repair.rs.
use opencode_cycle_plugin.Prelude.{
  ℕ, ◌+◌, ◌<◌, Bool, true, false, Option, none, some, List, [], ◌∷◌, Result, ok, String, arith, leb,
  if◌then◌else◌, ◌≡◌, refl, Bool-cases, inl, inr, u8_max, sym, subst,
}
use text.Mathlib.Text.{◌==◌ as str_eq}
use opencode_cycle_plugin.Prelude.Map
use opencode_cycle_plugin.Core.Workflow.{
  Workflow, WorkflowCommand, WorkflowState, WorkflowEvent, RepairTarget, apply, begin_repair,
  reject_with, state_changed, repair_cycle_consumed, verification_rejected, reject,
}
use opencode_cycle_plugin.Store.Tables.{Store, StoreError, recall, guard, is_reserved}
use opencode_cycle_plugin.Store.Workflows.{
  WorkflowApplyResult, apply_workflow_command, state_of, load_workflow,
}
use opencode_cycle_plugin.Store.Fresh.{after_command, apply_workflow_command_fresh}
use opencode_cycle_plugin.Daemon.Repair.{
  RepairKeys, RepairCause, RepairOutcome, infrastructure_failure, implementation_finding,
  plan_defect, route, route_current, route_loaded, rejection_command, outcome, is_current,
  reject_and_begin, begin, answer, is_repair,
}

abbrev pub repair_state : RepairTarget → WorkflowState
repair_state RepairTarget.execution = WorkflowState.execution
repair_state RepairTarget.architecture = WorkflowState.architecture

-- the workflow after its `n`-th rejection
abbrev pub rejected : Workflow → RepairTarget → ℕ → Workflow
rejected w target n = record w {
  repair_cycles = n;
  repair_target = some target;
  state = if leb w.max_repair_cycles n then WorkflowState.blocked else WorkflowState.repair;
}

-- and where `route` leaves it: blocked when the cycles are used up, else back at work
abbrev pub routed : Workflow → RepairTarget → ℕ → Workflow
routed w target n = if leb w.max_repair_cycles n then rejected w target n else record w {
  repair_cycles = n;
  repair_target = none;
  current_candidate = none;
  state = repair_state target;
}

abbrev pub is_under_test : WorkflowState → Bool
is_under_test WorkflowState.verification = true
is_under_test WorkflowState.arbitration = true
is_under_test _ = false

abbrev rejection_events : Workflow → ℕ → List WorkflowEvent
rejection_events w n =
    repair_cycle_consumed n w.max_repair_cycles
    ∷ state_changed w.state
        (if leb w.max_repair_cycles n then WorkflowState.blocked else WorkflowState.repair)
    ∷ []

reject_with_lem :
    (w : Workflow) (target : RepairTarget)
    → w.repair_cycles < u8_max
    → reject_with w target
      ≡ (rejected w target (w.repair_cycles + 1), ok (rejection_events w (w.repair_cycles + 1)))
unfolding reject_with
reject_with_lem w target room = ground arith

reject_lem :
    (w : Workflow) (state : WorkflowState) (target : RepairTarget) (candidate : ℕ)
    → w.state ≡ state
    → is_under_test state ≡ true
    → w.current_candidate ≡ some candidate
    → w.repair_cycles < u8_max
    → (c : WorkflowCommand) × (rejection_command state target ≡ some c)
      × (apply w c ≡ (
        rejected w target (w.repair_cycles + 1),
        ok (rejection_events w (w.repair_cycles + 1)),
      ))
unfolding apply
reject_lem w WorkflowState.verification target candidate e t cur room =
    (verification_rejected target, refl, ground (arith, reject_with_lem w target room))
reject_lem w WorkflowState.arbitration target candidate e t cur room =
    (reject target, refl, ground (arith, reject_with_lem w target room))
reject_lem w _ target candidate e t cur room = absurd (cc)

begin_lem :
    (w : Workflow) (target : RepairTarget) (n : ℕ)
    → leb w.max_repair_cycles n ≡ false
    → (events : List WorkflowEvent) × (apply (rejected w target n) begin_repair
        ≡ (routed w target n, ok events))
unfolding apply
begin_lem w RepairTarget.execution n below =
    (state_changed WorkflowState.repair WorkflowState.execution ∷ [], rw below refl)
begin_lem w RepairTarget.architecture n below =
    (state_changed WorkflowState.repair WorkflowState.architecture ∷ [], rw below refl)

state_of_load :
    (s : Store) (id : ℕ) (w : Workflow) → load_workflow s id ≡ some w → state_of id s.workflows ≡ w
unfolding state_of
state_of_load s id w h = ground (arith, h)

load_after :
    (s : Store) (id : ℕ) (key : String) (w : Workflow) (events : List WorkflowEvent)
    → load_workflow (after_command s id key w events) id ≡ some w
load_after s id key w events = ground (arith, Map.get-insert id id w s.workflows)

-- the commands of `route` are accepted by the store: it may write, the workflow is not reserved, and
-- the two keys are valid, different and not in use
pub record AreOpen (s : Store) (id : ℕ) (rejection repair : String) : Type 0 where
  pub unreserved : is_reserved id s.reservations ≡ false
  pub rejection_valid : guard s rejection ≡ ok tt
  pub repair_valid : guard s repair ≡ ok tt
  pub rejection_free : recall rejection s.remembered ≡ none
  pub repair_free : recall repair s.remembered ≡ none
  pub different : str_eq rejection repair ≡ false

abbrev pub target_of : RepairCause → Option RepairTarget
target_of implementation_finding = some RepairTarget.execution
target_of plan_defect = some RepairTarget.architecture
target_of infrastructure_failure = none

current_lem :
    (w : Workflow) (candidate : ℕ)
    → w.current_candidate ≡ some candidate
    → is_current w.current_candidate candidate ≡ true
current_lem w candidate h = ground (arith, h)

route_current_lem :
    (keys : RepairKeys) (s : Store) (id candidate : ℕ) (w : Workflow) (cause : RepairCause)
    (target : RepairTarget)
    → target_of cause ≡ some target
    → route_current keys id candidate s w cause
      ≡ reject_and_begin keys id candidate s target (rejection_command w.state target)
unfolding route_current
route_current_lem keys s id candidate w implementation_finding target h = ground (arith, h)
route_current_lem keys s id candidate w plan_defect target h = ground (arith, h)
route_current_lem keys s id candidate w infrastructure_failure target h = cc

module _ (keys : RepairKeys) (s : Store) (id candidate : ℕ) (w : Workflow)
    (target : RepairTarget) where
  abbrev pub cycle : ℕ
  cycle = w.repair_cycles + 1

  abbrev pub Routed : Store × Result RepairOutcome StoreError → Type 0
  Routed answer =
      (answer.1 ≡ ok (outcome (routed w target cycle)))
      × (load_workflow answer.0 id ≡ some (routed w target cycle))

  abbrev rejection_key : String
  rejection_key = keys.rejection id candidate target

  abbrev repair_key : String
  repair_key = keys.repair id candidate cycle

  begin_blocked :
      (t : Store) (events : List WorkflowEvent)
      → load_workflow t id ≡ some (rejected w target cycle)
      → leb w.max_repair_cycles cycle ≡ true
      → Routed (
          begin keys id candidate (
            t,
            ok (record { duplicate = false; events = events; state = rejected w target cycle }),
          ))
  begin_blocked t events stored used_up = ground (arith, stored, used_up)

  begin_at :
      (t : Store) (r : WorkflowApplyResult)
      → is_repair r.state.state ≡ true
      → begin keys id candidate (t, ok r)
        ≡ answer (
            apply_workflow_command t id
              (keys.repair id candidate r.state.repair_cycles)
              begin_repair)
  begin_at t r h = rw h refl

  begin_repairs :
      (t : Store) (events : List WorkflowEvent)
      → load_workflow t id ≡ some (rejected w target cycle)
      → leb w.max_repair_cycles cycle ≡ false
      → is_reserved id t.reservations ≡ false
      → guard t repair_key ≡ ok tt
      → recall repair_key t.remembered ≡ none
      → Routed (
          begin keys id candidate (
            t,
            ok (record { duplicate = false; events = events; state = rejected w target cycle }),
          ))
  begin_repairs t events stored room unreserved valid free =
      let (changes, e) = begin_lem w target cycle room in
      let fresh =
        apply_workflow_command_fresh t id repair_key begin_repair (routed w target cycle) changes
          valid unreserved free (rw (state_of_load t id _ stored) e) in
      let last : Routed (answer (apply_workflow_command t id repair_key begin_repair)) =
        rw fresh (refl, load_after t id repair_key (routed w target cycle) changes) in
      subst Routed
        (sym (
          begin_at t
            (record { duplicate = false; events = events; state = rejected w target cycle })
            (rw room refl)))
        last

  -- the rejection, then what is behind it
  reject_and_begin-Routed :
      is_under_test w.state ≡ true
      → load_workflow s id ≡ some w
      → w.current_candidate ≡ some candidate
      → w.repair_cycles < u8_max
      → AreOpen s id rejection_key repair_key
      → Routed (reject_and_begin keys id candidate s target (rejection_command w.state target))
  unfolding recall
  reject_and_begin-Routed under loaded current room free =
      let (c, chosen, e) = reject_lem w w.state target candidate refl under current room in
      let fresh =
        apply_workflow_command_fresh s id rejection_key c (rejected w target cycle)
          (rejection_events w cycle) free.rejection_valid free.unreserved free.rejection_free
          (rw (state_of_load s id w loaded) e) in
      let stored =
        load_after s id rejection_key (rejected w target cycle) (rejection_events w cycle) in
      rw (chosen, fresh)
        (elim (Bool-cases (leb w.max_repair_cycles cycle)) [
          | inl used_up ↦ begin_blocked _ (rejection_events w cycle) stored used_up
          | inr left ↦
              begin_repairs _ (rejection_events w cycle) stored left free.unreserved
                free.repair_valid (rw free.different free.repair_free)
        ])

  -- What `route` does with a candidate that is rejected for the first time, in verification or in
  -- arbitration, when the store takes its commands and the cycle counter has room: the answer and the
  -- stored workflow agree, the cycle is counted, and the workflow is blocked when its cycles are used
  -- up, else back in execution or architecture, as the cause says, without a candidate.
  pub route-Routed :
      (cause : RepairCause)
      → target_of cause ≡ some target
      → load_workflow s id ≡ some w
      → is_under_test w.state ≡ true
      → w.current_candidate ≡ some candidate
      → w.repair_cycles < u8_max
      → AreOpen s id rejection_key repair_key
      → Routed (route keys s id candidate cause)
  unfolding route
  route-Routed cause e loaded under current room free =
      rw
        (
          loaded,
          route_loaded,
          current_lem w candidate current,
          route_current_lem keys s id candidate w cause target e,
        )
        (reject_and_begin-Routed under loaded current room free)
