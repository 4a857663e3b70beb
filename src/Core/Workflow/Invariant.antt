-- ===== src/Core/Workflow/Invariant.antt =====
-- What holds of a workflow between two commands (crates/workflow-core/src/workflow.rs).
use opencode_cycle_plugin.Prelude.{
  ℕ, ◌≤◌, ◌<◌, ◌≡◌, ◌≢◌, ◌⊎◌, Bool, true, false, Option, some, arith, u8_max, is_some,
}
use opencode_cycle_plugin.Core.Workflow.{
  WorkflowState, WorkflowCommand, Workflow, can_pause, can_block_infrastructure, new, apply,
  complete_intake,
}

-- The state that a pause or an infrastructure block suspends, and else the state itself.
abbrev pub suspended : WorkflowState → Option WorkflowState → Option WorkflowState → WorkflowState
suspended WorkflowState.paused (some s) _ = s
suspended WorkflowState.blocked _ (some s) = s
suspended s _ _ = s

abbrev pub base : Workflow → WorkflowState
base w = suspended w.state w.paused_from w.infrastructure_blocked_from

-- the states at which a candidate has been selected
abbrev pub has_candidate : WorkflowState → Bool
has_candidate WorkflowState.verification = true
has_candidate WorkflowState.independent_reviews = true
has_candidate WorkflowState.arbitration = true
has_candidate WorkflowState.delivery = true
has_candidate WorkflowState.completed = true
has_candidate _ = false

-- the states before the mode is chosen, and `Cancelled`, which is reached from them
abbrev pub may_lack_mode : WorkflowState → Bool
may_lack_mode WorkflowState.intake = true
may_lack_mode WorkflowState.routing = true
may_lack_mode WorkflowState.cancelled = true
may_lack_mode _ = false

-- the states that wait for a repair
abbrev pub awaits_repair : WorkflowState → Bool
awaits_repair WorkflowState.repair = true
awaits_repair WorkflowState.blocked = true
awaits_repair _ = false

-- the states in which the repair budget may be used up
abbrev pub may_be_exhausted : WorkflowState → Bool
may_be_exhausted WorkflowState.blocked = true
may_be_exhausted WorkflowState.cancelled = true
may_be_exhausted _ = false

pub record IsSound (w : Workflow) : Type 0 where
  pub paused_marked : w.state ≡ WorkflowState.paused → is_some w.paused_from ≡ true
  pub mark_paused : is_some w.paused_from ≡ true → w.state ≡ WorkflowState.paused
  pub pausable : can_pause (base w) ≡ false → w.state ≢ WorkflowState.paused
  pub blockable :
      w.state ≡ WorkflowState.blocked
      → is_some w.infrastructure_blocked_from ≡ true
      → can_block_infrastructure (base w) ≡ true
  pub mark_blocked :
      is_some w.infrastructure_blocked_from ≡ true
      → (w.state ≡ WorkflowState.blocked) ⊎ (w.state ≡ WorkflowState.cancelled)
  pub candidate : has_candidate (base w) ≡ true → is_some w.current_candidate ≡ true
  pub mode_known : may_lack_mode (base w) ≡ false → is_some w.mode ≡ true
  pub target : awaits_repair (base w) ≡ true → is_some w.repair_target ≡ true
  pub budget : w.repair_cycles ≤ w.max_repair_cycles
  pub budget_left : may_be_exhausted (base w) ≡ false → w.repair_cycles < w.max_repair_cycles
  pub word : w.max_repair_cycles ≤ u8_max

-- A new workflow with a non-zero u8 budget is sound.
pub new-IsSound : (n : ℕ) → 0 < n → n ≤ u8_max → IsSound (new n)
unfolding new
new-IsSound n h k = ground arith

-- Every command, accepted or refused, keeps a sound workflow sound.
pub apply-IsSound : (w : Workflow) (c : WorkflowCommand) → IsSound w → IsSound (apply w c).0
unfolding apply
apply-IsSound w complete_intake h = ground arith
apply-IsSound w _ h = ground arith
