-- ===== src/Core/Workflow/Completion.antt =====
-- A way to completion from every live state (crates/workflow-core/src/workflow.rs).
use opencode_cycle_plugin.Prelude.{
  ◌<◌, ◌≡◌, refl, Bool, true, false, Option, none, some, List, [], ◌∷◌, ◌++◌, arith, u8_max,
}
use opencode_cycle_plugin.Core.Workflow.{
  WorkflowMode, quick, RepairTarget, WorkflowState, WorkflowCommand, Workflow, apply, run,
  complete_intake, route, architecture_accepted, candidate_ready, verification_passed,
  reviews_ready, approve, deliver, begin_repair, resume, resume_infrastructure, resume_blocked,
  is_terminal,
}
use opencode_cycle_plugin.Core.Workflow.Invariant.{IsSound, base}
use opencode_cycle_plugin.Core.Workflow.Steps.{run_from-IsSound}
use opencode_cycle_plugin.Core.Workflow.Gates.{review_gate}

-- the commands from each state on
abbrev from_arbitration : List WorkflowCommand
from_arbitration = approve true ∷ deliver ∷ []

abbrev from_verification : Option WorkflowMode → List WorkflowCommand
from_verification m = verification_passed ∷ (review_gate m ++ from_arbitration)

abbrev from_execution : Option WorkflowMode → List WorkflowCommand
from_execution m = candidate_ready 0 ∷ from_verification m

abbrev from_repair : Option WorkflowMode → Option RepairTarget → List WorkflowCommand
from_repair m (some RepairTarget.architecture) =
    begin_repair ∷ architecture_accepted ∷ from_execution m
from_repair m _ = begin_repair ∷ from_execution m

abbrev from_state : WorkflowState → Option WorkflowMode → Option RepairTarget → List WorkflowCommand
from_state WorkflowState.intake m t = complete_intake ∷ route quick ∷ from_execution (some quick)
from_state WorkflowState.routing m t = route quick ∷ from_execution (some quick)
from_state WorkflowState.quick_execution m t = from_execution m
from_state WorkflowState.architecture m t = architecture_accepted ∷ from_execution m
from_state WorkflowState.execution m t = from_execution m
from_state WorkflowState.verification m t = from_verification m
from_state WorkflowState.independent_reviews m t = reviews_ready ∷ from_arbitration
from_state WorkflowState.arbitration m t = from_arbitration
from_state WorkflowState.delivery m t = deliver ∷ []
from_state WorkflowState.repair m t = from_repair m t
from_state _ m t = []

-- what ends a pause or a block
abbrev unsuspend : WorkflowState → Option WorkflowState → List WorkflowCommand
unsuspend WorkflowState.paused _ = resume ∷ []
unsuspend WorkflowState.blocked none = resume_blocked 1 ∷ []
unsuspend WorkflowState.blocked (some _) = resume_infrastructure ∷ []
unsuspend _ _ = []

abbrev live_base : WorkflowState → WorkflowState
live_base WorkflowState.blocked = WorkflowState.repair
live_base s = s

pub completion_path : Workflow → List WorkflowCommand
completion_path w =
    unsuspend w.state w.infrastructure_blocked_from
    ++ from_state (live_base (base w)) w.mode w.repair_target

abbrev Completes : Workflow → List WorkflowCommand → Type 0
Completes w cs = (run w cs).state ≡ WorkflowState.completed

-- a state from which work goes on without a resume
abbrev is_working : WorkflowState → Bool
is_working WorkflowState.paused = false
is_working WorkflowState.blocked = false
is_working s = true

-- every state in which work goes on
working-Completes :
    (w : Workflow)
    → IsSound w
    → is_working w.state ≡ true
    → is_terminal w.state ≡ false
    → Completes w (from_state w.state w.mode w.repair_target)
unfolding apply run
working-Completes w h e t = ground arith

run-append : (w : Workflow) (cs ds : List WorkflowCommand) → run w (cs ++ ds) ≡ run (run w cs) ds
unfolding run
run-append w [] ds = refl
run-append w (c ∷ cs) ds = run-append (apply w c).0 cs ds

abbrev remaining : Workflow → List WorkflowCommand
remaining w = from_state w.state w.mode w.repair_target

abbrev resumed : Workflow → Workflow
resumed w = run w (unsuspend w.state w.infrastructure_blocked_from)

-- the workflow that the unsuspending command leaves
resumed_works :
    (w : Workflow)
    → IsSound w
    → is_terminal w.state ≡ false
    → (w.state ≡ WorkflowState.blocked
        → w.infrastructure_blocked_from ≡ none
        → w.max_repair_cycles < u8_max)
    → ((resumed w).state ≡ live_base (base w))
      × ((resumed w).mode ≡ w.mode)
      × ((resumed w).repair_target ≡ w.repair_target)
      × (is_working (resumed w).state ≡ true)
      × (is_terminal (resumed w).state ≡ false)
unfolding apply run
resumed_works w h t room = ground arith

-- From every sound workflow that is neither completed nor cancelled, the commands of
-- `completion_path` lead to Completed, provided that a workflow blocked by an exhausted budget has a
-- budget below 255.
pub completion_path-completes :
    (w : Workflow)
    → IsSound w
    → is_terminal w.state ≡ false
    → (w.state ≡ WorkflowState.blocked
        → w.infrastructure_blocked_from ≡ none
        → w.max_repair_cycles < u8_max)
    → (run w (completion_path w)).state ≡ WorkflowState.completed
unfolding completion_path
completion_path-completes w h t room =
    let (state, mode, target, working, live) = resumed_works w h t room in
    let sound = run_from-IsSound w (unsuspend w.state w.infrastructure_blocked_from) h in
    let same : remaining (resumed w) ≡ from_state (live_base (base w)) w.mode w.repair_target =
      cc in
    rw run-append (rw same at (working-Completes (resumed w) sound working live))
