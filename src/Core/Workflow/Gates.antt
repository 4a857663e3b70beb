-- ===== src/Core/Workflow/Gates.antt =====
-- No delivery without the gates: what was accepted since the current candidate was selected
-- (crates/workflow-core/src/workflow.rs).
use opencode_cycle_plugin.Prelude.{
  ℕ, ◌<◌, ◌≤◌, ◌≡◌, refl, ◌⊎◌, inl, inr, true, false, Option, none, some, List, [], ◌∷◌, ◌++◌,
  arith, if◌then◌else◌, is_ok, u8_max, Occur, Occur-append_right, Occur-snoc, done, keep,
  Bool-cases,
}
use opencode_cycle_plugin.Core.Workflow.{
  CandidateId, WorkflowMode, full, WorkflowState, WorkflowCommand, Workflow, new, apply, run,
  complete_intake, verification_passed, reviews_ready, deliver, candidate_ready, approve,
}
use opencode_cycle_plugin.Core.Workflow.Invariant.{IsSound, base, new-IsSound, apply-IsSound}
use opencode_cycle_plugin.Core.Workflow.Steps.{run-IsSound}

-- The log of the commands accepted since the last accepted CandidateReady, that one included.
abbrev pub extend : List WorkflowCommand → WorkflowCommand → List WorkflowCommand
extend log (candidate_ready c) = candidate_ready c ∷ []
extend log c = log ++ c ∷ []

pub since_candidate : Workflow → List WorkflowCommand → List WorkflowCommand → List WorkflowCommand
since_candidate w log [] = log
since_candidate w log (c ∷ cs) =
    since_candidate (apply w c).0 (if is_ok (apply w c).1 then extend log c else log) cs

abbrev pub review_gate : Option WorkflowMode → List WorkflowCommand
review_gate (some full) = reviews_ready ∷ []
review_gate _ = []

-- What has to have been accepted, in this order, for the candidate `c` at each state.
abbrev pub required : WorkflowState → Option WorkflowMode → CandidateId → List WorkflowCommand
required WorkflowState.verification m c = candidate_ready c ∷ []
required WorkflowState.independent_reviews m c = candidate_ready c ∷ verification_passed ∷ []
required WorkflowState.arbitration m c =
    (candidate_ready c ∷ verification_passed ∷ []) ++ review_gate m
required WorkflowState.delivery m c =
    ((candidate_ready c ∷ verification_passed ∷ []) ++ review_gate m) ++ approve true ∷ []
required WorkflowState.completed m c =
    (((candidate_ready c ∷ verification_passed ∷ []) ++ review_gate m) ++ approve true ∷ [])
    ++ deliver ∷ []
required _ m c = []

abbrev pub gates : Workflow → List WorkflowCommand
gates w = elim w.current_candidate [ none ↦ [] | some c ↦ required (base w) w.mode c ]

-- One command against the required list: the gates are dropped, kept, or met one further.
abbrev Advance : Workflow → WorkflowCommand → Type 0
Advance w c =
    (gates (apply w c).0 ≡ [])
    ⊎ ((gates (apply w c).0 ≡ gates w)
        ⊎ (is_ok (apply w c).1 ≡ true) × (gates (apply w c).0 ≡ gates w ++ c ∷ []))

gates_step : (w : Workflow) (c : WorkflowCommand) → IsSound w → Advance w c
unfolding apply
gates_step w complete_intake h = ground arith
gates_step w _ h = ground arith

-- A new candidate starts the list again.
gates_candidate :
    (w : Workflow) (c : CandidateId)
    → let (w', r) = apply w (candidate_ready c) in
      ((is_ok r ≡ true) × (gates w' ≡ candidate_ready c ∷ []))
      ⊎ ((is_ok r ≡ false) × (gates w' ≡ gates w))
unfolding apply
gates_candidate w c = ground arith

abbrev logged : Workflow → WorkflowCommand → List WorkflowCommand → List WorkflowCommand
logged w c log = if is_ok (apply w c).1 then extend log c else log

Occur-next :
    (w : Workflow) (c : WorkflowCommand) (log : List WorkflowCommand)
    → Advance w c
    → extend log c ≡ log ++ c ∷ []
    → Occur (gates w) log
    → Occur (gates (apply w c).0) (logged w c log)
Occur-next w c log (inl e) x o = rw e done
Occur-next w c log (inr (inl e)) x o = rw e (elim (Bool-cases (is_ok (apply w c).1)) [
  | inl accepted ↦ rw (accepted, x) (Occur-append_right (c ∷ []) o)
  | inr refused ↦ rw refused o
])
Occur-next w c log (inr (inr (accepted, e))) x o = rw (e, accepted, x) (Occur-snoc c o)

Occur-candidate :
    (w : Workflow) (c : CandidateId) (log : List WorkflowCommand)
    → Occur (gates w) log
    → Occur (gates (apply w (candidate_ready c)).0) (logged w (candidate_ready c) log)
Occur-candidate w c log o = elim (gates_candidate w c) [
  | inl (accepted, e) ↦ rw (e, accepted) (keep (candidate_ready c) done)
  | inr (refused, e) ↦ rw (e, refused) o
]

Occur-logged :
    (w : Workflow) (c : WorkflowCommand) (log : List WorkflowCommand)
    → IsSound w
    → Occur (gates w) log
    → Occur (gates (apply w c).0) (logged w c log)
Occur-logged w complete_intake log h o = Occur-next w _ log (gates_step w _ h) refl o
Occur-logged w (candidate_ready c) log h o = Occur-candidate w c log o
Occur-logged w _ log h o = Occur-next w _ log (gates_step w _ h) refl o

Occur-run :
    (w : Workflow) (log cs : List WorkflowCommand)
    → IsSound w
    → Occur (gates w) log
    → Occur (gates (run w cs)) (since_candidate w log cs)
unfolding run since_candidate
Occur-run w log [] h o = o
Occur-run w log (c ∷ cs) h o =
    Occur-run (apply w c).0 (logged w c log) cs (apply-IsSound w c h) (Occur-logged w c log h o)

-- Whatever commands are sent to a new workflow with a budget between 1 and 255: at every state the
-- gates that the state requires of the current candidate were accepted, in their order, after the
-- candidate was last selected. For a completed workflow these are the candidate's selection, a
-- passed verification, the reviews if the mode is Full, an approval with the mandatory gates passed,
-- and the delivery.
pub run_gated :
    (n : ℕ) (cs : List WorkflowCommand)
    → 0 < n
    → n ≤ u8_max
    → Occur (gates (run (new n) cs)) (since_candidate (new n) [] cs)
run_gated n cs h k = Occur-run (new n) [] cs (new-IsSound n h k) (unfold new in done)

abbrev pub delivery_gates : Option WorkflowMode → CandidateId → List WorkflowCommand
delivery_gates m c = required WorkflowState.completed m c

completed_gates :
    (w : Workflow)
    → IsSound w
    → w.state ≡ WorkflowState.completed
    → (c : CandidateId) × (w.current_candidate ≡ some c) × (gates w ≡ delivery_gates w.mode c)
completed_gates w h e = ground arith

-- For a new workflow with a budget from 1 to 255 and any commands: if it ends Completed, it has a
-- current candidate, and among the commands accepted since that candidate was last selected there
-- are, in this order, its selection, a passed verification, the completed reviews if the mode is
-- Full, an approval with the mandatory gates passed, and the delivery.
pub completed_gated :
    (n : ℕ) (cs : List WorkflowCommand)
    → 0 < n
    → n ≤ u8_max
    → (run (new n) cs).state ≡ WorkflowState.completed
    → (c : CandidateId) × ((run (new n) cs).current_candidate ≡ some c)
      × Occur (delivery_gates (run (new n) cs).mode c) (since_candidate (new n) [] cs)
completed_gated n cs h k e =
    let (c, current, same) = completed_gates (run (new n) cs) (run-IsSound n cs h k) e in
    (c, current, rw same at (run_gated n cs h k))
