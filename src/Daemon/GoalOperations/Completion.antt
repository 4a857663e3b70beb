-- ===== src/Daemon/GoalOperations/Completion.antt =====
-- Which controls of a goal the daemon answers, and how, crates/workflowd/src/goal.rs.
use opencode_cycle_plugin.Prelude.{
  ℕ, ◌≤◌, true, false, Option, none, some, List, [], ◌∷◌, Result, ok, err, String, ◌≡◌, ◌↔◌, refl,
  arith, is_some, is_blank, byte_len, any, ◌==◌, Option-cases, Result-cases, inl, inr,
}
use opencode_cycle_plugin.Prelude.Map
use opencode_cycle_plugin.Core.Goal.{Goal}
use opencode_cycle_plugin.Store.Tables.{Store, StoreError}
use opencode_cycle_plugin.Store.Goals.{GoalApplyResult, load_goal, read_goal, apply_goal_command}
use opencode_cycle_plugin.Store.Documents.{Database, GoalPlanRecord}
use opencode_cycle_plugin.Store.Plans.{goal_workflows, latest_plan}
use opencode_cycle_plugin.Daemon.Goal.{
  GoalControlAction, Refusal, mark_ready, block, request_completion, approve_completion,
  reject_completion, abort, require_owner, validate_control, command, is_missing,
}
use opencode_cycle_plugin.Daemon.Goal.Milestones.{IsCompletable}
use opencode_cycle_plugin.Daemon.Goal.Acceptance.{validate_completion_iff}
use opencode_cycle_plugin.Daemon.GoalOperations.{control, checked, on_store}

-- the row of a goal names the project, and its document is read as the goal
abbrev pub IsOwn : Store → ℕ → ℕ → Goal → Type 0
IsOwn s project_id goal_id goal =
    (stored : Goal) × (Map.get goal_id s.goals ≡ some (project_id, stored))
    × (read_goal stored ≡ ok goal)

require_owner_iff :
    (s : Store) (project_id goal_id : ℕ) (goal : Goal)
    → (require_owner s project_id goal_id ≡ ok goal) ↔ IsOwn s project_id goal_id goal
unfolding require_owner load_goal
require_owner_iff s project_id goal_id goal = elim (Option-cases (Map.get goal_id s.goals)) [
  | inl missing ↦ (λ h. absurd (ground arith), λ (stored, e, h). ground arith)
  | inr ((owner, stored), e) ↦ elim (Result-cases (read_goal stored)) [
    | inr (x, bad) ↦ (λ h. absurd (ground arith), λ (stored', e', h). ground arith)
    | inl (read, good) ↦
        (λ h. (stored, ground arith, ground arith), λ (stored', e', h). ground arith)
  ]
]

-- evidence with an approval, and only then
abbrev pub HasEvidence : GoalControlAction → Option ℕ → Type 0
HasEvidence approve_completion evidence = (digest : ℕ) × (evidence ≡ some digest)
HasEvidence _ evidence = evidence ≡ none

-- a text that is not blank, of 4096 bytes at most
abbrev pub IsExplained : Option String → Type 0
IsExplained reason =
    (text : String) × (reason ≡ some text) × (is_blank text ≡ false) × (byte_len text ≤ 4096)

abbrev pub HasReason : GoalControlAction → Option String → Type 0
HasReason abort reason = IsExplained reason
HasReason block reason = IsExplained reason
HasReason reject_completion reason = IsExplained reason
HasReason _ reason = Unit

abbrev pub HasPlan : GoalControlAction → ℕ → List GoalPlanRecord → Type 0
HasPlan mark_ready goal_id plans = any (λ plan. plan.goal_id == goal_id) plans ≡ true
HasPlan _ goal_id plans = Unit

abbrev pub HasLinks : GoalControlAction → ℕ → Database → Type 0
HasLinks request_completion goal_id d = IsCompletable d.store (goal_workflows goal_id d.links)
HasLinks approve_completion goal_id d = IsCompletable d.store (goal_workflows goal_id d.links)
HasLinks _ goal_id d = Unit

-- what the daemon asks of a control before it tries it
abbrev pub IsAllowed : Database → ℕ → GoalControlAction → Option ℕ → Option String → Type 0
IsAllowed d goal_id action evidence reason =
    HasEvidence action evidence
    × HasReason action reason
    × HasPlan action goal_id d.plans
    × HasLinks action goal_id d

latest_plan-any :
    (goal_id : ℕ) (plans : List GoalPlanRecord)
    → is_some (latest_plan goal_id plans) ≡ any (λ plan. plan.goal_id == goal_id) plans
unfolding latest_plan
latest_plan-any goal_id [] = refl
latest_plan-any goal_id (plan ∷ plans) = ground (arith, latest_plan-any goal_id plans)

IsExplained-iff : (reason : Option String) → (is_missing reason ≡ false) ↔ IsExplained reason
IsExplained-iff none = ((λ h. absurd (cc)), (λ (text, e, b, h). absurd (cc)))
IsExplained-iff (some text) =
    (λ h. (text, refl, ground (arith, h), ground (arith, h)), λ (text', e, b, h). ground arith)

HasEvidence-iff :
    (evidence : Option ℕ) → (is_some evidence ≡ true) ↔ HasEvidence approve_completion evidence
HasEvidence-iff none = ((λ h. absurd (cc)), (λ (digest, e). absurd (cc)))
HasEvidence-iff (some digest) = ((λ h. (digest, refl)), (λ _. refl))

no_evidence_iff : (evidence : Option ℕ) → (is_some evidence ≡ false) ↔ (evidence ≡ none)
no_evidence_iff none = ((λ h. refl), (λ h. refl))
no_evidence_iff (some digest) = ((λ h. absurd (cc)), (λ h. absurd (cc)))

validate_control_iff :
    (d : Database) (goal_id : ℕ) (action : GoalControlAction) (evidence : Option ℕ)
    (reason : Option String)
    → (validate_control d goal_id action evidence reason ≡ ok tt)
      ↔ IsAllowed d goal_id action evidence reason
unfolding validate_control
validate_control_iff d goal_id approve_completion evidence reason = ground (
  arith,
  HasEvidence-iff evidence,
  validate_completion_iff d.store (goal_workflows goal_id d.links),
)
validate_control_iff d goal_id request_completion evidence reason = ground (
  arith,
  no_evidence_iff evidence,
  validate_completion_iff d.store (goal_workflows goal_id d.links),
)
validate_control_iff d goal_id mark_ready evidence reason =
    ground (arith, no_evidence_iff evidence, latest_plan-any goal_id d.plans)
validate_control_iff d goal_id abort evidence reason =
    ground (arith, no_evidence_iff evidence, IsExplained-iff reason)
validate_control_iff d goal_id block evidence reason =
    ground (arith, no_evidence_iff evidence, IsExplained-iff reason)
validate_control_iff d goal_id reject_completion evidence reason =
    ground (arith, no_evidence_iff evidence, IsExplained-iff reason)
validate_control_iff d goal_id _ evidence reason = ground (arith, no_evidence_iff evidence)

checked_inv {ℓ κ} :
    {A : Type ℓ} {B : Type κ} (d : Database) (r : Result A Refusal)
    (next : A → Database × Result B Refusal) (d' : Database) (b : B)
    → checked d r next ≡ (d', ok b)
    → (a : A) × (r ≡ ok a) × (next a ≡ (d', ok b))
checked_inv d (ok a) next d' b h = (a, refl, h)
checked_inv d (err e) next d' b h = absurd (cc)

on_store_iff :
    (d d' : Database) (q : Store × Result GoalApplyResult StoreError) (r : GoalApplyResult)
    → (on_store d q ≡ (d', ok r)) ↔ ((s : Store) × (q ≡ (s, ok r)) × (d' ≡ record d { store = s }))
on_store_iff d d' (s, ok a) r =
    (λ h. (s, ground (arith, h), ground (arith, h)), λ (s', e, f). ground arith)
on_store_iff d d' (s, err x) r =
    (λ h. absurd (ground (arith, h)), λ (s', e, f). absurd (ground (arith, e)))

-- The daemon answers a control of a goal exactly when the goal's row names the caller's project and
-- its document is read, the action is allowed, and the store accepts the command of the action under
-- the key; the answer is the store's, and only the store changes. An action is allowed when evidence
-- comes with it if it is an approval, and else does not; when a block, a rejection or an abort has a
-- reason of at most 4096 bytes that is not blank; when a goal that is marked ready has a plan; and
-- when a completion, requested or approved, has links whose workflows are all completed or
-- cancelled, with a completed one for each milestone.
pub control_iff :
    (d : Database) (project_id goal_id : ℕ) (key : String) (action : GoalControlAction)
    (evidence : Option ℕ) (reason : Option String) (d' : Database) (r : GoalApplyResult)
    → (control d project_id goal_id key action evidence reason ≡ (d', ok r)) ↔ (
        ((goal : Goal) × IsOwn d.store project_id goal_id goal)
        × IsAllowed d goal_id action evidence reason
        × ((s : Store) × (apply_goal_command d.store goal_id key (command action) ≡ (s, ok r))
            × (d' ≡ record d { store = s })))
unfolding control
control_iff d project_id goal_id key action evidence reason d' r = (
  λ h.
      let (goal, own, h1) = checked_inv d (require_owner d.store project_id goal_id) _ d' r h in
      let (_, allowed, h2) =
        checked_inv d (validate_control d goal_id action evidence reason) _ d' r h1 in
      (
        (goal, (require_owner_iff d.store project_id goal_id goal).0 own),
        (validate_control_iff d goal_id action evidence reason).0 allowed,
        (on_store_iff d d' _ r).0 h2,
      ),
  λ ((goal, own), allowed, stored).
      let owner = (require_owner_iff d.store project_id goal_id goal).1 own in
      let valid = (validate_control_iff d goal_id action evidence reason).1 allowed in
      rw (owner, valid) ((on_store_iff d d' _ r).1 stored),
)
