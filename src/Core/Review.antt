-- ===== src/Core/Review.antt =====
-- The verdict of an independent reviewer, crates/workflow-core/src/review.rs, over the parts that
-- crates/workflow-core/src/verdict.rs shares with it.
pub mod Accepted
mod Examples
use opencode_cycle_plugin.Prelude.{
  ℕ, Bool, true, false, not, ◌&&◌, ◌||◌, Option, none, some, List, [], ◌∷◌, String, Result, ok, err,
  ◌>>=◌, ◌>>◌, fail_if, ok_or, ◌==◌, if◌then◌else◌, is_empty, any, all, is_some,
}
use opencode_cycle_plugin.Prelude.Map
use opencode_cycle_plugin.Prelude.Map.{Map}
use opencode_cycle_plugin.Prelude.Set
use opencode_cycle_plugin.Core.Workflow.{RepairTarget}
use opencode_cycle_plugin.Core.Dag.{
  WorkflowRole, functional_reviewer, security_architecture_reviewer,
}
use opencode_cycle_plugin.Core.Verdict.{RequirementDecision, Finding, is_severe, is_unmet}

pub data ReviewDecision : Type 0 where
  approved rejected : ReviewDecision

pub record ReviewVerdict : Type 0 where
  pub candidate_digest : ℕ
  pub decision : ReviewDecision
  pub findings : List Finding
  pub repair_target : Option RepairTarget
  pub requirements : List RequirementDecision
  pub role : WorkflowRole

-- what lacks evidence: a requirement, or `"finding"`
pub data Lacking : Type 0 where
  requirement : ℕ → Lacking
  finding : Lacking

pub data ReviewValidationError : Type 0 where
  approval_has_repair_target invalid_role missing_repair_target : ReviewValidationError
  rejection_without_basis severe_finding : ReviewValidationError
  duplicate_requirement missing_requirement unexpected_requirement : ℕ → ReviewValidationError
  unknown_evidence unmet_requirement : ℕ → ReviewValidationError
  missing_evidence : Lacking → ReviewValidationError

abbrev pub is_reviewer : WorkflowRole → Bool
is_reviewer functional_reviewer = true
is_reviewer security_architecture_reviewer = true
is_reviewer _ = false

unfoldable pub validate_evidence : List ℕ → List ℕ → Result (Unit {0}) ReviewValidationError
validate_evidence [] available = ok tt
validate_evidence (id ∷ rest) available =
    let later = validate_evidence rest available in
    if Set.contains id available then later else err (unknown_evidence id)

-- the loop over the decisions
unfoldable pub index_decisions :
    List ℕ
    → List ℕ
    → Map RequirementDecision
    → List RequirementDecision
    → Result (Map RequirementDecision) ReviewValidationError
index_decisions required available decisions [] = ok decisions
index_decisions required available decisions (d ∷ rest) =
    let later = index_decisions required available (Map.insert d.requirement_id d decisions) rest in
    if not (Set.contains d.requirement_id required)
    then err (unexpected_requirement d.requirement_id)
    else if Map.contains_key d.requirement_id decisions
    then err (duplicate_requirement d.requirement_id)
    else if is_empty d.evidence_ids
    then err (missing_evidence (requirement d.requirement_id))
    else validate_evidence d.evidence_ids available >> later

unfoldable pub check_requirements :
    Map RequirementDecision → List ℕ → Result (Unit {0}) ReviewValidationError
check_requirements decisions [] = ok tt
check_requirements decisions (requirement_id ∷ rest) =
    let later = check_requirements decisions rest in
    if Map.contains_key requirement_id decisions
    then later
    else err (missing_requirement requirement_id)

unfoldable pub check_findings : List ℕ → List Finding → Result (Unit {0}) ReviewValidationError
check_findings available [] = ok tt
check_findings available (f ∷ rest) = do
  fail_if (is_empty f.evidence_ids) (missing_evidence finding)
  validate_evidence f.evidence_ids available
  check_findings available rest

-- the first unmet requirement
unfoldable pub check_met : List RequirementDecision → Result (Unit {0}) ReviewValidationError
check_met [] = ok tt
check_met (d ∷ rest) =
    let later = check_met rest in
    if is_unmet d then err (unmet_requirement d.requirement_id) else later

-- the closing `match self.decision`
unfoldable pub check_decision :
    ReviewDecision → ReviewVerdict → Result (Unit {0}) ReviewValidationError
check_decision approved v = do
  fail_if (is_some v.repair_target) approval_has_repair_target
  check_met v.requirements
  fail_if (any (λ f. is_severe f.severity) v.findings) severe_finding
check_decision rejected v = do
  fail_if (not (is_some v.repair_target)) missing_repair_target
  fail_if (is_empty v.findings && all (λ d. not (is_unmet d)) v.requirements)
      rejection_without_basis

unfoldable pub validate : ReviewVerdict → List ℕ → List ℕ → Result (Unit {0}) ReviewValidationError
validate v required available = do
  fail_if (not (is_reviewer v.role)) invalid_role
  decisions ← index_decisions required available [] v.requirements
  check_requirements decisions required
  check_findings available v.findings
  check_decision v.decision v
