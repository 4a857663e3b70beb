-- ===== src/Core/Verdict.antt =====
-- The arbiter's verdict, crates/workflow-core/src/verdict.rs. Requirement ids, evidence ids and
-- digests are compared only, and sets are walked in their order: numbers stand for them.
pub mod Sound
mod Examples
use opencode_cycle_plugin.Prelude.{
  ℕ, Bool, true, false, not, ◌&&◌, ◌||◌, Option, none, some, List, [], ◌∷◌, String, Result, ok, err,
  ◌>>=◌, ◌>>◌, fail_if, ok_or, ◌==◌, if◌then◌else◌, is_empty, any, is_some,
}
use opencode_cycle_plugin.Prelude.Map
use opencode_cycle_plugin.Prelude.Map.{Map}
use opencode_cycle_plugin.Prelude.Set
use opencode_cycle_plugin.Core.Workflow.{RepairTarget}

pub data ArbiterDecision : Type 0 where
  approved rejected : ArbiterDecision

pub data RequirementStatus : Type 0 where
  satisfied unsatisfied : RequirementStatus

pub record RequirementDecision : Type 0 where
  pub requirement_id : ℕ
  pub status : RequirementStatus
  pub evidence_ids : List ℕ

pub data FindingSeverity : Type 0 where
  critical high medium low info : FindingSeverity

abbrev pub is_severe : FindingSeverity → Bool
is_severe critical = true
is_severe high = true
is_severe _ = false

pub record Finding : Type 0 where
  pub severity : FindingSeverity
  pub summary : String
  pub evidence_ids : List ℕ

pub record ArbiterVerdict : Type 0 where
  pub decision : ArbiterDecision
  pub candidate_digest : ℕ
  pub requirements : List RequirementDecision
  pub findings : List Finding
  pub repair_target : Option RepairTarget

pub data VerdictValidationError : Type 0 where
  duplicate_requirement missing_requirement unexpected_requirement : ℕ → VerdictValidationError
  missing_evidence unknown_evidence unmet_requirement : ℕ → VerdictValidationError
  severe_finding approval_has_repair_target missing_repair_target : VerdictValidationError
  rejection_without_basis : VerdictValidationError

abbrev pub is_unmet : RequirementDecision → Bool
is_unmet d = elim d.status [ satisfied ↦ false | unsatisfied ↦ true ]

abbrev pub is_approval : ArbiterDecision → Bool
is_approval approved = true
is_approval rejected = false

-- `validate_evidence`
unfoldable pub validate_evidence : List ℕ → List ℕ → Result (Unit {0}) VerdictValidationError
validate_evidence [] available = ok tt
validate_evidence (evidence ∷ rest) available =
    let later = validate_evidence rest available in
    if Set.contains evidence available then later else err (unknown_evidence evidence)

-- the first loop of `validate`
unfoldable pub index_decisions :
    List ℕ
    → Map RequirementDecision
    → List RequirementDecision
    → Result (Map RequirementDecision) VerdictValidationError
index_decisions required decisions [] = ok decisions
index_decisions required decisions (d ∷ rest) =
    let later = index_decisions required (Map.insert d.requirement_id d decisions) rest in
    if Map.contains_key d.requirement_id decisions
    then err (duplicate_requirement d.requirement_id)
    else if not (Set.contains d.requirement_id required)
    then err (unexpected_requirement d.requirement_id)
    else later

-- one round of the second loop
unfoldable pub check_requirement :
    ArbiterDecision
    → List ℕ
    → Map RequirementDecision
    → ℕ
    → Result (Unit {0}) VerdictValidationError
check_requirement decision available decisions requirement_id = do
  d ← ok_or (Map.get requirement_id decisions) (missing_requirement requirement_id)
  fail_if (is_empty d.evidence_ids) (missing_evidence requirement_id)
  validate_evidence d.evidence_ids available
  fail_if (is_approval decision && is_unmet d) (unmet_requirement requirement_id)

unfoldable pub check_requirements :
    ArbiterDecision
    → List ℕ
    → Map RequirementDecision
    → List ℕ
    → Result (Unit {0}) VerdictValidationError
check_requirements decision available decisions [] = ok tt
check_requirements decision available decisions (requirement_id ∷ rest) = do
  check_requirement decision available decisions requirement_id
  check_requirements decision available decisions rest

unfoldable pub check_findings : List ℕ → List Finding → Result (Unit {0}) VerdictValidationError
check_findings available [] = ok tt
check_findings available (finding ∷ rest) = do
  validate_evidence finding.evidence_ids available
  check_findings available rest

-- the closing `match self.decision`
unfoldable pub check_decision :
    ArbiterDecision → ArbiterVerdict → Result (Unit {0}) VerdictValidationError
check_decision approved v = do
  fail_if (is_some v.repair_target) approval_has_repair_target
  fail_if (any (λ f. is_severe f.severity) v.findings) severe_finding
check_decision rejected v = do
  fail_if (not (is_some v.repair_target)) missing_repair_target
  fail_if (not (any is_unmet v.requirements || not (is_empty v.findings))) rejection_without_basis

unfoldable pub validate :
    ArbiterVerdict → List ℕ → List ℕ → Result (Unit {0}) VerdictValidationError
validate v required available = do
  decisions ← index_decisions required [] v.requirements
  check_requirements v.decision available decisions required
  check_findings available v.findings
  check_decision v.decision v
