-- ===== src/Core/Review/Examples.antt =====
-- The theorem on reviews at a concrete review.
use opencode_cycle_plugin.Prelude.{◌≡◌, refl, ◌↔◌, some, [], ◌∷◌, ok, err}
use opencode_cycle_plugin.Prelude.Map
use opencode_cycle_plugin.Prelude.Set
use opencode_cycle_plugin.Core.Dag.{functional_reviewer, executor}
use opencode_cycle_plugin.Core.Workflow.{RepairTarget}
use opencode_cycle_plugin.Core.Verdict.{unsatisfied}
use opencode_cycle_plugin.Core.Review.{
  ReviewVerdict, rejected, validate, index_decisions, check_requirements, check_findings,
  check_decision, validate_evidence, invalid_role,
}
use opencode_cycle_plugin.Core.Review.Accepted.{IsAccepted, validate-IsAccepted_iff}

abbrev review : ReviewVerdict
review = record {
  candidate_digest = 9;
  decision = rejected;
  findings = [];
  repair_target = some RepairTarget.execution;
  requirements = record { requirement_id = 1; status = unsatisfied; evidence_ids = 7 ∷ [] } ∷ [];
  role = functional_reviewer;
}

review_accepted : validate review (1 ∷ []) (5 ∷ 7 ∷ []) ≡ ok tt
unfolding validate index_decisions check_requirements check_findings check_decision
    validate_evidence Map.get Map.insert Set.contains
review_accepted = refl

executor_refused : validate (record review { role = executor }) (1 ∷ []) (7 ∷ []) ≡ err invalid_role
unfolding validate
executor_refused = refl

validate-IsAccepted_iff_example :
    (validate review (1 ∷ []) (5 ∷ 7 ∷ []) ≡ ok tt) ↔ IsAccepted (1 ∷ []) (5 ∷ 7 ∷ []) review
validate-IsAccepted_iff_example = validate-IsAccepted_iff review (1 ∷ []) (5 ∷ 7 ∷ [])
