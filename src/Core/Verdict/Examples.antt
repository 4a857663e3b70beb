-- ===== src/Core/Verdict/Examples.antt =====
-- The theorems on verdicts at a concrete verdict.
use opencode_cycle_plugin.Prelude.{◌≡◌, refl, ◌↔◌, none, [], ◌∷◌, All, ok}
use opencode_cycle_plugin.Prelude.Map
use opencode_cycle_plugin.Prelude.Set
use opencode_cycle_plugin.Core.Verdict.{
  ArbiterVerdict, approved, satisfied, low, validate, index_decisions, check_requirement,
  check_requirements, check_findings, check_decision, validate_evidence,
}
use opencode_cycle_plugin.Core.Verdict.Sound.{Once, Met, Available, IsDecided, validate_iff}

abbrev verdict : ArbiterVerdict
verdict = record {
  decision = approved;
  candidate_digest = 9;
  requirements =
      record { requirement_id = 2; status = satisfied; evidence_ids = 5 ∷ 7 ∷ [] }
      ∷ record { requirement_id = 1; status = satisfied; evidence_ids = 7 ∷ [] }
      ∷ [];
  findings = record { severity = low; summary = "style"; evidence_ids = 5 ∷ [] } ∷ [];
  repair_target = none;
}

verdict_accepted : validate verdict (1 ∷ 2 ∷ []) (5 ∷ 7 ∷ []) ≡ ok tt
unfolding validate index_decisions check_requirements check_requirement check_findings
    check_decision validate_evidence Map.get Map.insert Set.contains
verdict_accepted = refl

validate_iff_example : (validate verdict (1 ∷ 2 ∷ []) (5 ∷ 7 ∷ []) ≡ ok tt) ↔ (
    Once (1 ∷ 2 ∷ []) verdict.requirements
    × All (Met verdict (5 ∷ 7 ∷ [])) (1 ∷ 2 ∷ [])
    × All (λ f. Available (5 ∷ 7 ∷ []) f.evidence_ids) verdict.findings
    × IsDecided verdict.decision verdict)
validate_iff_example = validate_iff verdict (1 ∷ 2 ∷ []) (5 ∷ 7 ∷ [])
