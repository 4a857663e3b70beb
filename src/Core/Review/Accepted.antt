-- ===== src/Core/Review/Accepted.antt =====
-- What a review that passes validation says (crates/workflow-core/src/review.rs).
use opencode_cycle_plugin.Prelude.{
  ℕ, true, false, not, none, List, [], ◌∷◌, arith, ◌≡◌, refl, ◌↔◌, ◌⊎◌, inl, inr, ok, is_empty, any,
  all, is_some, All, Bool-cases, Result-cases,
}
use opencode_cycle_plugin.Prelude.Map
use opencode_cycle_plugin.Prelude.Map.{Map}
use opencode_cycle_plugin.Prelude.Set
use opencode_cycle_plugin.Core.Verdict.{RequirementDecision, Finding, is_severe, is_unmet}
use opencode_cycle_plugin.Core.Verdict.Sound.{
  Available, decision_on, Once, Fresh, or_on, insert-Fresh, insert-Fresh_inv, none-Fresh,
}
use opencode_cycle_plugin.Core.Review.{
  ReviewDecision, approved, rejected, ReviewVerdict, is_reviewer, validate_evidence,
  index_decisions, check_requirements, check_findings, check_met, check_decision, validate,
}

validate_evidence-Available :
    (ids available : List ℕ) → (validate_evidence ids available ≡ ok tt) ↔ Available available ids
unfolding validate_evidence
validate_evidence-Available [] available = ground arith
validate_evidence-Available (id ∷ ids) available =
    let rest = validate_evidence-Available ids available in
    elim (Bool-cases (Set.contains id available)) [ inl e ↦ ground arith | inr e ↦ ground arith ]

-- some evidence, all of it available
abbrev pub IsBacked : List ℕ → List ℕ → Type 0
IsBacked available ids = (is_empty ids ≡ false) × Available available ids

abbrev DecisionsBacked : List ℕ → List RequirementDecision → Type 0
DecisionsBacked available ds = All (λ d. IsBacked available d.evidence_ids) ds

record Indexed (required available : List ℕ) (m : Map RequirementDecision)
    (ds : List RequirementDecision) (out : Map RequirementDecision) : Type 0 where
  once : Once required ds
  fresh : Fresh m ds
  backed : DecisionsBacked available ds
  same : (r : ℕ) → Map.get r out ≡ or_on (Map.get r m) (decision_on r ds)

index_decisions-Indexed :
    (required available : List ℕ) (m : Map RequirementDecision) (ds : List RequirementDecision)
    (out : Map RequirementDecision)
    → index_decisions required available m ds ≡ ok out
    → Indexed required available m ds out
unfolding index_decisions decision_on
index_decisions-Indexed required available m [] out e = record {
  once = tt;
  fresh = tt;
  backed = tt;
  same = λ r. ground arith;
}
index_decisions-Indexed required available m (d ∷ ds) out e =
    let evidence = validate_evidence-Available d.evidence_ids available in
    let valid : validate_evidence d.evidence_ids available ≡ ok tt = ground arith in
    let h =
      index_decisions-Indexed required available (Map.insert d.requirement_id d m) ds out
        (ground arith) in
    let (rest, apart) = insert-Fresh_inv d m ds h.fresh in
    let head : Map.get d.requirement_id m ≡ none = ground arith in
    record {
      once = (apart, ground arith, h.once);
      fresh = (head, rest);
      backed = ((ground arith, evidence.0 valid), h.backed);
      same = λ r.
          let put = Map.get-insert d.requirement_id r d m in let later = h.same r in ground arith;
    }

index_decisions_accepts :
    (required available : List ℕ) (m : Map RequirementDecision) (ds : List RequirementDecision)
    → Once required ds
    → DecisionsBacked available ds
    → Fresh m ds
    → (out : Map RequirementDecision) × (index_decisions required available m ds ≡ ok out)
unfolding index_decisions
index_decisions_accepts required available m [] once backed fresh = (m, refl)
index_decisions_accepts required available m (d ∷ ds) once backed fresh =
    let (out, e) =
      index_decisions_accepts required available (Map.insert d.requirement_id d m) ds once.2
        backed.1 (insert-Fresh d m ds fresh.1 once.0) in
    let valid = (validate_evidence-Available d.evidence_ids available).1 backed.0.1 in
    let some_evidence = backed.0.0 in
    let head = fresh.0 in let known = once.1 in (out, ground arith)

abbrev pub AreDecided : List RequirementDecision → List ℕ → Type 0
AreDecided ds required = All (λ r. is_some (decision_on r ds) ≡ true) required

check_requirements_decided :
    (ds : List RequirementDecision) (m : Map RequirementDecision) (rs : List ℕ)
    → ((r : ℕ) → Map.get r m ≡ decision_on r ds)
    → (check_requirements m rs ≡ ok tt) ↔ AreDecided ds rs
unfolding check_requirements
check_requirements_decided ds m [] e = (λ h. tt, λ h. refl)
check_requirements_decided ds m (r ∷ rs) e =
    let here = e r in
    let rest = check_requirements_decided ds m rs e in
    elim (Bool-cases (Map.contains_key r m)) [ inl k ↦ ground arith | inr k ↦ ground arith ]

check_findings-IsBacked :
    (available : List ℕ) (fs : List Finding)
    → (check_findings available fs ≡ ok tt) ↔ All (λ f. IsBacked available f.evidence_ids) fs
unfolding check_findings
check_findings-IsBacked available [] = (λ h. tt, λ h. refl)
check_findings-IsBacked available (f ∷ fs) =
    let one = validate_evidence-Available f.evidence_ids available in
    let rest = check_findings-IsBacked available fs in
    (
      λ h. ((ground arith, one.0 (ground arith)), rest.0 (ground arith)),
      λ h. let a = one.1 h.0.1 in let b = rest.1 h.1 in let c = h.0.0 in ground arith,
    )

check_met_iff : (ds : List RequirementDecision) → (check_met ds ≡ ok tt) ↔ (any is_unmet ds ≡ false)
unfolding check_met
check_met_iff [] = ground arith
check_met_iff (d ∷ ds) = let rest = check_met_iff ds in ground arith

all-any : (ds : List RequirementDecision) → all (λ d. not (is_unmet d)) ds ≡ not (any is_unmet ds)
all-any [] = refl
all-any (d ∷ ds) = ground (arith, all-any ds)

-- an approval asks for no repair, leaves nothing unmet and has no severe finding; a rejection asks
-- for a repair, and has a finding or an unmet requirement
abbrev pub IsReviewed : ReviewDecision → ReviewVerdict → Type 0
IsReviewed approved v =
    (is_some v.repair_target ≡ false)
    × (any is_unmet v.requirements ≡ false)
    × (any (λ f. is_severe f.severity) v.findings ≡ false)
IsReviewed rejected v =
    (is_some v.repair_target ≡ true)
    × ((is_empty v.findings ≡ false) ⊎ (any is_unmet v.requirements ≡ true))

check_decision-IsReviewed :
    (d : ReviewDecision) (v : ReviewVerdict) → (check_decision d v ≡ ok tt) ↔ IsReviewed d v
unfolding check_decision
check_decision-IsReviewed approved v = let met = check_met_iff v.requirements in ground arith
check_decision-IsReviewed rejected v = let same = all-any v.requirements in ground arith

abbrev pub IsAccepted : List ℕ → List ℕ → ReviewVerdict → Type 0
IsAccepted required available v =
    (is_reviewer v.role ≡ true)
    × Once required v.requirements
    × All (λ d. IsBacked available d.evidence_ids) v.requirements
    × AreDecided v.requirements required
    × All (λ f. IsBacked available f.evidence_ids) v.findings
    × IsReviewed v.decision v

-- Validation accepts a review exactly when: its role is one of the two reviewers; no requirement is
-- decided twice, each one decided is required, and each required one is decided; every decision and
-- every finding has evidence, all of it available; an approval asks for no repair, leaves nothing
-- unmet and has no severe finding; and a rejection asks for a repair, and has a finding or an unmet
-- requirement.
pub validate-IsAccepted_iff :
    (v : ReviewVerdict) (required available : List ℕ)
    → (validate v required available ≡ ok tt) ↔ IsAccepted required available v
unfolding validate
validate-IsAccepted_iff v required available = (
  λ h. elim (Result-cases (index_decisions required available [] v.requirements)) [
    | inr (x, e) ↦ absurd (ground arith)
    | inl (m, e) ↦
        let indexed = index_decisions-Indexed required available [] v.requirements m e in
        let same : (r : ℕ) → Map.get r m ≡ decision_on r v.requirements =
          λ r. unfold Map.get in indexed.same r in
        let listed = check_requirements_decided v.requirements m required same in
        let found = check_findings-IsBacked available v.findings in
        let decided = check_decision-IsReviewed v.decision v in
        (
          ground arith,
          indexed.once,
          indexed.backed,
          listed.0 (ground arith),
          found.0 (ground arith),
          decided.0 (ground arith),
        )
  ],
  λ h.
      let (reviewer, once, backed, listed, found, reviewed) = h in
      let (m, e) =
        index_decisions_accepts required available [] v.requirements once backed
          (none-Fresh v.requirements) in
      let indexed = index_decisions-Indexed required available [] v.requirements m e in
      let same : (r : ℕ) → Map.get r m ≡ decision_on r v.requirements =
        λ r. unfold Map.get in indexed.same r in
      let a = (check_requirements_decided v.requirements m required same).1 listed in
      let b = (check_findings-IsBacked available v.findings).1 found in
      let c = (check_decision-IsReviewed v.decision v).1 reviewed in ground arith,
)
