-- ===== src/Core/Verdict/Sound.antt =====
-- What a verdict that passes validation says (crates/workflow-core/src/verdict.rs).
use opencode_cycle_plugin.Prelude.{
  ℕ, true, false, ◌&&◌, Option, none, some, List, [], ◌∷◌, arith, ◌≡◌, refl, subst, ◌↔◌, ◌⊎◌, inl,
  inr, Result, ok, ◌>>◌, ◌==◌, if◌then◌else◌, is_empty, any, is_some, All, Bool-cases, Option-cases,
  Result-cases,
}
use opencode_cycle_plugin.Prelude.Map
use opencode_cycle_plugin.Prelude.Map.{Map}
use opencode_cycle_plugin.Prelude.Set
use opencode_cycle_plugin.Core.Verdict.{
  ArbiterDecision, approved, rejected, RequirementDecision, Finding, is_severe, ArbiterVerdict,
  is_unmet, is_approval, VerdictValidationError, validate_evidence, index_decisions,
  check_requirement, check_requirements, check_findings, check_decision, validate,
}

abbrev pub Available : List ℕ → List ℕ → Type 0
Available available ids = All (λ id. Set.contains id available ≡ true) ids

pub validate_evidence_iff :
    (ids available : List ℕ) → (validate_evidence ids available ≡ ok tt) ↔ Available available ids
unfolding validate_evidence
validate_evidence_iff [] available = ground arith
validate_evidence_iff (id ∷ ids) available =
    let rest = validate_evidence_iff ids available in
    elim (Bool-cases (Set.contains id available)) [ inl e ↦ ground arith | inr e ↦ ground arith ]

-- the first decision on a requirement
unfoldable pub decision_on : ℕ → List RequirementDecision → Option RequirementDecision
decision_on r [] = none
decision_on r (d ∷ ds) = if d.requirement_id == r then some d else decision_on r ds

-- the ids are different, and each is required
abbrev pub Once : List ℕ → List RequirementDecision → Type 0
Once required [] = Unit
Once required (d ∷ ds) =
    (decision_on d.requirement_id ds ≡ none)
    × (Set.contains d.requirement_id required ≡ true)
    × Once required ds

abbrev pub Fresh : Map RequirementDecision → List RequirementDecision → Type 0
Fresh m ds = All (λ d. Map.get d.requirement_id m ≡ none) ds

abbrev pub or_on :
    Option RequirementDecision → Option RequirementDecision → Option RequirementDecision
or_on none o = o
or_on (some d) o = some d

pub insert-Fresh :
    (d : RequirementDecision) (m : Map RequirementDecision) (ds : List RequirementDecision)
    → Fresh m ds
    → decision_on d.requirement_id ds ≡ none
    → Fresh (Map.insert d.requirement_id d m) ds
unfolding decision_on
insert-Fresh d m [] fresh apart = tt
insert-Fresh d m (x ∷ ds) fresh apart =
    let put = Map.get-insert d.requirement_id x.requirement_id d m in
    let head = fresh.0 in (ground arith, insert-Fresh d m ds fresh.1 (ground arith))

pub insert-Fresh_inv :
    (d : RequirementDecision) (m : Map RequirementDecision) (ds : List RequirementDecision)
    → Fresh (Map.insert d.requirement_id d m) ds
    → Fresh m ds × (decision_on d.requirement_id ds ≡ none)
unfolding decision_on
insert-Fresh_inv d m [] fresh = (tt, refl)
insert-Fresh_inv d m (x ∷ ds) fresh =
    let put = Map.get-insert d.requirement_id x.requirement_id d m in
    let (rest, apart) = insert-Fresh_inv d m ds fresh.1 in
    let head = fresh.0 in ((ground arith, rest), ground arith)

record Indexed (required : List ℕ) (m : Map RequirementDecision) (ds : List RequirementDecision)
    (out : Map RequirementDecision) : Type 0 where
  once : Once required ds
  fresh : Fresh m ds
  same : (r : ℕ) → Map.get r out ≡ or_on (Map.get r m) (decision_on r ds)

index_decisions_sound :
    (required : List ℕ) (m : Map RequirementDecision) (ds : List RequirementDecision)
    (out : Map RequirementDecision)
    → index_decisions required m ds ≡ ok out
    → Indexed required m ds out
unfolding index_decisions decision_on
index_decisions_sound required m [] out e = record {
  once = tt;
  fresh = tt;
  same = λ r. ground arith;
}
index_decisions_sound required m (d ∷ ds) out e =
    let h =
      index_decisions_sound required (Map.insert d.requirement_id d m) ds out (ground arith) in
    let (rest, apart) = insert-Fresh_inv d m ds h.fresh in
    let head : Map.get d.requirement_id m ≡ none = ground arith in
    record {
      once = (apart, ground arith, h.once);
      fresh = (head, rest);
      same = λ r.
          let put = Map.get-insert d.requirement_id r d m in let later = h.same r in ground arith;
    }

index_decisions_complete :
    (required : List ℕ) (m : Map RequirementDecision) (ds : List RequirementDecision)
    → Once required ds
    → Fresh m ds
    → (out : Map RequirementDecision) × (index_decisions required m ds ≡ ok out)
unfolding index_decisions
index_decisions_complete required m [] once fresh = (m, refl)
index_decisions_complete required m (d ∷ ds) once fresh =
    let (out, e) =
      index_decisions_complete required (Map.insert d.requirement_id d m) ds once.2
        (insert-Fresh d m ds fresh.1 once.0) in
    let head = fresh.0 in let known = once.1 in (out, ground arith)

-- a decision with evidence, all of it available; and satisfied, in an approval
abbrev pub IsGrounded : ArbiterVerdict → List ℕ → RequirementDecision → Type 0
IsGrounded v available d =
    (is_empty d.evidence_ids ≡ false)
    × Available available d.evidence_ids
    × ((is_approval v.decision && is_unmet d) ≡ false)

abbrev pub Met : ArbiterVerdict → List ℕ → ℕ → Type 0
Met v available r =
    (d : RequirementDecision) × (decision_on r v.requirements ≡ some d) × IsGrounded v available d

check_requirement_iff :
    (v : ArbiterVerdict) (available : List ℕ) (m : Map RequirementDecision) (r : ℕ)
    → Map.get r m ≡ decision_on r v.requirements
    → (check_requirement v.decision available m r ≡ ok tt) ↔ Met v available r
unfolding check_requirement
check_requirement_iff v available m r e = elim (Option-cases (decision_on r v.requirements)) [
  | inl missing ↦ (ground arith, λ h. let found = h.1 in ground arith)
  | inr (d, found) ↦
      let evidence = validate_evidence_iff d.evidence_ids available in
      (
        λ h. (d, found, (ground arith, ground arith, ground arith)),
        λ h.
            let same : h.0 ≡ d = let other = h.1 in ground arith in
            let (has, given, met) = subst (IsGrounded v available) same h.2 in
            let valid = evidence.1 given in ground arith,
      )
]

check_requirements_iff :
    (v : ArbiterVerdict) (available : List ℕ) (m : Map RequirementDecision) (rs : List ℕ)
    → ((r : ℕ) → Map.get r m ≡ decision_on r v.requirements)
    → (check_requirements v.decision available m rs ≡ ok tt) ↔ All (Met v available) rs
unfolding check_requirements
check_requirements_iff v available m [] e = (λ h. tt, λ h. refl)
check_requirements_iff v available m (r ∷ rs) e =
    let one = check_requirement_iff v available m r (e r) in
    let rest = check_requirements_iff v available m rs e in
    (
      λ h. (one.0 (ground arith), rest.0 (ground arith)),
      λ h. let a = one.1 h.0 in let b = rest.1 h.1 in ground arith,
    )

check_findings_iff :
    (available : List ℕ) (fs : List Finding)
    → (check_findings available fs ≡ ok tt) ↔ All (λ f. Available available f.evidence_ids) fs
unfolding check_findings
check_findings_iff available [] = (λ h. tt, λ h. refl)
check_findings_iff available (f ∷ fs) =
    let one = validate_evidence_iff f.evidence_ids available in
    let rest = check_findings_iff available fs in
    (
      λ h. (one.0 (ground arith), rest.0 (ground arith)),
      λ h. let a = one.1 h.0 in let b = rest.1 h.1 in ground arith,
    )

-- an approval asks for no repair and has no severe finding; a rejection asks for a repair, and has a
-- finding or an unmet requirement
abbrev pub IsDecided : ArbiterDecision → ArbiterVerdict → Type 0
IsDecided approved v =
    (is_some v.repair_target ≡ false) × (any (λ f. is_severe f.severity) v.findings ≡ false)
IsDecided rejected v =
    (is_some v.repair_target ≡ true)
    × ((any is_unmet v.requirements ≡ true) ⊎ (is_empty v.findings ≡ false))

check_decision_iff :
    (d : ArbiterDecision) (v : ArbiterVerdict) → (check_decision d v ≡ ok tt) ↔ IsDecided d v
unfolding check_decision
check_decision_iff approved v = ground arith
check_decision_iff rejected v = ground arith

pub none-Fresh : (ds : List RequirementDecision) → Fresh [] ds
unfolding Map.get
none-Fresh [] = tt
none-Fresh (d ∷ ds) = (refl, none-Fresh ds)

-- the checks that follow the first loop
abbrev checks_after :
    ArbiterVerdict
    → List ℕ
    → List ℕ
    → Map RequirementDecision
    → Result (Unit {0}) VerdictValidationError
checks_after v required available m = do
  check_requirements v.decision available m required
  check_findings available v.findings
  check_decision v.decision v

checks_after_iff :
    (v : ArbiterVerdict) (required available : List ℕ) (m : Map RequirementDecision)
    → ((r : ℕ) → Map.get r m ≡ decision_on r v.requirements)
    → (checks_after v required available m ≡ ok tt) ↔ (
        All (Met v available) required
        × All (λ f. Available available f.evidence_ids) v.findings
        × IsDecided v.decision v)
checks_after_iff v required available m e =
    let met = check_requirements_iff v available m required e in
    let found = check_findings_iff available v.findings in
    let decided = check_decision_iff v.decision v in
    (
      λ h. (met.0 (ground arith), found.0 (ground arith), decided.0 (ground arith)),
      λ h. let a = met.1 h.0 in let b = found.1 h.1 in let c = decided.1 h.2 in ground arith,
    )

-- Validation accepts a verdict exactly when: no requirement is decided twice, and each one decided
-- is required; each required one is decided, with evidence, all of it available, and in an approval
-- it is satisfied; the evidence of every finding is available; an approval asks for no repair and
-- has no severe finding; and a rejection asks for a repair, and has an unmet requirement or a finding.
pub validate_iff :
    (v : ArbiterVerdict) (required available : List ℕ)
    → (validate v required available ≡ ok tt) ↔ (
        Once required v.requirements
        × All (Met v available) required
        × All (λ f. Available available f.evidence_ids) v.findings
        × IsDecided v.decision v)
unfolding validate
validate_iff v required available = (
  λ h. elim (Result-cases (index_decisions required [] v.requirements)) [
    | inr (x, e) ↦ absurd (ground arith)
    | inl (m, e) ↦
        let indexed = index_decisions_sound required [] v.requirements m e in
        let same : (r : ℕ) → Map.get r m ≡ decision_on r v.requirements =
          λ r. unfold Map.get in indexed.same r in
        let after = checks_after_iff v required available m same in
        let (met, found, decided) = after.0 (ground arith) in (indexed.once, met, found, decided)
  ],
  λ h.
      let (m, e) =
        index_decisions_complete required [] v.requirements h.0 (none-Fresh v.requirements) in
      let indexed = index_decisions_sound required [] v.requirements m e in
      let same : (r : ℕ) → Map.get r m ≡ decision_on r v.requirements =
        λ r. unfold Map.get in indexed.same r in
      let after = (checks_after_iff v required available m same).1 (h.1, h.2, h.3) in ground arith,
)
