-- ===== src/Core/Evidence/Accepted.antt =====
-- Which evidence is accepted (crates/workflow-core/src/evidence.rs).
use opencode_cycle_plugin.Prelude.{
  zero, suc, inl, inr, Option-cases, true, false, Option, none, some, String, is_blank, is_some,
  ◌≡◌, ◌≢◌, ◌↔◌, ◌⊎◌, ◌≤◌, arith, ok,
}
use opencode_cycle_plugin.Prelude.Int.{ℤ, pos, negsuc}
use opencode_cycle_plugin.Core.Evidence.{
  EvidenceKind, inspection, is_inspection, EvidenceStatus, passed, failed, skipped, EvidenceRecord,
  validate, check_status, is_zero, is_none_or_zero,
}

-- a pass exits with 0 or inspects, a failure exits with another code, and only what was skipped
-- has a reason for it
abbrev pub IsConsistent : EvidenceStatus → EvidenceRecord → Type 0
IsConsistent passed r =
    ((r.kind ≡ inspection) ⊎ (r.exit_code ≡ some (pos 0))) × (r.skip_reason ≡ none)
IsConsistent failed r =
    (is_some r.exit_code ≡ true) × (r.exit_code ≢ some (pos 0)) × (r.skip_reason ≡ none)
IsConsistent skipped r =
    (reason : String) × (r.skip_reason ≡ some reason) × (is_blank reason ≡ false)

is_zero_iff : (code : Option ℤ) → (is_zero code ≡ true) ↔ (code ≡ some (pos 0))
is_zero_iff none = ground arith
is_zero_iff (some (pos zero)) = ground arith
is_zero_iff (some (pos (suc n))) = ground arith
is_zero_iff (some (negsuc n)) = ground arith

is_inspection_iff : (k : EvidenceKind) → (is_inspection k ≡ true) ↔ (k ≡ inspection)
is_inspection_iff inspection = ground arith
is_inspection_iff _ = ground arith

is_none_or_zero_iff :
    (code : Option ℤ)
    → (is_none_or_zero code ≡ false) ↔ ((is_some code ≡ true) × (code ≢ some (pos 0)))
is_none_or_zero_iff none = ground arith
is_none_or_zero_iff (some (pos zero)) = ground arith
is_none_or_zero_iff (some (pos (suc n))) = ground arith
is_none_or_zero_iff (some (negsuc n)) = ground arith

check_status_iff :
    (s : EvidenceStatus) (r : EvidenceRecord) → (check_status s r ≡ ok tt) ↔ IsConsistent s r
unfolding check_status
check_status_iff passed r =
    let zero_exit = is_zero_iff r.exit_code in
    let inspects = is_inspection_iff r.kind in ground arith
check_status_iff failed r = let code = is_none_or_zero_iff r.exit_code in ground arith
check_status_iff skipped r = elim (Option-cases r.skip_reason) [
  | inl missing ↦ (ground arith, λ h. let e = h.1 in ground arith)
  | inr (reason, e) ↦
      (λ h. (reason, e, ground arith), λ h. let a = h.1 in let b = h.2 in ground arith)
]

-- Evidence is accepted exactly when it does not end before it starts, its invocation and tool are not
-- blank, and its status agrees with its exit code and skip reason: a pass exits with 0 or is an
-- inspection, a failure exits with another code, and a reason that is not blank is given when
-- the check was skipped, and none otherwise.
pub validate-IsConsistent_iff :
    (r : EvidenceRecord)
    → (validate r ≡ ok tt) ↔ (
        (r.started_at ≤ r.finished_at)
        × (is_blank r.invocation ≡ false)
        × (is_blank r.tool ≡ false)
        × IsConsistent r.status r)
unfolding validate
validate-IsConsistent_iff r =
    let status = check_status_iff r.status r in
    (
      λ h. (ground arith, ground arith, ground arith, status.0 (ground arith)),
      λ h. let a = h.0 in let b = h.1 in let c = h.2 in let d = status.1 h.3 in ground arith,
    )
