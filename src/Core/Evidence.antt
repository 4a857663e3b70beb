-- ===== src/Core/Evidence.antt =====
-- Evidence records, crates/workflow-core/src/evidence.rs. Ids, digests and times are compared only:
-- numbers stand for them.
pub mod Accepted
mod Examples
use opencode_cycle_plugin.Prelude.{
  ℕ, zero, Bool, true, false, not, ◌&&◌, ◌||◌, Option, none, some, String, is_blank, ltb, is_some,
  if◌then◌else◌, Result, ok, err, ◌>>=◌, ◌>>◌, fail_if,
}
use opencode_cycle_plugin.Prelude.Int.{ℤ, pos, negsuc}

pub data EvidenceKind : Type 0 where
  command test build lint database browser security inspection «package» : EvidenceKind

pub data EvidenceStatus : Type 0 where
  passed failed skipped : EvidenceStatus

pub record EvidenceRecord : Type 0 where
  pub id : ℕ
  pub candidate_digest : ℕ
  pub kind : EvidenceKind
  pub invocation : String
  pub tool : String
  pub tool_version : String
  pub started_at : ℕ
  pub finished_at : ℕ
  pub exit_code : Option ℤ
  pub output_digest : ℕ
  pub status : EvidenceStatus
  pub skip_reason : Option String

pub data EvidenceValidationError : Type 0 where
  invalid_time_range missing_invocation invalid_exit_code : EvidenceValidationError
  missing_skip_reason unexpected_skip_reason : EvidenceValidationError

abbrev pub is_inspection : EvidenceKind → Bool
is_inspection inspection = true
is_inspection _ = false

-- `exit_code == Some(0)`
abbrev pub is_zero : Option ℤ → Bool
is_zero (some (pos zero)) = true
is_zero _ = false

-- `exit_code.is_none_or(|code| code == 0)`
abbrev pub is_none_or_zero : Option ℤ → Bool
is_none_or_zero none = true
is_none_or_zero code = is_zero code

-- `is_none_or(|reason| reason.trim().is_empty())`
abbrev pub is_none_or_blank : Option String → Bool
is_none_or_blank none = true
is_none_or_blank (some reason) = is_blank reason

-- the `match` on the status, its guards in order
unfoldable pub check_status :
    EvidenceStatus → EvidenceRecord → Result (Unit {0}) EvidenceValidationError
check_status passed r = do
  fail_if (not (is_inspection r.kind) && not (is_zero r.exit_code)) invalid_exit_code
  fail_if (is_some r.skip_reason) unexpected_skip_reason
check_status failed r = do
  fail_if (is_none_or_zero r.exit_code) invalid_exit_code
  fail_if (is_some r.skip_reason) unexpected_skip_reason
check_status skipped r = fail_if (is_none_or_blank r.skip_reason) missing_skip_reason

unfoldable pub validate : EvidenceRecord → Result (Unit {0}) EvidenceValidationError
validate r = do
  fail_if (ltb r.finished_at r.started_at) invalid_time_range
  fail_if (is_blank r.invocation || is_blank r.tool) missing_invocation
  check_status r.status r
