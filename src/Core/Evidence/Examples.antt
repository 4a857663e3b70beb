-- ===== src/Core/Evidence/Examples.antt =====
-- The theorem on evidence at concrete records.
use opencode_cycle_plugin.Prelude.{◌≡◌, ◌↔◌, ◌≤◌, refl, none, some, false, ok, err, is_blank}
use opencode_cycle_plugin.Prelude.Int.{pos}
use opencode_cycle_plugin.Core.Evidence.{
  EvidenceRecord, test, failed, validate, check_status, invalid_exit_code,
}
use opencode_cycle_plugin.Core.Evidence.Accepted.{IsConsistent, validate-IsConsistent_iff}

abbrev test_run : EvidenceRecord
test_run = record {
  id = 1;
  candidate_digest = 2;
  kind = test;
  invocation = "cargo test";
  tool = "cargo";
  tool_version = "1";
  started_at = 10;
  finished_at = 12;
  exit_code = some (pos 101);
  output_digest = 3;
  status = failed;
  skip_reason = none;
}

failure_accepted : validate test_run ≡ ok tt
unfolding validate check_status
failure_accepted = refl

failure_with_zero : validate (record test_run { exit_code = some (pos 0) }) ≡ err invalid_exit_code
unfolding validate check_status
failure_with_zero = refl

validate-IsConsistent_iff_example : (validate test_run ≡ ok tt) ↔ (
    (10 ≤ 12)
    × (is_blank "cargo test" ≡ false)
    × (is_blank "cargo" ≡ false)
    × IsConsistent failed test_run)
validate-IsConsistent_iff_example = validate-IsConsistent_iff test_run
