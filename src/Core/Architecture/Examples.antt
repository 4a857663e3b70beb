-- ===== src/Core/Architecture/Examples.antt =====
-- A plan of three tasks for two requirements.
use opencode_cycle_plugin.Prelude.{ℕ, ◌≡◌, refl, some, List, [], ◌∷◌, ok, err, String, Result}
use opencode_cycle_plugin.Core.Dag.Examples.{validate-diamond}
use opencode_cycle_plugin.Core.Architecture.{
  ArchitecturePlan, ArchitectureError, PlannedTask, Requirement, unknown_requirement, validate,
  check_texts, index_requirements, cover_tasks, cover, covers, put, valid_text, valid_key,
  validate_texts, dag_nodes, check_coverage, text_before,
}
use opencode_cycle_plugin.Core.Architecture.Acceptance.{
  IsAccepted, validate-IsAccepted, validate_plan_total,
}

abbrev requirement : String → Requirement
requirement id = record { acceptance_criteria = "works" ∷ []; id = id; statement = "it works" }

abbrev task : ℕ → List ℕ → String → PlannedTask
task id dependencies requirement_id = record {
  acceptance_criteria = "works" ∷ [];
  dependencies = dependencies;
  id = id;
  objective = "make it work";
  requirement_ids = requirement_id ∷ [];
  title = "work";
  verification_commands = "cargo test" ∷ [];
  write_scopes = (b's' ∷ id ∷ []) ∷ [];
}

abbrev plan : ArchitecturePlan
plan = record {
  assumptions = [];
  integration_checks = "end to end" ∷ [];
  request_digest = 0;
  requirements = requirement "R-2" ∷ requirement "R-1" ∷ [];
  risks = [];
  tasks = task 3 (5 ∷ []) "R-1" ∷ task 2 (3 ∷ 5 ∷ []) "R-2" ∷ task 5 [] "R-1" ∷ [];
}

accepted : validate plan ≡ some (ok plan)
unfolding validate check_texts index_requirements cover_tasks cover covers put valid_text valid_key
    validate_texts dag_nodes check_coverage text_before
accepted = rw validate-diamond refl

validate-IsAccepted_example : IsAccepted plan plan
validate-IsAccepted_example = validate-IsAccepted plan plan accepted

validate_plan_total_example :
    (r : Result ArchitecturePlan ArchitectureError) × (validate plan ≡ some r)
validate_plan_total_example = validate_plan_total plan

-- a task for a requirement that the plan does not have
stray :
    validate (record plan { tasks = task 3 [] "R-3" ∷ [] }) ≡ some (err (unknown_requirement "R-3"))
unfolding validate check_texts index_requirements cover_tasks cover covers put valid_text valid_key
    validate_texts dag_nodes check_coverage text_before
stray = refl
