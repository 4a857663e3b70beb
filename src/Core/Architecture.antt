-- ===== src/Core/Architecture.antt =====
-- The architecture plan, crates/workflow-core/src/architecture.rs, without its digest. Texts are
-- ordered by their code points, as `str` is.
pub mod Coverage
pub mod Acceptance
mod Examples
use Prim.Native.String.{[] as nil, ◌∷◌ as cons}
use Prim.Native.Char.{code}
use text.Mathlib.Text.{◌==◌ as str_eq}
use opencode_cycle_plugin.Prelude.{
  ℕ, Bool, true, false, not, ◌&&◌, ◌||◌, Option, none, some, List, [], ◌∷◌, Result, ok, err, ◌>>=◌,
  ◌>>◌, fail_if, String, byte_len, is_blank, ltb, leb, ◌==◌, if◌then◌else◌, length, is_empty, any,
  all, is_some,
}
use opencode_cycle_plugin.Core.Path.{FilePath}
use opencode_cycle_plugin.Core.Dag
use opencode_cycle_plugin.Core.Dag.{TaskId, TaskNode, TaskDag, DagError, executor}

abbrev pub max_items : ℕ
max_items = 256

abbrev pub max_text_bytes : ℕ
max_text_bytes = 4096

pub record Requirement : Type 0 where
  pub acceptance_criteria : List String
  pub id : String
  pub statement : String

pub record PlannedTask : Type 0 where
  pub acceptance_criteria : List String
  pub dependencies : List TaskId
  pub id : TaskId
  pub objective : String
  pub requirement_ids : List String
  pub title : String
  pub verification_commands : List String
  pub write_scopes : List FilePath

-- `UncheckedPlan` has the same fields.
pub record ArchitecturePlan : Type 0 where
  pub assumptions : List String
  pub integration_checks : List String
  pub request_digest : ℕ
  pub requirements : List Requirement
  pub risks : List String
  pub tasks : List PlannedTask

pub data ArchitectureError : Type 0 where
  dag : DagError → ArchitectureError
  empty_acceptance_criteria empty_integration_checks invalid_requirement : ArchitectureError
  invalid_task limit_exceeded : ArchitectureError
  missing_requirement_coverage unknown_requirement : String → ArchitectureError

abbrev contains_nul : String → Bool
contains_nul nil = false
contains_nul (cons c s) = (code c == 0) || contains_nul s

unfoldable pub valid_text : String → Bool
valid_text value =
    not (is_blank value) && leb (byte_len value) max_text_bytes && not (contains_nul value)

-- `is_ascii_alphanumeric`, or one of `-`, `_` and `.`
abbrev pub is_key_byte : ℕ → Bool
is_key_byte b =
    (leb 48 b && leb b 57)
    || (leb 65 b && leb b 90)
    || (leb 97 b && leb b 122)
    || (b == 45)
    || (b == 95)
    || (b == 46)

-- a text whose bytes pass has only such code points
abbrev pub all_key_bytes : String → Bool
all_key_bytes nil = true
all_key_bytes (cons c s) = is_key_byte (code c) && all_key_bytes s

unfoldable pub valid_key : String → Bool
valid_key value = not (byte_len value == 0) && leb (byte_len value) 64 && all_key_bytes value

unfoldable pub validate_texts : List String → Result (Unit {0}) ArchitectureError
validate_texts values = fail_if (any (λ value. not (valid_text value)) values) invalid_task

unfoldable pub text_before : String → String → Bool
text_before nil nil = false
text_before nil (cons d t) = true
text_before (cons c s) nil = false
text_before (cons c s) (cons d t) =
    let rest = text_before s t in
    if ltb (code c) (code d) then true else if ltb (code d) (code c) then false else rest

-- `requirement_index`: which requirements a task covers, in the order of their ids
abbrev pub Index : Type 0
Index = List (String × Bool)

unfoldable pub covers : String → Index → Option Bool
covers id [] = none
covers id ((k, covered) ∷ rest) = if str_eq k id then some covered else covers id rest

-- `insert`, for a key that is there already or not
unfoldable pub put : String → Bool → Index → Index
put id v [] = (id, v) ∷ []
put id v ((k, covered) ∷ rest) =
    let later = put id v rest in
    if str_eq k id
    then (k, v) ∷ rest
    else if text_before id k
    then (id, v) ∷ (k, covered) ∷ rest
    else (k, covered) ∷ later

abbrev check_requirement : Requirement → Result (Unit {0}) ArchitectureError
check_requirement r = do
  fail_if (not (valid_key r.id) || not (valid_text r.statement)) invalid_requirement
  fail_if (is_empty r.acceptance_criteria) empty_acceptance_criteria
  validate_texts r.acceptance_criteria

-- the loop on the requirements
unfoldable pub index_requirements : Index → List Requirement → Result Index ArchitectureError
index_requirements index [] = ok index
index_requirements index (r ∷ rs) = do
  check_requirement r
  fail_if (is_some (covers r.id index)) invalid_requirement
  index_requirements (put r.id false index) rs

abbrev pub check_task : PlannedTask → Result (Unit {0}) ArchitectureError
check_task t = do
  fail_if
      (not (valid_text t.title)
        || not (valid_text t.objective)
        || is_empty t.requirement_ids
        || is_empty t.verification_commands)
      invalid_task
  fail_if (is_empty t.acceptance_criteria) empty_acceptance_criteria
  validate_texts t.acceptance_criteria
  validate_texts t.verification_commands

abbrev pub is_linked : String → List String → Bool
is_linked id linked = any (λ l. str_eq l id) linked

-- the inner loop, with the ids linked so far
unfoldable pub cover : List String → Index → List String → Result Index ArchitectureError
cover linked index [] = ok index
cover linked index (id ∷ ids) = do
  fail_if (is_linked id linked) invalid_task
  fail_if (not (is_some (covers id index))) (unknown_requirement id)
  cover (id ∷ linked) (put id true index) ids

-- the loop on the tasks
unfoldable pub cover_tasks : Index → List PlannedTask → Result Index ArchitectureError
cover_tasks index [] = ok index
cover_tasks index (t ∷ ts) = do
  check_task t
  next ← cover [] index t.requirement_ids
  cover_tasks next ts

unfoldable pub dag_nodes : List PlannedTask → List TaskNode
dag_nodes [] = []
dag_nodes (t ∷ ts) =
    record {
      id = t.id;
      owner = executor;
      write_scopes = t.write_scopes;
      dependencies = t.dependencies;
    }
    ∷ dag_nodes ts

-- `find` of a requirement that no task covers
unfoldable pub check_coverage : Index → Result (Unit {0}) ArchitectureError
check_coverage [] = ok tt
check_coverage ((id, covered) ∷ rest) =
    let later = check_coverage rest in
    if covered then later else err (missing_requirement_coverage id)

abbrev pub check_limits : ArchitecturePlan → Result (Unit {0}) ArchitectureError
check_limits p =
    fail_if
      (is_empty p.requirements
        || ltb max_items (length p.requirements)
        || is_empty p.tasks
        || ltb max_items (length p.tasks)
        || ltb max_items (length p.assumptions)
        || ltb max_items (length p.risks)
        || ltb max_items (length p.integration_checks))
      limit_exceeded

-- what `validate` checks before the task graph
unfoldable pub check_texts : ArchitecturePlan → Result (Unit {0}) ArchitectureError
check_texts p = do
  check_limits p
  validate_texts p.assumptions
  validate_texts p.risks
  fail_if (is_empty p.integration_checks) empty_integration_checks
  validate_texts p.integration_checks

abbrev pub index_and_cover : ArchitecturePlan → Result Index ArchitectureError
index_and_cover p = do
  check_texts p
  required ← index_requirements [] p.requirements
  cover_tasks required p.tasks

abbrev pub finish :
    ArchitecturePlan
    → Index
    → Option (Result TaskDag DagError)
    → Option (Result ArchitecturePlan ArchitectureError)
finish p covered none = none
finish p covered (some (err e)) = some (err (dag e))
finish p covered (some (ok _)) = some (check_coverage covered >> ok p)

abbrev pub validate_graph :
    ArchitecturePlan
    → Result Index ArchitectureError
    → Option (Result ArchitecturePlan ArchitectureError)
validate_graph p (err e) = some (err e)
validate_graph p (ok covered) = finish p covered (Dag.validate (dag_nodes p.tasks))

-- The fields of the plan are the arguments of `validate`, and `try_from` calls it. `none` means
-- that the search in the task graph ran out of fuel.
unfoldable pub validate : ArchitecturePlan → Option (Result ArchitecturePlan ArchitectureError)
validate p = validate_graph p (index_and_cover p)
