-- ===== src/Store/Plans.antt =====
-- The plans and the links of goals, crates/workflow-store/src/goals.rs. The digest of a text is a
-- parameter, and so is the order of the texts by which the query of links sorts.
use text.Mathlib.Text.{◌==◌ as str_eq}
use opencode_cycle_plugin.Prelude.{
  ℕ, ◌+◌, ◌*◌, Bool, not, ◌&&◌, ◌||◌, Option, none, some, List, [], ◌∷◌, Result, ok, err, ◌>>◌,
  fail_if, String, byte_len, is_blank, ltb, ◌==◌, if◌then◌else◌,
}
use opencode_cycle_plugin.Prelude.Map
use opencode_cycle_plugin.Core.Request.{WorkflowTimestamp}
use opencode_cycle_plugin.Store.Tables.{StoreError, read_only, aggregate_conflict, sqlite}
use opencode_cycle_plugin.Store.Documents.{
  Database, GoalPlanRecord, GoalLink, validate_session, contains_nul, write,
}

abbrev pub max_document_bytes : ℕ
max_document_bytes = 8 * 1024 * 1024

abbrev pub u32_max : ℕ
u32_max = 4294967295

-- the plan of a goal with this digest
unfoldable pub find_plan : (String → ℕ) → ℕ → ℕ → List GoalPlanRecord → Option ℕ
find_plan digest goal_id content_digest [] = none
find_plan digest goal_id content_digest (plan ∷ plans) =
    if (plan.goal_id == goal_id) && (digest plan.content == content_digest)
    then some plan.revision
    else find_plan digest goal_id content_digest plans

-- `ORDER BY revision DESC LIMIT 1`
unfoldable pub latest_plan : ℕ → List GoalPlanRecord → Option GoalPlanRecord
latest_plan goal_id [] = none
latest_plan goal_id (plan ∷ plans) =
    if plan.goal_id == goal_id then some plan else latest_plan goal_id plans

-- `coalesce(max(revision), 0) + 1`
abbrev pub next_revision : Option GoalPlanRecord → ℕ
next_revision none = 1
next_revision (some plan) = plan.revision + 1

abbrev pub with_plan : Database → ℕ → String → String → WorkflowTimestamp → ℕ → Database
with_plan d goal_id source_session_id content timestamp revision = record d {
  plans =
      record {
        goal_id = goal_id;
        content = content;
        created_at = timestamp;
        revision = revision;
        source_session_id = source_session_id;
      }
      ∷ d.plans;
}

-- a revision is read as a `u32`; the goal of a new row exists
abbrev pub insert_plan :
    Database → ℕ → String → String → WorkflowTimestamp → Option ℕ → Database × Result ℕ StoreError
insert_plan d goal_id source_session_id content timestamp (some revision) = (d, ok revision)
insert_plan d goal_id source_session_id content timestamp none =
    let revision = next_revision (latest_plan goal_id d.plans) in
    write d (fail_if (ltb u32_max revision || not (Map.contains_key goal_id d.store.goals)) sqlite)
      (with_plan d goal_id source_session_id content timestamp revision, revision)

abbrev pub valid_plan : Database → String → String → Result (Unit {0}) StoreError
valid_plan d source_session_id content = do
  fail_if (not d.store.read_write) read_only
  validate_session source_session_id
  fail_if (is_blank content || ltb max_document_bytes (byte_len content)) aggregate_conflict

abbrev pub save_valid_plan :
    (String → ℕ)
    → Database
    → ℕ
    → String
    → String
    → WorkflowTimestamp
    → Result (Unit {0}) StoreError
    → Database × Result ℕ StoreError
save_valid_plan digest d goal_id source_session_id content timestamp (err e) = (d, err e)
save_valid_plan digest d goal_id source_session_id content timestamp (ok _) =
    insert_plan d goal_id source_session_id content timestamp
      (find_plan digest goal_id (digest content) d.plans)

unfoldable pub save_goal_plan :
    (String → ℕ)
    → Database
    → ℕ
    → String
    → String
    → WorkflowTimestamp
    → Database × Result ℕ StoreError
save_goal_plan digest d goal_id source_session_id content timestamp =
    save_valid_plan digest d goal_id source_session_id content timestamp
      (valid_plan d source_session_id content)

unfoldable pub find_link : ℕ → List GoalLink → Option GoalLink
find_link workflow_id [] = none
find_link workflow_id (l ∷ ls) =
    if l.workflow_id == workflow_id then some l else find_link workflow_id ls

-- a row among the others, where the query finds it
unfoldable pub insert_link : (GoalLink → GoalLink → Bool) → GoalLink → List GoalLink → List GoalLink
insert_link precedes l [] = l ∷ []
insert_link precedes l (m ∷ ms) =
    let rest = insert_link precedes l ms in if precedes l m then l ∷ m ∷ ms else m ∷ rest

-- a workflow has one link; the goal and the workflow of a new row exist
abbrev pub add_link :
    (GoalLink → GoalLink → Bool)
    → Database
    → GoalLink
    → Option GoalLink
    → Database × Result (Unit {0}) StoreError
add_link precedes d l (some old) = (
  d,
  fail_if (not ((old.goal_id == l.goal_id) && str_eq old.milestone l.milestone)) aggregate_conflict,
)
add_link precedes d l none =
    write d
      (fail_if
        (not (
          Map.contains_key l.goal_id d.store.goals
          && Map.contains_key l.workflow_id d.store.workflows))
        sqlite)
      (record d { links = insert_link precedes l d.links }, tt)

unfoldable pub link_goal_workflow :
    (GoalLink → GoalLink → Bool) → Database → GoalLink → Database × Result (Unit {0}) StoreError
link_goal_workflow precedes d l =
    if not d.store.read_write
    then (d, err read_only)
    else if is_blank l.milestone || ltb 4096 (byte_len l.milestone) || contains_nul l.milestone
    then (d, err aggregate_conflict)
    else add_link precedes d l (find_link l.workflow_id d.links)

unfoldable pub goal_workflows : ℕ → List GoalLink → List GoalLink
goal_workflows goal_id [] = []
goal_workflows goal_id (l ∷ ls) =
    let rest = goal_workflows goal_id ls in if l.goal_id == goal_id then l ∷ rest else rest
