-- ===== src/Core/Dag/Examples.antt =====
-- The theorems on the task graph at concrete graphs.
use opencode_cycle_plugin.Prelude.{
  ℕ, ◌≡◌, refl, ◌⊎◌, true, false, some, List, [], ◌∷◌, ok, err, is_some, Result,
}
use opencode_cycle_plugin.Prelude.Map
use opencode_cycle_plugin.Prelude.Set
use opencode_cycle_plugin.Core.Path.{is_safe_relative, overlaps}
use opencode_cycle_plugin.Core.Dag.{
  TaskId, TaskNode, TaskDag, DagError, executor, cycle, sort, validate, validate_nodes, index_nodes,
  indegrees, push_dependent, dependents, ready_at_start, scan, drain, depends_on, check_nodes,
  check_node, check_scopes, check_dependencies, check_overlaps, check_against, dependency_ordered,
  overlapping_scope,
}
use opencode_cycle_plugin.Core.Dag.Scan.{find}
use opencode_cycle_plugin.Core.Dag.Order.{Topological}
use opencode_cycle_plugin.Core.Dag.Acyclic.{IsOrderOf, IsRanked, sort_decides}
use opencode_cycle_plugin.Core.Dag.Validate.{validate_order}
use opencode_cycle_plugin.Core.Dag.Total.{validate_total}
use opencode_cycle_plugin.Core.Dag.Ready.{ready_tasks, can_complete, ready_tasks-progress}

abbrev pub node : TaskId → List TaskId → TaskNode
node id dependencies = record {
  id = id;
  owner = executor;
  write_scopes = (b's' ∷ id ∷ []) ∷ [];
  dependencies = dependencies;
}

-- 5 comes first, and 2 waits for both others
abbrev pub diamond : List TaskNode
diamond = node 3 (5 ∷ []) ∷ node 2 (3 ∷ 5 ∷ []) ∷ node 5 [] ∷ []

abbrev pub diamond_dag : TaskDag
diamond_dag = record {
  nodes = (2, node 2 (3 ∷ 5 ∷ [])) ∷ (3, node 3 (5 ∷ [])) ∷ (5, node 5 []) ∷ [];
  topological_order = 5 ∷ 3 ∷ 2 ∷ [];
}

pub validate-diamond : validate diamond ≡ some (ok diamond_dag)
unfolding validate validate_nodes check_nodes check_node check_scopes check_dependencies
    check_overlaps check_against dependency_ordered index_nodes indegrees push_dependent dependents
    ready_at_start scan drain sort depends_on is_safe_relative overlaps Map.get Map.insert
    Set.contains Set.insert
validate-diamond = refl

-- two tasks that share a scope and are in no order
shared_scope_refused :
    validate (
      record (node 3 []) { write_scopes = (b'a' ∷ []) ∷ [] }
      ∷ record (node 4 []) { write_scopes = (b'a' ∷ b'/' ∷ b'b' ∷ []) ∷ [] }
      ∷ [])
    ≡ some (err (overlapping_scope 3 4 (b'a' ∷ []) (b'a' ∷ b'/' ∷ b'b' ∷ [])))
unfolding validate validate_nodes check_nodes check_node check_scopes check_dependencies
    check_overlaps check_against dependency_ordered index_nodes indegrees push_dependent dependents
    ready_at_start scan drain sort depends_on is_safe_relative overlaps Map.get Map.insert
    Set.contains Set.insert
shared_scope_refused = refl

sort_decides_example :
    ((order : List TaskId) × (sort diamond ≡ some (ok order)) × IsOrderOf diamond order)
    ⊎ ((sort diamond ≡ some (err cycle)) × ((rank : TaskId → ℕ) → ¬ IsRanked diamond rank))
sort_decides_example = sort_decides diamond (refl, (refl, (refl, tt)))

validate_order_example :
    ((x : TaskId) → Map.get x diamond_dag.nodes ≡ find x diamond)
    × Topological (Map.values diamond_dag.nodes) [] diamond_dag.topological_order
    × ((x : TaskId) → Set.contains x diamond_dag.topological_order ≡ is_some (find x diamond))
validate_order_example = validate_order diamond diamond_dag validate-diamond

validate_total_example : (r : Result TaskDag DagError) × (validate diamond ≡ some r)
validate_total_example = validate_total diamond

listed_two : is_some (find 2 diamond) ≡ true
listed_two = refl

two_left : Set.contains 2 (5 ∷ []) ≡ false
unfolding Set.contains
two_left = refl

ready_tasks-progress_example :
    (t : TaskId) × (Set.contains t (ready_tasks diamond_dag (5 ∷ [])) ≡ true)
    × (can_complete diamond_dag t (5 ∷ []) ≡ true)
ready_tasks-progress_example =
    ready_tasks-progress diamond diamond_dag (5 ∷ []) 2 validate-diamond listed_two two_left
