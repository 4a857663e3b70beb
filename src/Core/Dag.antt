-- ===== src/Core/Dag.antt =====
-- The task graph, crates/workflow-core/src/dag.rs. Task ids are ordered only: a number stands for
-- one. A `BTreeMap` is a map in order of its keys, a `BTreeSet` an increasing list.
pub mod Scan
pub mod Order
pub mod Rounds
pub mod Sort
pub mod Acyclic
pub mod Validate
pub mod Total
pub mod Ready
pub mod Examples
use opencode_cycle_plugin.Prelude.{
  ℕ, zero, suc, ◌+◌, Bool, true, false, not, ◌&&◌, ◌||◌, Option, none, some, List, [], ◌∷◌, ◌++◌,
  Result, ok, err, ◌>>=◌, ◌>>◌, fail_if, ◌==◌, if◌then◌else◌, length, is_empty,
}
use opencode_cycle_plugin.Prelude.Map
use opencode_cycle_plugin.Prelude.Map.{Map}
use opencode_cycle_plugin.Prelude.Set
use opencode_cycle_plugin.Core.Path.{FilePath, is_safe_relative, overlaps}

abbrev pub TaskId : Type 0
TaskId = ℕ

-- crates/workflow-core/src/role.rs
pub data WorkflowRole : Type 0 where
  architect executor functional_reviewer security_architecture_reviewer arbiter : WorkflowRole

abbrev is_executor : WorkflowRole → Bool
is_executor executor = true
is_executor _ = false

pub record TaskNode : Type 0 where
  pub id : TaskId
  pub owner : WorkflowRole
  pub write_scopes : List FilePath
  pub dependencies : List TaskId

pub data DagError : Type 0 where
  empty cycle : DagError
  duplicate_task invalid_owner : TaskId → DagError
  invalid_scope : TaskId → FilePath → DagError
  overlapping_scope : TaskId → TaskId → FilePath → FilePath → DagError
  duplicate_dependency missing_dependency : TaskId → TaskId → DagError

pub record TaskDag : Type 0 where
  pub nodes : Map TaskNode
  pub topological_order : List TaskId

-- the first loop of `validate`
unfoldable pub index_nodes : Map TaskNode → List TaskNode → Result (Map TaskNode) DagError
index_nodes indexed [] = ok indexed
index_nodes indexed (node ∷ nodes) =
    if Map.contains_key node.id indexed
    then err (duplicate_task node.id)
    else index_nodes (Map.insert node.id node indexed) nodes

check_scopes : TaskId → List FilePath → Result (Unit {0}) DagError
check_scopes id [] = ok tt
check_scopes id (scope ∷ scopes) =
    if is_safe_relative scope then check_scopes id scopes else err (invalid_scope id scope)

check_dependencies : Map TaskNode → TaskId → List TaskId → List TaskId → Result (Unit {0}) DagError
check_dependencies nodes id seen [] = ok tt
check_dependencies nodes id seen (dependency ∷ rest) =
    let later = check_dependencies nodes id (Set.insert dependency seen) rest in
    if Set.contains dependency seen
    then err (duplicate_dependency id dependency)
    else if Map.contains_key dependency nodes
    then later
    else err (missing_dependency id dependency)

check_node : Map TaskNode → TaskNode → Result (Unit {0}) DagError
check_node nodes node = do
  fail_if (not (is_executor node.owner)) (invalid_owner node.id)
  fail_if (is_empty node.write_scopes) (invalid_scope node.id [])
  check_scopes node.id node.write_scopes
  check_dependencies nodes node.id [] node.dependencies

pub check_nodes : Map TaskNode → List TaskNode → Result (Unit {0}) DagError
check_nodes nodes [] = ok tt
check_nodes nodes (node ∷ rest) = do check_node nodes node; check_nodes nodes rest

abbrev dependencies_of : Map TaskNode → TaskId → List TaskId
dependencies_of nodes id = elim (Map.get id nodes) [ none ↦ [] | some node ↦ node.dependencies ]

-- the `for` loop of `depends_on`: `none` when the target is met, else the longer stack, whose top is
-- the head of the list
push_dependencies : TaskId → List TaskId → List TaskId → Option (List TaskId)
push_dependencies target [] pending = some pending
push_dependencies target (dependency ∷ rest) pending =
    if dependency == target then none else push_dependencies target rest (dependency ∷ pending)

-- The `while` loop of `depends_on`, with fuel; `none` means that it ran out.
search_dependencies : ℕ → Map TaskNode → TaskId → List TaskId → List TaskId → Option Bool
search_dependencies zero nodes target visited pending = none
search_dependencies (suc fuel) nodes target visited [] = some false
search_dependencies (suc fuel) nodes target visited (current ∷ pending) =
    let again = search_dependencies fuel nodes target visited pending in
    let onward = λ (more : List TaskId).
      search_dependencies fuel nodes target (Set.insert current visited) more in
    if Set.contains current visited
    then again
    else (elim (push_dependencies target (dependencies_of nodes current) pending) [
      | none ↦ some true
      | some more ↦ onward more
    ])

abbrev pub total_dependencies : List TaskNode → ℕ
total_dependencies [] = 0
total_dependencies (node ∷ nodes) = length node.dependencies + total_dependencies nodes

-- Every node is expanded once, so the stack is filled at most `total_dependencies` times.
unfoldable pub depends_on : Map TaskNode → TaskId → TaskId → Option Bool
unfolding search_dependencies push_dependencies
depends_on nodes task target =
    search_dependencies (suc (suc (total_dependencies (Map.values nodes)))) nodes target []
      (task ∷ [])

-- `a || b`, where `b` is looked at only if `a` is false
abbrev or_else : Option Bool → Option Bool → Option Bool
or_else none b = none
or_else (some true) b = some true
or_else (some false) b = b

dependency_ordered : Map TaskNode → TaskId → TaskId → Option Bool
dependency_ordered nodes first second =
    or_else (depends_on nodes first second) (depends_on nodes second first)

-- the inner loop over the scopes seen so far
check_against :
    Map TaskNode
    → TaskId
    → FilePath
    → List (TaskId × FilePath)
    → Option (Result (Unit {0}) DagError)
check_against nodes task scope [] = some (ok tt)
check_against nodes task scope ((other_task, other_scope) ∷ scopes) =
    let later = check_against nodes task scope scopes in
    if overlaps scope other_scope
    then (elim (dependency_ordered nodes task other_task) [
      | none ↦ none
      | some true ↦ later
      | some false ↦ some (err (overlapping_scope other_task task other_scope scope))
    ])
    else later

abbrev node_scopes : TaskId → List FilePath → List (TaskId × FilePath)
node_scopes id [] = []
node_scopes id (scope ∷ scopes) = (id, scope) ∷ node_scopes id scopes

abbrev all_scopes : List TaskNode → List (TaskId × FilePath)
all_scopes [] = []
all_scopes (node ∷ nodes) = node_scopes node.id node.write_scopes ++ all_scopes nodes

pub check_overlaps :
    Map TaskNode
    → List (TaskId × FilePath)
    → List (TaskId × FilePath)
    → Option (Result (Unit {0}) DagError)
check_overlaps nodes seen [] = some (ok tt)
check_overlaps nodes seen ((task, scope) ∷ rest) =
    let later = check_overlaps nodes (seen ++ (task, scope) ∷ []) rest in
    elim (check_against nodes task scope seen) [
      | none ↦ none
      | some (err e) ↦ some (err e)
      | some (ok _) ↦ later
    ]

unfoldable pub validate_nodes : Map TaskNode → Option (Result (Unit {0}) DagError)
validate_nodes nodes = elim (check_nodes nodes (Map.values nodes)) [
  | err e ↦ some (err e)
  | ok _ ↦ check_overlaps nodes [] (all_scopes (Map.values nodes))
]

-- `indegrees`, from the nodes in order of their ids
unfoldable pub indegrees : List TaskNode → Map ℕ
indegrees [] = []
indegrees (node ∷ nodes) = Map.insert node.id (length node.dependencies) (indegrees nodes)

abbrev pub listed : TaskId → Map (List TaskId) → List TaskId
listed id m = elim (Map.get id m) [ none ↦ [] | some ids ↦ ids ]

-- `dependents.entry(dependency).or_default().push(id)` for each dependency
unfoldable pub push_dependent : TaskId → List TaskId → Map (List TaskId) → Map (List TaskId)
push_dependent id [] m = m
push_dependent id (dependency ∷ rest) m =
    push_dependent id rest (Map.insert dependency (listed dependency m ++ id ∷ []) m)

unfoldable pub dependents : Map (List TaskId) → List TaskNode → Map (List TaskId)
dependents m [] = m
dependents m (node ∷ nodes) = dependents (push_dependent node.id node.dependencies m) nodes

-- the ids of degree 0
unfoldable pub ready_at_start : Map ℕ → List TaskId
ready_at_start [] = []
ready_at_start ((id, degree) ∷ rest) =
    let others = ready_at_start rest in if degree == 0 then Set.insert id others else others

-- The `for` loop over the dependents of one task: the degrees fall, and what reaches 0 is ready.
-- `none` stands for the panic of `expect`, and of `-= 1` at 0.
unfoldable pub scan : List TaskId → Map ℕ → List TaskId → Option (Map ℕ × List TaskId)
scan [] degrees ready = some (degrees, ready)
scan (dependent ∷ rest) degrees ready = elim (Map.get dependent degrees) [
  | none ↦ none
  | some zero ↦ none
  | some (suc degree) ↦
      scan rest (Map.insert dependent degree degrees)
        (if degree == 0 then Set.insert dependent ready else ready)
]

-- The `while` loop of `sort`, with fuel; `none` means a panic, or that the fuel ran out.
unfoldable pub drain :
    ℕ → Map (List TaskId) → Map ℕ → List TaskId → List TaskId → Option (List TaskId)
drain zero edges degrees ready order = none
drain (suc fuel) edges degrees [] order = some order
drain (suc fuel) edges degrees (task ∷ ready) order =
    let onward = λ (d : Map ℕ) (r : List TaskId). drain fuel edges d r (order ++ task ∷ []) in
    elim (scan (listed task edges) degrees ready) [ none ↦ none | some (d, r) ↦ onward d r ]

-- `sort`, over the values of the map; a task is popped once, so the nodes bound the rounds
unfoldable pub sort : List TaskNode → Option (Result (List TaskId) DagError)
sort nodes =
    elim (drain (suc (length nodes)) (dependents [] nodes) (indegrees nodes)
      (ready_at_start (indegrees nodes)) []) [
        | none ↦ none
        | some order ↦ some (if length order == length nodes then ok order else err cycle)
      ]

unfoldable pub validate : List TaskNode → Option (Result TaskDag DagError)
validate [] = some (err empty)
validate (first ∷ rest) = elim (index_nodes [] (first ∷ rest)) [
  | err e ↦ some (err e)
  | ok indexed ↦ elim (validate_nodes indexed) [
    | none ↦ none
    | some (err e) ↦ some (err e)
    | some (ok _) ↦ elim (sort (Map.values indexed)) [
      | none ↦ none
      | some (err e) ↦ some (err e)
      | some (ok order) ↦ some (ok (record { nodes = indexed; topological_order = order }))
    ]
  ]
]
