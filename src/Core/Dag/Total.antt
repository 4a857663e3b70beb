-- ===== src/Core/Dag/Total.antt =====
-- Validation always returns: the searches for dependencies have fuel enough
-- (crates/workflow-core/src/dag.rs).
use opencode_cycle_plugin.Prelude.{
  ℕ, zero, suc, ◌+◌, ◌≤◌, ◌<◌, ◌≡◌, refl, inl, inr, true, false, some, List, [], ◌∷◌, ◌++◌, arith,
  ◌==◌, ==_iff, if◌then◌else◌, length, Bool-cases, Option-cases, is_some, Result, ok, subst, sym,
  Result-cases, is_some_elim,
}
use opencode_cycle_plugin.Prelude.Map
use opencode_cycle_plugin.Prelude.Map.{Map}
use opencode_cycle_plugin.Prelude.Set
use opencode_cycle_plugin.Core.Path.{FilePath}
use opencode_cycle_plugin.Core.Dag.{
  TaskId, TaskNode, TaskDag, DagError, dependencies_of, push_dependencies, search_dependencies,
  total_dependencies, depends_on, dependency_ordered, check_against, check_overlaps, all_scopes,
  validate_nodes, validate, index_nodes, sort,
}
use opencode_cycle_plugin.Core.Dag.Acyclic.{sort_decides}
use opencode_cycle_plugin.Core.Dag.Validate.{index_nodes_lem, values-Distinct}

-- the dependencies of the nodes that have not been visited
unfoldable pub unvisited : List TaskId → Map TaskNode → ℕ
unvisited visited [] = 0
unvisited visited ((k, n) ∷ m) =
    (if Set.contains k visited then 0 else length n.dependencies) + unvisited visited m

unvisited-insert_le :
    (c : TaskId) (visited : List TaskId) (m : Map TaskNode)
    → unvisited (Set.insert c visited) m ≤ unvisited visited m
unfolding unvisited
unvisited-insert_le c visited [] = omega arith
unvisited-insert_le c visited ((k, n) ∷ m) =
    ground (arith, Set.contains-insert c k visited, unvisited-insert_le c visited m)

unvisited-insert :
    (c : TaskId) (visited : List TaskId) (m : Map TaskNode)
    → Set.contains c visited ≡ false
    → unvisited (Set.insert c visited) m + length (dependencies_of m c) ≤ unvisited visited m
unfolding unvisited Map.get
unvisited-insert c visited [] h = omega arith
unvisited-insert c visited ((k, n) ∷ m) h = elim (Bool-cases (k == c)) [
  | inl same ↦
      let new = subst (λ y. Set.contains y visited ≡ false) (sym ((==_iff k c).0 same)) h in
      ground (arith, Set.contains-insert c k visited, unvisited-insert_le c visited m)
  | inr other ↦ ground (arith, Set.contains-insert c k visited, unvisited-insert c visited m h)
]

length-push_dependencies :
    (target : TaskId) (ds pending more : List TaskId)
    → push_dependencies target ds pending ≡ some more
    → length more ≡ length ds + length pending
unfolding push_dependencies
length-push_dependencies target [] pending more e = ground arith
length-push_dependencies target (d ∷ ds) pending more e =
    ground (arith, length-push_dependencies target ds (d ∷ pending) more)

search_total :
    (fuel : ℕ) (m : Map TaskNode) (target : TaskId) (visited pending : List TaskId)
    → length pending + unvisited visited m < fuel
    → is_some (search_dependencies fuel m target visited pending) ≡ true
unfolding search_dependencies
search_total zero m target visited pending h = elim h [ ]
search_total (suc fuel) m target visited [] h = refl
search_total (suc fuel) m target visited (c ∷ pending) h =
    elim (Bool-cases (Set.contains c visited)) [
      | inl old ↦ rw old (search_total fuel m target visited pending (omega arith))
      | inr new ↦ elim (Option-cases (push_dependencies target (dependencies_of m c) pending)) [
        | inl met ↦ rw (new, met)
        | inr (more, e) ↦
            let longer = length-push_dependencies target (dependencies_of m c) pending more e in
            let fewer = unvisited-insert c visited m new in
            rw (new, e) (search_total fuel m target (Set.insert c visited) more (omega arith))
      ]
    ]

unvisited_nil : (m : Map TaskNode) → unvisited [] m ≡ total_dependencies (Map.values m)
unfolding unvisited Set.contains
unvisited_nil [] = refl
unvisited_nil ((k, n) ∷ m) = omega (arith, unvisited_nil m)

depends_on_total : (m : Map TaskNode) (a b : TaskId) → is_some (depends_on m a b) ≡ true
unfolding depends_on
depends_on_total m a b =
    search_total (suc (suc (total_dependencies (Map.values m)))) m b [] (a ∷ [])
      (omega (arith, unvisited_nil m))

check_against_total :
    (m : Map TaskNode) (task : TaskId) (scope : FilePath) (seen : List (TaskId × FilePath))
    → is_some (check_against m task scope seen) ≡ true
unfolding check_against dependency_ordered
check_against_total m task scope [] = refl
check_against_total m task scope ((t, s) ∷ seen) = ground (
  arith,
  depends_on_total m task t,
  depends_on_total m t task,
  check_against_total m task scope seen,
)

check_overlaps_total :
    (m : Map TaskNode) (seen rest : List (TaskId × FilePath))
    → is_some (check_overlaps m seen rest) ≡ true
unfolding check_overlaps
check_overlaps_total m seen [] = refl
check_overlaps_total m seen ((task, scope) ∷ rest) = ground (
  arith,
  check_against_total m task scope seen,
  check_overlaps_total m (seen ++ (task, scope) ∷ []) rest,
)

validate_nodes_total : (m : Map TaskNode) → is_some (validate_nodes m) ≡ true
unfolding validate_nodes
validate_nodes_total m = ground (arith, check_overlaps_total m [] (all_scopes (Map.values m)))

sort_total :
    (nodes : List TaskNode) (indexed : Map TaskNode)
    → index_nodes [] nodes ≡ ok indexed
    → is_some (sort (Map.values indexed)) ≡ true
sort_total nodes indexed e =
    let i = index_nodes_lem [] nodes indexed tt tt e in
    elim (sort_decides (Map.values indexed) (values-Distinct indexed i.keyed i.is_sorted)) [
      | inl (order, found, _) ↦ rw found
      | inr (found, _) ↦ rw found
    ]

validate-is_some : (nodes : List TaskNode) → is_some (validate nodes) ≡ true
unfolding validate
validate-is_some [] = refl
validate-is_some (n ∷ ns) = elim (Result-cases (index_nodes [] (n ∷ ns))) [
  | inr (e, failed) ↦ rw (failed, is_some, validate)
  | inl (indexed, found) ↦
      ground (arith, validate_nodes_total indexed, sort_total (n ∷ ns) indexed found)
]

-- Whatever nodes it is given, validation returns a graph or an error: neither the searches for
-- dependencies nor the sort run out of fuel, and the sort does not panic.
pub validate_total :
    (nodes : List TaskNode) → (r : Result TaskDag DagError) × (validate nodes ≡ some r)
validate_total nodes = is_some_elim (validate nodes) (validate-is_some nodes)
