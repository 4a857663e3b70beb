-- ===== src/Core/Dag/Sort.antt =====
-- The sort from its tables to its result (crates/workflow-core/src/dag.rs).
use opencode_cycle_plugin.Prelude.{
  ℕ, suc, ◌≡◌, refl, subst, inl, inr, Bool, true, false, Option, none, some, List, [], ◌∷◌, arith,
  ◌==◌, ==_iff, if◌then◌else◌, length, Bool-cases, is_some, ok, err,
}
use opencode_cycle_plugin.Prelude.Map
use opencode_cycle_plugin.Prelude.Map.{Map}
use opencode_cycle_plugin.Prelude.Set
use opencode_cycle_plugin.Prelude.Set.{Increasing}
use opencode_cycle_plugin.Core.Dag.{TaskId, TaskNode, cycle, indegrees, ready_at_start, drain, sort}
use opencode_cycle_plugin.Core.Dag.Scan.{find, Distinct, dependencies_in, get-indegrees}
use opencode_cycle_plugin.Core.Dag.Rounds.{Sorted, drain_lem}
use opencode_cycle_plugin.Core.Dag.Order.{remaining, unmet_nil, edges, Inv}

abbrev at_zero : Option ℕ → Bool
at_zero none = false
at_zero (some k) = k == 0

contains-ready_at_start :
    (x : TaskId) (m : Map ℕ)
    → Map.IsSorted m
    → Set.contains x (ready_at_start m) ≡ at_zero (Map.get x m)
unfolding ready_at_start Set.contains Map.get
contains-ready_at_start x [] h = refl
contains-ready_at_start x ((id, k) ∷ m) h = ground (
  arith,
  contains-ready_at_start x m h.1,
  Set.contains-insert id x (ready_at_start m),
  Map.get-none_of_lt id x m,
)

ready_at_start-Increasing : (m : Map ℕ) → Increasing (ready_at_start m)
unfolding ready_at_start
ready_at_start-Increasing [] = tt
ready_at_start-Increasing ((id, k) ∷ m) = elim (Bool-cases (k == 0)) [
  | inl e ↦ rw e (Set.insert-Increasing id (ready_at_start m) (ready_at_start-Increasing m))
  | inr e ↦ rw e (ready_at_start-Increasing m)
]

indegrees-IsSorted : (ns : List TaskNode) → Map.IsSorted (indegrees ns)
unfolding indegrees
indegrees-IsSorted [] = tt
indegrees-IsSorted (n ∷ ns) =
    Map.insert-IsSorted n.id (length n.dependencies) (indegrees ns) (indegrees-IsSorted ns)

remaining_nil : (ns : List TaskNode) → remaining [] ns ≡ length ns
unfolding remaining Set.contains
remaining_nil [] = refl
remaining_nil (n ∷ ns) = omega (arith, remaining_nil ns)

Inv-start :
    (ns : List TaskNode) (distinct : Distinct ns)
    → Inv ns distinct (indegrees ns) (ready_at_start (indegrees ns)) []
Inv-start ns distinct = record {
  increasing = ready_at_start-Increasing (indegrees ns);
  degree = λ x. ground (arith, get-indegrees x ns, unmet_nil (dependencies_in ns x));
  member = λ x.
      unfold Set.contains in
      ground (
        arith,
        contains-ready_at_start x (indegrees ns) (indegrees-IsSorted ns),
        get-indegrees x ns,
        unmet_nil (dependencies_in ns x),
      );
  apart = λ x h. unfold Set.contains in refl;
  ordered = tt;
  left = omega (arith, remaining_nil ns);
}

sort-eq :
    (ns : List TaskNode) (distinct : Distinct ns) (order : List TaskId)
    → drain (suc (length ns)) (edges ns distinct) (indegrees ns) (ready_at_start (indegrees ns)) []
      ≡ some order
    → sort ns ≡ some (if length order == length ns then ok order else err cycle)
unfolding sort
sort-eq ns distinct order e = rw (e, sort)

-- On nodes with distinct ids the sort never panics and its fuel is enough: the loop ends with an
-- order, which is the result if it has as many tasks as there are nodes, and else the result is the
-- cycle error.
pub sort_lem :
    (ns : List TaskNode) (distinct : Distinct ns)
    → (order : List TaskId) × Sorted ns distinct order
      × (sort ns ≡ some (if length order == length ns then ok order else err cycle))
sort_lem ns distinct =
    let (order, e, sorted) =
      drain_lem ns distinct (suc (length ns)) (indegrees ns) (ready_at_start (indegrees ns)) []
        (Inv-start ns distinct) (omega (arith, remaining_nil ns)) in
    (order, sorted, sort-eq ns distinct order e)

remaining_zero :
    (x : TaskId) (done : List TaskId) (ns : List TaskNode)
    → remaining done ns ≡ 0
    → is_some (find x ns) ≡ true
    → Set.contains x done ≡ true
unfolding remaining
remaining_zero x done [] e h = cc
remaining_zero x done (n ∷ ns) e h = elim (Bool-cases (n.id == x)) [
  | inl same ↦ subst (λ y. Set.contains y done ≡ true) ((==_iff n.id x).0 same) (ground arith)
  | inr other ↦ remaining_zero x done ns (ground arith) (ground arith)
]

-- Every node is in an order that is as long as the list of nodes, and no other task.
pub contains-Sorted :
    (ns : List TaskNode) (distinct : Distinct ns) (order : List TaskId) (x : TaskId)
    → Sorted ns distinct order
    → length order ≡ length ns
    → Set.contains x order ≡ is_some (find x ns)
contains-Sorted ns distinct order x s e =
    ground (arith, s.closed x, remaining_zero x order ns (omega (arith, s.left)))
