-- ===== src/Core/Dag/Acyclic.antt =====
-- The sort refuses nothing but cycles, and validation orders its tasks
-- (crates/workflow-core/src/dag.rs).
use opencode_cycle_plugin.Prelude.{
  ℕ, zero, suc, ◌<◌, ◌≡◌, refl, ap, subst, ◌⊎◌, inl, inr, true, some, List, [], ◌∷◌, arith, ◌==◌,
  ==_iff, length, Bool-cases, Option-cases, is_some, ok, err, All,
}
use opencode_cycle_plugin.Prelude.Set
use opencode_cycle_plugin.Core.Dag.{TaskId, TaskNode, cycle, sort}
use opencode_cycle_plugin.Core.Dag.Scan.{find, Distinct}
use opencode_cycle_plugin.Core.Dag.Order.{unmet, Topological, remaining}
use opencode_cycle_plugin.Core.Dag.Rounds.{Sorted}
use opencode_cycle_plugin.Core.Dag.Sort.{sort_lem, contains-Sorted}

-- every dependency of `n` is a node, and is below `n` by `rank`
abbrev pub IsBelow : List TaskNode → (TaskId → ℕ) → TaskNode → Type 0
IsBelow ns rank n = All (λ d. (is_some (find d ns) ≡ true) × (rank d < rank n.id)) n.dependencies

-- A graph is acyclic if the tasks can be ranked so that dependencies are below.
abbrev pub IsRanked : List TaskNode → (TaskId → ℕ) → Type 0
IsRanked ns rank = All (IsBelow ns rank) ns

find-IsBelow :
    (ms ns : List TaskNode) (rank : TaskId → ℕ) (x : TaskId) (n : TaskNode)
    → All (IsBelow ms rank) ns
    → find x ns ≡ some n
    → (n.id ≡ x) × IsBelow ms rank n
find-IsBelow ms [] rank x n h e = cc
find-IsBelow ms (m ∷ ns) rank x n h e = elim (Bool-cases (m.id == x)) [
  | inl same ↦
      let here : m ≡ n = ground arith in
      subst (λ k. (k.id ≡ x) × IsBelow ms rank k) here ((==_iff m.id x).0 same, h.0)
  | inr other ↦ find-IsBelow ms ns rank x n h.1 (ground arith)
]

-- where all that is below a bound is done, so are dependencies below it
unmet_zero :
    (ns : List TaskNode) (rank : TaskId → ℕ) (done : List TaskId) (bound : ℕ)
    → ((x : TaskId) → rank x < bound → is_some (find x ns) ≡ true → Set.contains x done ≡ true)
    → (ds : List TaskId) → All (λ d. (is_some (find d ns) ≡ true) × (rank d < bound)) ds
    → unmet done ds ≡ 0
unfolding unmet
unmet_zero ns rank done bound below [] h = refl
unmet_zero ns rank done bound below (d ∷ ds) h =
    ground (arith, below d h.0.1 h.0.0, unmet_zero ns rank done bound below ds h.1)

module _ (ns : List TaskNode) (distinct : Distinct ns) (rank : TaskId → ℕ)
    (ranked : IsRanked ns rank) (order : List TaskId) (sorted : Sorted ns distinct order) where
  -- by induction on a bound above the rank
  contains_below :
      (bound : ℕ) (x : TaskId)
      → rank x < bound
      → is_some (find x ns) ≡ true
      → Set.contains x order ≡ true
  contains_below zero x h e = elim h [ ]
  contains_below (suc bound) x h e = elim (Option-cases (find x ns)) [
    | inl absent ↦ ground arith
    | inr (n, found) ↦
        let (same, below) = find-IsBelow ns ns rank x n ranked found in
        let down = λ (y : TaskId) (p : rank y < rank n.id).
          contains_below bound y (omega (arith, ap rank same)) in
        let none_left = unmet_zero ns rank order (rank n.id) down n.dependencies below in
        ground (arith, sorted.closed x)
  ]

  contains_all : (x : TaskId) → is_some (find x ns) ≡ true → Set.contains x order ≡ true
  contains_all x = contains_below (suc (rank x)) x (omega arith)

remaining_none :
    (done : List TaskId) (ms : List TaskNode)
    → ((x : TaskId) → is_some (find x ms) ≡ true → Set.contains x done ≡ true)
    → remaining done ms ≡ 0
unfolding remaining
remaining_none done [] all = refl
remaining_none done (m ∷ ms) all =
    let rest = λ (x : TaskId) (h : is_some (find x ms) ≡ true). all x (ground arith) in
    ground (arith, all m.id, remaining_none done ms rest)

-- What `order` has to be for the nodes `ns`.
abbrev pub IsOrderOf : List TaskNode → List TaskId → Type 0
IsOrderOf ns order =
    Topological ns [] order × ((x : TaskId) → Set.contains x order ≡ is_some (find x ns))

-- For nodes with distinct ids the sort ends without a panic, and either it returns an order that
-- has exactly the nodes' tasks, each once and behind all its dependencies, or it returns the cycle
-- error and no ranking puts every dependency, a node itself, below the nodes that name it.
pub sort_decides :
    (ns : List TaskNode)
    → Distinct ns
    → ((order : List TaskId) × (sort ns ≡ some (ok order)) × IsOrderOf ns order)
      ⊎ ((sort ns ≡ some (err cycle)) × ((rank : TaskId → ℕ) → ¬ IsRanked ns rank))
sort_decides ns distinct =
    let (order, sorted, e) = sort_lem ns distinct in
    elim (Bool-cases (length order == length ns)) [
      | inl full ↦
          let same = (==_iff (length order) (length ns)).0 full in
          inl (
            order,
            rw full at e,
            (sorted.ordered, λ x. contains-Sorted ns distinct order x sorted same),
          )
      | inr short ↦ inr (
        rw short at e,
        λ rank ranked.
            let all = contains_all ns distinct rank ranked order sorted in
            ground (arith, sorted.left, remaining_none order ns all),
      )
    ]
