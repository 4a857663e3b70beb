-- ===== src/Core/Dag/Validate.antt =====
-- What validation accepts (crates/workflow-core/src/dag.rs).
use opencode_cycle_plugin.Prelude.{
  ◌≡◌, refl, ap, ◌∙◌, subst, inl, inr, Option, none, some, List, [], ◌∷◌, arith, ◌==◌, ==_iff,
  Bool-cases, Option-cases, is_some, ok,
}
use opencode_cycle_plugin.Prelude.Map
use opencode_cycle_plugin.Prelude.Map.{Map}
use opencode_cycle_plugin.Prelude.Set
use opencode_cycle_plugin.Core.Dag.{TaskId, TaskNode, TaskDag, sort, index_nodes, validate}
use opencode_cycle_plugin.Core.Dag.Scan.{find, Distinct}
use opencode_cycle_plugin.Core.Dag.Order.{Topological}
use opencode_cycle_plugin.Core.Dag.Acyclic.{IsOrderOf, sort_decides}

-- entries keyed by the ids of their nodes
abbrev pub IsKeyed : Map TaskNode → Type 0
IsKeyed [] = Unit
IsKeyed ((k, n) ∷ m) = (k ≡ n.id) × IsKeyed m

pub insert-IsKeyed : (n : TaskNode) (m : Map TaskNode) → IsKeyed m → IsKeyed (Map.insert n.id n m)
unfolding Map.insert
insert-IsKeyed n [] h = (refl, tt)
insert-IsKeyed n ((k, w) ∷ m) h = ground (arith, insert-IsKeyed n m)

pub find-values : (x : TaskId) (m : Map TaskNode) → IsKeyed m → find x (Map.values m) ≡ Map.get x m
unfolding Map.get
find-values x [] h = refl
find-values x ((k, n) ∷ m) h = ground (arith, find-values x m)

pub values-Distinct : (m : Map TaskNode) → IsKeyed m → Map.IsSorted m → Distinct (Map.values m)
values-Distinct [] h s = tt
values-Distinct ((k, n) ∷ m) h s =
    (find-values n.id m h.1 ∙ Map.get-none_of_lt k n.id m h.0 s.0, values-Distinct m h.1 s.1)

abbrev pub or_find : Option TaskNode → Option TaskNode → Option TaskNode
or_find none o = o
or_find (some n) o = some n

pub record Indexed (m : Map TaskNode) (ns : List TaskNode) (indexed : Map TaskNode) : Type 0 where
  pub keyed : IsKeyed indexed
  pub is_sorted : Map.IsSorted indexed
  pub same : (x : TaskId) → Map.get x indexed ≡ or_find (Map.get x m) (find x ns)

pub index_nodes_lem :
    (m : Map TaskNode) (ns : List TaskNode) (indexed : Map TaskNode)
    → IsKeyed m
    → Map.IsSorted m
    → index_nodes m ns ≡ ok indexed
    → Indexed m ns indexed
index_nodes_lem m [] indexed k s e =
    let same : m ≡ indexed = unfold index_nodes in ground arith in
    subst (Indexed m []) same (record { keyed = k; is_sorted = s; same = λ x. ground arith })
index_nodes_lem m (n ∷ ns) indexed k s e = elim (Option-cases (Map.get n.id m)) [
  | inr (old, found) ↦ absurd (unfold index_nodes in ground arith)
  | inl new ↦
      let rest : index_nodes (Map.insert n.id n m) ns ≡ ok indexed =
        unfold index_nodes in ground arith in
      let i =
        index_nodes_lem (Map.insert n.id n m) ns indexed (insert-IsKeyed n m k)
          (Map.insert-IsSorted n.id n m s) rest in
      record {
        keyed = i.keyed;
        is_sorted = i.is_sorted;
        same = λ x. elim (Bool-cases (n.id == x)) [
          | inl here ↦
              let none_before : Map.get x m ≡ none =
                subst (λ y. Map.get y m ≡ none) ((==_iff n.id x).0 here) new in
              ground (arith, i.same x, Map.get-insert n.id x n m)
          | inr other ↦ ground (arith, i.same x, Map.get-insert n.id x n m)
        ];
      }
]

pub validated :
    (nodes : List TaskNode) (dag : TaskDag)
    → validate nodes ≡ some (ok dag)
    → (index_nodes [] nodes ≡ ok dag.nodes)
      × (sort (Map.values dag.nodes) ≡ some (ok dag.topological_order))
unfolding validate
validated [] dag e = cc
validated (n ∷ ns) dag e = ground arith

sorted_order :
    (ns : List TaskNode) (order : List TaskId)
    → Distinct ns
    → sort ns ≡ some (ok order)
    → IsOrderOf ns order
sorted_order ns order distinct e = elim (sort_decides ns distinct) [
  | inl (found, e', right) ↦
      let same : found ≡ order = ground arith in subst (IsOrderOf ns) same right
  | inr (e', never) ↦ absurd (ground arith)
]

-- A task graph that validation accepts holds, for every id, the node of the list with that id, and
-- its order has exactly the tasks of the list, each once and behind all its dependencies.
pub validate_order :
    (nodes : List TaskNode) (dag : TaskDag)
    → validate nodes ≡ some (ok dag)
    → ((x : TaskId) → Map.get x dag.nodes ≡ find x nodes)
      × Topological (Map.values dag.nodes) [] dag.topological_order
      × ((x : TaskId) → Set.contains x dag.topological_order ≡ is_some (find x nodes))
validate_order nodes dag e =
    let (indexed, sorted) = validated nodes dag e in
    let i = index_nodes_lem [] nodes dag.nodes tt tt indexed in
    let same : (x : TaskId) → Map.get x dag.nodes ≡ find x nodes =
      λ x. unfold Map.get in ground (arith, i.same x) in
    let distinct = values-Distinct dag.nodes i.keyed i.is_sorted in
    let (ordered, complete) =
      sorted_order (Map.values dag.nodes) dag.topological_order distinct sorted in
    (same, ordered, λ x. complete x ∙ ap is_some (find-values x dag.nodes i.keyed ∙ same x))
