-- ===== src/Core/Dag/Ready.antt =====
-- The tasks that may start, and that there is one while a task is left
-- (crates/workflow-core/src/dag.rs).
use opencode_cycle_plugin.Prelude.{
  ◌≡◌, refl, ap, ◌∙◌, subst, sym, ◌↔◌, inl, inr, Bool, true, false, not, ◌&&◌, Option, none, some,
  List, [], ◌∷◌, ◌++◌, arith, ◌==◌, ==_iff, Bool-cases, Option-cases, is_some, ok, all,
  if◌then◌else◌,
}
use opencode_cycle_plugin.Prelude.Map
use opencode_cycle_plugin.Prelude.Set
use opencode_cycle_plugin.Prelude.Count.{contains-append}
use opencode_cycle_plugin.Core.Dag.{TaskId, TaskNode, TaskDag, validate}
use opencode_cycle_plugin.Core.Dag.Scan.{find, Distinct}
use opencode_cycle_plugin.Core.Dag.Order.{unmet, Topological}
use opencode_cycle_plugin.Core.Dag.Validate.{
  validate_order, validated, index_nodes_lem, find-values, values-Distinct,
}

-- the closures of `ready_tasks` and `can_complete`
abbrev pub are_met : List TaskId → TaskNode → Bool
are_met completed node = all (λ dependency. Set.contains dependency completed) node.dependencies

unfoldable pub ready_ids : List TaskId → List TaskNode → List TaskId
ready_ids completed [] = []
ready_ids completed (node ∷ nodes) =
    let rest = ready_ids completed nodes in
    if not (Set.contains node.id completed) && are_met completed node
    then Set.insert node.id rest
    else rest

unfoldable pub ready_tasks : TaskDag → List TaskId → List TaskId
ready_tasks dag completed = ready_ids completed (Map.values dag.nodes)

unfoldable pub can_complete : TaskDag → TaskId → List TaskId → Bool
can_complete dag task_id completed =
    not (Set.contains task_id completed)
    && (elim (Map.get task_id dag.nodes) [ none ↦ false | some node ↦ are_met completed node ])

all_met :
    (before completed deps : List TaskId)
    → ((y : TaskId) → Set.contains y before ≡ true → Set.contains y completed ≡ true)
    → unmet before deps ≡ 0
    → all (λ d. Set.contains d completed) deps ≡ true
unfolding unmet
all_met before completed [] done h = refl
all_met before completed (d ∷ deps) done h = elim (Bool-cases (Set.contains d before)) [
  | inl e ↦
      let here = done d e in
      let rest = all_met before completed deps done (ground arith) in ground arith
  | inr e ↦ absurd (ground arith)
]

contains_of_eq :
    (t x : TaskId) (ids : List TaskId)
    → (t == x) ≡ true
    → Set.contains t ids ≡ true
    → Set.contains x ids ≡ true
contains_of_eq t x ids e h = subst (λ y. Set.contains y ids ≡ true) ((==_iff t x).0 e) h

-- the first task of an order that is not completed
first_open :
    (ns : List TaskNode) (completed before order : List TaskId) (x : TaskId)
    → Topological ns before order
    → ((y : TaskId) → Set.contains y before ≡ true → Set.contains y completed ≡ true)
    → Set.contains x order ≡ true
    → Set.contains x completed ≡ false
    → (t : TaskId) × (n : TaskNode) × (find t ns ≡ some n)
      × (Set.contains t completed ≡ false)
      × (are_met completed n ≡ true)
unfolding Set.contains
first_open ns completed before [] x sorted done inside left = absurd (ground arith)
first_open ns completed before (t ∷ order) x sorted done inside left =
    elim (Bool-cases (Set.contains t completed)) [
      | inr still ↦ elim (Option-cases (find t ns)) [
        | inl missing ↦ let s = sorted.0 in absurd (ground arith)
        | inr (n, found) ↦
            let s = sorted.0 in
            (t, n, found, still, all_met before completed n.dependencies done (ground arith))
      ]
      | inl over ↦
          let other : (t == x) ≡ false = elim (Bool-cases (t == x)) [
            | inl e ↦ absurd (let here = contains_of_eq t x completed e over in ground arith)
            | inr e ↦ e
          ] in
          first_open ns completed (before ++ t ∷ []) order x sorted.2
            (λ y h. elim (Bool-cases (t == y)) [
              | inl e ↦ contains_of_eq t y completed e over
              | inr e ↦ done y (ground (arith, contains-append y before (t ∷ [])))
            ])
            (ground arith) left
    ]

contains-ready_ids :
    (completed : List TaskId) (ns : List TaskNode) (t : TaskId) (n : TaskNode)
    → find t ns ≡ some n
    → Set.contains t completed ≡ false
    → are_met completed n ≡ true
    → Set.contains t (ready_ids completed ns) ≡ true
unfolding ready_ids
contains-ready_ids completed [] t n found left met = absurd (ground arith)
contains-ready_ids completed (m ∷ ns) t n found left met = elim (Bool-cases (m.id == t)) [
  | inl here ↦
      let same : m ≡ n = ground arith in
      let left_here : Set.contains m.id completed ≡ false =
        subst (λ y. Set.contains y completed ≡ false) (sym ((==_iff m.id t).0 here)) left in
      let met_here : are_met completed m ≡ true =
        subst (λ k. are_met completed k ≡ true) (sym same) met in
      ground (arith, Set.contains-insert m.id t (ready_ids completed ns))
  | inr apart ↦
      let rest = contains-ready_ids completed ns t n (ground arith) left met in
      ground (arith, Set.contains-insert m.id t (ready_ids completed ns))
]

-- In a task graph that validation accepts, while some task is not completed, some task is ready: it
-- is among the ready tasks and can be completed, whatever tasks are completed.
pub ready_tasks-progress :
    (nodes : List TaskNode) (dag : TaskDag) (completed : List TaskId) (x : TaskId)
    → validate nodes ≡ some (ok dag)
    → is_some (find x nodes) ≡ true
    → Set.contains x completed ≡ false
    → (t : TaskId) × (Set.contains t (ready_tasks dag completed) ≡ true)
      × (can_complete dag t completed ≡ true)
unfolding ready_tasks can_complete
ready_tasks-progress nodes dag completed x e listed left =
    let (same, ordered, complete) = validate_order nodes dag e in
    let (indexed, sorted) = validated nodes dag e in
    let i = index_nodes_lem [] nodes dag.nodes tt tt indexed in
    let (t, n, found, still, met) =
      first_open (Map.values dag.nodes) completed [] dag.topological_order x ordered
        (λ y h. unfold Set.contains in ground arith) (complete x ∙ listed) left in
    let held : Map.get t dag.nodes ≡ some n = sym (find-values t dag.nodes i.keyed) ∙ found in
    (t, contains-ready_ids completed (Map.values dag.nodes) t n found still met, ground arith)

abbrev is_open : List TaskId → TaskId → Option TaskNode → Bool
is_open completed t none = not (Set.contains t completed) && false
is_open completed t (some n) = not (Set.contains t completed) && are_met completed n

is_open-ready_ids :
    (completed : List TaskId) (ns : List TaskNode) (t : TaskId)
    → Distinct ns
    → Set.contains t (ready_ids completed ns) ≡ is_open completed t (find t ns)
unfolding ready_ids
is_open-ready_ids completed [] t distinct = unfold Set.contains in ground arith
is_open-ready_ids completed (m ∷ ns) t distinct =
    let put = Set.contains-insert m.id t (ready_ids completed ns) in
    let rest = is_open-ready_ids completed ns t distinct.1 in
    elim (Bool-cases (m.id == t)) [
      | inl here ↦
          let absent : find t ns ≡ none =
            subst (λ y. find y ns ≡ none) ((==_iff m.id t).0 here) distinct.0 in
          let same : Set.contains m.id completed ≡ Set.contains t completed =
            ap (λ y. Set.contains y completed) ((==_iff m.id t).0 here) in
          ground arith
      | inr apart ↦ ground arith
    ]

-- In a task graph that validation accepts, a task is among the ready tasks exactly when it can be
-- completed.
pub contains-ready_tasks :
    (nodes : List TaskNode) (dag : TaskDag) (completed : List TaskId) (t : TaskId)
    → validate nodes ≡ some (ok dag)
    → (Set.contains t (ready_tasks dag completed) ≡ true) ↔ (can_complete dag t completed ≡ true)
contains-ready_tasks nodes dag completed t e =
    let (indexed, sorted) = validated nodes dag e in
    let i = index_nodes_lem [] nodes dag.nodes tt tt indexed in
    let distinct = values-Distinct dag.nodes i.keyed i.is_sorted in
    let member = is_open-ready_ids completed (Map.values dag.nodes) t distinct in
    let held = find-values t dag.nodes i.keyed in unfold ready_tasks can_complete in ground arith
