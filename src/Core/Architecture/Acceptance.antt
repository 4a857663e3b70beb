-- ===== src/Core/Architecture/Acceptance.antt =====
-- What a validated plan promises, crates/workflow-core/src/architecture.rs.
use opencode_cycle_plugin.Prelude.{
  Option, none, some, [], Result, ok, err, ◌>>◌, ◌≡◌, refl, arith, bind_inv,
}
use opencode_cycle_plugin.Core.Dag
use opencode_cycle_plugin.Core.Dag.{TaskDag, DagError}
use opencode_cycle_plugin.Core.Dag.Total
use opencode_cycle_plugin.Core.Architecture.{
  ArchitecturePlan, ArchitectureError, Index, index_requirements, cover_tasks, check_coverage,
  check_texts, index_and_cover, finish, validate_graph, validate, dag_nodes,
}
use opencode_cycle_plugin.Core.Architecture.Coverage.{IsCovering, index_and_cover-IsCovering}

-- the plan is returned, its tasks form a graph, and they cover its requirements
pub record IsAccepted (p q : ArchitecturePlan) : Type 0 where
  pub unchanged : q ≡ p
  pub graph : (dag : TaskDag) × (Dag.validate (dag_nodes p.tasks) ≡ some (ok dag))
  pub covering : IsCovering p.requirements p.tasks

finish_inv :
    (p q : ArchitecturePlan) (covered : Index) (dag : Option (Result TaskDag DagError))
    → Dag.validate (dag_nodes p.tasks) ≡ dag
    → finish p covered dag ≡ some (ok q)
    → (q ≡ p) × ((d : TaskDag) × (dag ≡ some (ok d))) × (check_coverage covered ≡ ok tt)
finish_inv p q covered none e h = cc
finish_inv p q covered (some (err x)) e h = cc
finish_inv p q covered (some (ok d)) e h =
    let chosen : (check_coverage covered >> ok p) ≡ ok q = ground (arith, h) in
    let (_, c, own) = bind_inv (check_coverage covered) (λ _. ok p) q chosen in
    (ground (arith, own), (d, refl), c)

validate_graph-IsAccepted :
    (p q : ArchitecturePlan) (r : Result Index ArchitectureError)
    → index_and_cover p ≡ r
    → validate_graph p r ≡ some (ok q)
    → IsAccepted p q
validate_graph-IsAccepted p q (err x) e h = absurd (cc)
validate_graph-IsAccepted p q (ok out) e h =
    let (same, graph, c) = finish_inv p q out (Dag.validate (dag_nodes p.tasks)) refl h in
    let (_, _, e1) = bind_inv (check_texts p) _ out e in
    let (required, i, e2) =
      bind_inv (index_requirements [] p.requirements) (λ required. cover_tasks required p.tasks) out
        e1 in
    record {
      unchanged = same;
      graph = graph;
      covering = index_and_cover-IsCovering p.requirements p.tasks required out i e2 c;
    }

-- A plan that validation accepts is returned as it is; its tasks form an acyclic graph that the
-- graph's own validation accepts; each of its requirements is among those of some task; and a task
-- names only requirements of the plan.
pub validate-IsAccepted : (p q : ArchitecturePlan) → validate p ≡ some (ok q) → IsAccepted p q
unfolding validate
validate-IsAccepted p q h = validate_graph-IsAccepted p q (index_and_cover p) refl h

finish_total :
    (p : ArchitecturePlan) (out : Index) (dag : Result TaskDag DagError)
    → (r : Result ArchitecturePlan ArchitectureError) × (finish p out (some dag) ≡ some r)
finish_total p out (ok d) = (check_coverage out >> ok p, refl)
finish_total p out (err e) = (_, refl)

validate_graph_total :
    (p : ArchitecturePlan) (out : Result Index ArchitectureError)
    → (r : Result ArchitecturePlan ArchitectureError) × (validate_graph p out ≡ some r)
validate_graph_total p (err e) = (_, refl)
validate_graph_total p (ok out) =
    let (dag, e) = Total.validate_total (dag_nodes p.tasks) in
    let (r, f) = finish_total p out dag in (r, rw e f)

-- Whatever plan it is given, validation returns the plan or an error: the search in the task graph
-- does not run out of fuel.
pub validate_plan_total :
    (p : ArchitecturePlan) → (r : Result ArchitecturePlan ArchitectureError) × (validate p ≡ some r)
unfolding validate
validate_plan_total p = validate_graph_total p (index_and_cover p)
