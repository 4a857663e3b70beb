-- ===== src/Core/Routing/Mode.antt =====
-- What decides the mode (crates/workflow-core/src/routing.rs).
use opencode_cycle_plugin.Prelude.{
  true, false, not, ◌&&◌, List, [], ◌∷◌, ◌≡◌, refl, ◌↔◌, ◌⊎◌, arith, is_empty, any, is_some, ◌++◌,
}
use opencode_cycle_plugin.Core.Workflow.{WorkflowMode}
use opencode_cycle_plugin.Core.Routing.{
  RiskFact, RiskCategory, RoutingInput, RoutingDecision, UserRoutingPreference, is_advisory,
  insert_category, categories, counts, route_workflow,
}

categories_advisory :
    (before : List RiskFact) (fact : RiskFact) (rest : List RiskFact)
    → is_advisory fact.source ≡ true
    → categories counts (before ++ fact ∷ rest) ≡ categories counts (before ++ rest)
unfolding categories counts
categories_advisory [] fact rest advisory = ground arith
categories_advisory (f ∷ before) fact rest advisory =
    let later = categories_advisory before fact rest advisory in ground arith

path_backed_advisory :
    (before : List RiskFact) (fact : RiskFact) (rest : List RiskFact)
    → is_advisory fact.source ≡ true
    → any (λ f. counts f && f.path_backed) (before ++ fact ∷ rest)
      ≡ any (λ f. counts f && f.path_backed) (before ++ rest)
unfolding counts
path_backed_advisory [] fact rest advisory = ground arith
path_backed_advisory (f ∷ before) fact rest advisory =
    let later = path_backed_advisory before fact rest advisory in ground arith

insert_category_full :
    (c : RiskCategory) (cs : List RiskCategory) → is_empty (insert_category c cs) ≡ false
unfolding insert_category
insert_category_full c [] = refl
insert_category_full c (d ∷ cs) = ground arith

is_empty-categories :
    (facts : List RiskFact) → is_empty (categories counts facts) ≡ not (any counts facts)
unfolding categories
is_empty-categories [] = refl
is_empty-categories (f ∷ facts) =
    let rest = is_empty-categories facts in
    let filled = insert_category_full f.category (categories counts facts) in ground arith

abbrev pub with_facts : RoutingInput → List RiskFact → RoutingInput
with_facts input facts = record input { facts = facts }

abbrev pub IsSameRoute : RoutingDecision → RoutingDecision → Type 0
IsSameRoute d e =
    (d.mode ≡ e.mode)
    × (d.critical_categories ≡ e.critical_categories)
    × (d.downgrade_approval_required ≡ e.downgrade_approval_required)
    × (d.downgrade_approval ≡ e.downgrade_approval)

-- A fact that a model advises, wherever it stands among the facts, changes neither the mode nor the
-- critical categories, nor whether a downgrade needs an approval, nor the approval recorded.
pub route_workflow-advisory :
    (input : RoutingInput) (before : List RiskFact) (fact : RiskFact) (rest : List RiskFact)
    → is_advisory fact.source ≡ true
    → IsSameRoute
        (route_workflow (with_facts input (before ++ fact ∷ rest)))
        (route_workflow (with_facts input (before ++ rest)))
unfolding route_workflow
route_workflow-advisory input before fact rest advisory =
    let a = categories_advisory before fact rest advisory in
    let b = path_backed_advisory before fact rest advisory in (rw (a, b), a, rw a, rw a)

-- A user who prefers Quick gets Quick exactly when no critical fact counts or a downgrade approval is
-- given, and an approval is asked for exactly when this preference is overruled.
pub route_workflow_quick :
    (input : RoutingInput)
    → input.preference ≡ UserRoutingPreference.quick
    → ((route_workflow input).mode ≡ WorkflowMode.quick
        ↔ ((any counts input.facts ≡ false) ⊎ (is_some input.critical_downgrade_approval ≡ true)))
      × ((route_workflow input).downgrade_approval_required ≡ true
          ↔ ((route_workflow input).mode ≡ WorkflowMode.full))
unfolding route_workflow
route_workflow_quick input preferred = let counted = is_empty-categories input.facts in ground arith
