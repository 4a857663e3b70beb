-- ===== src/Core/Routing/Examples.antt =====
-- The theorems on routing at concrete facts.
use opencode_cycle_plugin.Prelude.{◌≡◌, refl, true, false, some, [], ◌∷◌, ◌++◌}
use opencode_cycle_plugin.Core.Workflow.{WorkflowMode}
use opencode_cycle_plugin.Core.Routing.{
  RiskFact, RoutingInput, UserRoutingPreference, authentication, persistence, deterministic,
  model_advisory, route_workflow, categories, counts, insert_category, rank, is_critical,
}
use opencode_cycle_plugin.Core.Routing.Mode.{IsSameRoute, with_facts, route_workflow-advisory}

abbrev found : RiskFact
found = record { category = authentication; path_backed = false; source = deterministic }

abbrev advised : RiskFact
advised = record { category = persistence; path_backed = true; source = model_advisory }

abbrev input : RoutingInput
input = record {
  facts = found ∷ [];
  preference = UserRoutingPreference.quick;
  critical_downgrade_approval = some 4;
}

approved_downgrade : (route_workflow input).mode ≡ WorkflowMode.quick
unfolding route_workflow categories counts insert_category is_critical rank
approved_downgrade = refl

route_workflow-advisory_example :
    IsSameRoute
      (route_workflow (with_facts input ((found ∷ []) ++ advised ∷ [])))
      (route_workflow (with_facts input ((found ∷ []) ++ [])))
route_workflow-advisory_example = route_workflow-advisory input (found ∷ []) advised [] refl
