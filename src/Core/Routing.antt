-- ===== src/Core/Routing.antt =====
-- The mode of a workflow, crates/workflow-core/src/routing.rs. A `BTreeSet` of categories is a list
-- in the order of the declaration, which `rank` numbers. A receipt id is only kept: a number.
pub mod Mode
mod Examples
use opencode_cycle_plugin.Prelude.{
  ℕ, Bool, true, false, not, ◌&&◌, ◌||◌, Option, none, some, List, [], ◌∷◌, ltb, leb, ◌==◌,
  if◌then◌else◌, is_empty, length, any, map, is_some,
}
use opencode_cycle_plugin.Core.Workflow.{WorkflowMode}

pub data RiskCategory : Type 0 where
  authentication authorization cryptography secrets trust_boundary : RiskCategory
  database_migration persistence data_integrity new_dependency public_api : RiskCategory
  protocol schema compatibility cross_layer concurrency distributed_system : RiskCategory
  packaging installation update release deployment large_refactor : RiskCategory
  ambiguous_requirement high_impact difficult_to_reverse : RiskCategory
  documentation localized_change test_only : RiskCategory

unfoldable pub is_critical : RiskCategory → Bool
is_critical documentation = false
is_critical localized_change = false
is_critical test_only = false
is_critical _ = true

unfoldable pub rank : RiskCategory → ℕ
rank authentication = 0
rank authorization = 1
rank cryptography = 2
rank secrets = 3
rank trust_boundary = 4
rank database_migration = 5
rank persistence = 6
rank data_integrity = 7
rank new_dependency = 8
rank public_api = 9
rank protocol = 10
rank schema = 11
rank compatibility = 12
rank cross_layer = 13
rank concurrency = 14
rank distributed_system = 15
rank packaging = 16
rank installation = 17
rank update = 18
rank release = 19
rank deployment = 20
rank large_refactor = 21
rank ambiguous_requirement = 22
rank high_impact = 23
rank difficult_to_reverse = 24
rank documentation = 25
rank localized_change = 26
rank test_only = 27

pub data RiskSource : Type 0 where
  deterministic user model_advisory : RiskSource

pub record RiskFact : Type 0 where
  pub category : RiskCategory
  pub path_backed : Bool
  pub source : RiskSource

pub data UserRoutingPreference : Type 0 where
  auto quick full : UserRoutingPreference

pub record RoutingInput : Type 0 where
  pub facts : List RiskFact
  pub preference : UserRoutingPreference
  pub critical_downgrade_approval : Option ℕ

pub record RoutingDecision : Type 0 where
  pub mode : WorkflowMode
  pub critical_categories : List RiskCategory
  pub advisory_categories : List RiskCategory
  pub user_promoted : Bool
  pub downgrade_approval_required : Bool
  pub downgrade_approval : Option ℕ

abbrev pub is_advisory : RiskSource → Bool
is_advisory model_advisory = true
is_advisory _ = false

abbrev is_quick : UserRoutingPreference → Bool
is_quick quick = true
is_quick _ = false

abbrev is_full : UserRoutingPreference → Bool
is_full full = true
is_full _ = false

abbrev is_auto : UserRoutingPreference → Bool
is_auto auto = true
is_auto _ = false

unfoldable pub insert_category : RiskCategory → List RiskCategory → List RiskCategory
insert_category c [] = c ∷ []
insert_category c (d ∷ ds) =
    if rank d == rank c
    then d ∷ ds
    else if ltb (rank c) (rank d)
    then c ∷ d ∷ ds
    else d ∷ insert_category c ds

-- `.filter(p).map(|fact| fact.category).collect::<BTreeSet<_>>()`
unfoldable pub categories : (RiskFact → Bool) → List RiskFact → List RiskCategory
categories p [] = []
categories p (fact ∷ facts) =
    let rest = categories p facts in if p fact then insert_category fact.category rest else rest

unfoldable pub counts : RiskFact → Bool
counts fact = not (is_advisory fact.source) && is_critical fact.category

unfoldable pub route_workflow : RoutingInput → RoutingDecision
route_workflow input =
    let critical = categories counts input.facts in
    let path_backed_critical = any (λ fact. counts fact && fact.path_backed) input.facts in
    let promoted = is_full input.preference in
    let requested_downgrade = is_quick input.preference && not (is_empty critical) in
    let approved_downgrade = requested_downgrade && is_some input.critical_downgrade_approval in
    let auto_requires_full = path_backed_critical || leb 2 (length critical) in
    record {
      mode =
          if promoted
            || (is_quick input.preference && not (is_empty critical) && not approved_downgrade)
            || (is_auto input.preference && auto_requires_full)
          then WorkflowMode.full
          else WorkflowMode.quick;
      critical_categories = critical;
      advisory_categories = categories (λ fact. is_advisory fact.source) input.facts;
      user_promoted = promoted;
      downgrade_approval_required = requested_downgrade && not approved_downgrade;
      downgrade_approval = if approved_downgrade then input.critical_downgrade_approval else none;
    }
