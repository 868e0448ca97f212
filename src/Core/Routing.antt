-- ===== src/Core/Routing.antt =====
-- crates/workflow-core/src/routing.rs: the mode of a workflow, from the facts on its risk.
-- A `BTreeSet` is the list of its elements in their order, that of the declaration.
pub mod Sets
pub mod Laws
use google_antigravity_cycle.Prelude.{
  ℕ, Bool, true, false, not, ◌&&◌, ◌||◌, Option, none, some, List, [], ◌∷◌, ◌==◌, ltb, leb,
  if◌then◌else◌, length, any, is_some,
}
use google_antigravity_cycle.Core.Workflow.{WorkflowMode}

pub data RiskCategory : Type 0 where
  authentication authorization cryptography secrets trust_boundary database_migration persistence
        data_integrity new_dependency public_api protocol schema compatibility cross_layer
        concurrency distributed_system packaging installation update release deployment
        large_refactor ambiguous_requirement high_impact difficult_to_reverse documentation
        localized_change test_only :
      RiskCategory

-- The place of a category in the declaration, which the derived `Ord` compares.
unfoldable pub rank : RiskCategory → ℕ
rank authentication = 0
rank authorization = 1
rank cryptography = 2
rank secrets = 3
rank trust_boundary = 4
rank database_migration = 5
rank persistence = 6
rank data_integrity = 7
rank new_dependency = 8
rank public_api = 9
rank protocol = 10
rank schema = 11
rank compatibility = 12
rank cross_layer = 13
rank concurrency = 14
rank distributed_system = 15
rank packaging = 16
rank installation = 17
rank update = 18
rank release = 19
rank deployment = 20
rank large_refactor = 21
rank ambiguous_requirement = 22
rank high_impact = 23
rank difficult_to_reverse = 24
rank documentation = 25
rank localized_change = 26
rank test_only = 27

abbrev pub is_critical : RiskCategory → Bool
is_critical documentation = false
is_critical localized_change = false
is_critical test_only = false
is_critical _ = true

pub data RiskSource : Type 0 where
  deterministic user model_advisory : RiskSource

pub record RiskFact : Type 0 where
  pub category : RiskCategory
  pub path_backed : Bool
  pub source : RiskSource

pub data UserRoutingPreference : Type 0 where
  auto quick full : UserRoutingPreference

pub record RoutingInput : Type 0 where
  pub facts : List RiskFact
  pub preference : UserRoutingPreference
  -- a receipt, by its identifier
  pub critical_downgrade_approval : Option ℕ

pub record RoutingDecision : Type 0 where
  pub mode : WorkflowMode
  pub critical_categories : List RiskCategory
  pub advisory_categories : List RiskCategory
  pub user_promoted : Bool
  pub downgrade_approval_required : Bool
  pub downgrade_approval : Option ℕ

abbrev pub is_advisory : RiskSource → Bool
is_advisory model_advisory = true
is_advisory _ = false

abbrev pub prefers_full : UserRoutingPreference → Bool
prefers_full UserRoutingPreference.full = true
prefers_full _ = false

abbrev pub prefers_quick : UserRoutingPreference → Bool
prefers_quick UserRoutingPreference.quick = true
prefers_quick _ = false

abbrev pub prefers_auto : UserRoutingPreference → Bool
prefers_auto auto = true
prefers_auto _ = false

-- A fact that counts: not advised by a model, and of a critical category.
abbrev pub counts : RiskFact → Bool
counts f = not (is_advisory f.source) && is_critical f.category

abbrev pub is_empty : List RiskCategory → Bool
is_empty [] = true
is_empty (c ∷ cs) = false

-- `BTreeSet::insert`
set_insert : RiskCategory → List RiskCategory → List RiskCategory
set_insert c [] = c ∷ []
set_insert c (d ∷ ds) =
    let rest = set_insert c ds in
    if rank c == rank d then d ∷ ds else if ltb (rank c) (rank d) then c ∷ d ∷ ds else d ∷ rest

-- The categories of the facts that pass a test, filtered, mapped and collected.
pub collect : (RiskFact → Bool) → List RiskFact → List RiskCategory
unfolding set_insert
collect p [] = []
collect p (f ∷ fs) = let rest = collect p fs in if p f then set_insert f.category rest else rest

unfoldable pub route_workflow : RoutingInput → RoutingDecision
unfolding collect
route_workflow input =
    let critical_categories = collect counts input.facts in
    let advisory_categories = collect (λ f. is_advisory f.source) input.facts in
    let path_backed_critical = any (λ f. counts f && f.path_backed) input.facts in
    let user_promoted = prefers_full input.preference in
    let requested_downgrade =
      prefers_quick input.preference && not (is_empty critical_categories) in
    let approved_downgrade = requested_downgrade && is_some input.critical_downgrade_approval in
    let auto_requires_full = path_backed_critical || leb 2 (length critical_categories) in
    record {
      mode =
          if user_promoted
            || (prefers_quick input.preference
                && not (is_empty critical_categories)
                && not approved_downgrade)
            || (prefers_auto input.preference && auto_requires_full)
          then WorkflowMode.full
          else WorkflowMode.quick;
      critical_categories = critical_categories;
      advisory_categories = advisory_categories;
      user_promoted = user_promoted;
      downgrade_approval_required = requested_downgrade && not approved_downgrade;
      downgrade_approval = if approved_downgrade then input.critical_downgrade_approval else none;
    }
