-- ===== src/Core/Routing/Laws.antt =====
-- crates/workflow-core/src/routing.rs: which inputs are routed to the full mode.
use google_antigravity_cycle.Prelude.{
  ℕ, ◌≡◌, ◌⊎◌, ◌↔◌, inl, inr, Bool, true, false, not, ◌&&◌, ◌||◌, Option, none, List, [], ◌∷◌, leb,
  if◌then◌else◌, length, any, is_some, arith, refl, sym, ◌∙◌,
}
use google_antigravity_cycle.Core.Workflow.{WorkflowMode}
use google_antigravity_cycle.Core.Routing.{
  RiskFact, RoutingInput, UserRoutingPreference, auto, counts, is_empty, collect, is_advisory,
  prefers_full, prefers_quick, prefers_auto, route_workflow,
}
use google_antigravity_cycle.Core.Routing.Sets.{GivesTwo, two_iff, is_empty-collect}

-- The inputs that need the full mode.
pub data NeedsFull (input : RoutingInput) : Type 0 where
  promoted : input.preference ≡ UserRoutingPreference.full → NeedsFull input
  unapproved :
      input.preference ≡ UserRoutingPreference.quick
      → any counts input.facts ≡ true
      → input.critical_downgrade_approval ≡ none
      → NeedsFull input
  path_backed :
      input.preference ≡ auto
      → any (λ f. counts f && f.path_backed) input.facts ≡ true
      → NeedsFull input
  two_categories : input.preference ≡ auto → GivesTwo counts input.facts → NeedsFull input

-- The test of the mode, on what it reads of the input.
abbrev takes_full : UserRoutingPreference → Bool → Bool → Bool → Bool → Bool
takes_full preference empty approval path two =
    prefers_full preference
    || (prefers_quick preference
        && not empty
        && not ((prefers_quick preference && not empty) && approval))
    || (prefers_auto preference && (path || two))

takes_full_iff :
    (preference : UserRoutingPreference) (empty approval path two : Bool)
    → ((if takes_full preference empty approval path two
          then WorkflowMode.full
          else WorkflowMode.quick)
        ≡ WorkflowMode.full)
      ↔ ((preference ≡ UserRoutingPreference.full)
          ⊎ ((preference ≡ UserRoutingPreference.quick) × (empty ≡ false) × (approval ≡ false))
          ⊎ ((preference ≡ auto) × (path ≡ true))
          ⊎ ((preference ≡ auto) × (two ≡ true)))
takes_full_iff preference empty approval path two = ground arith

no_approval : (o : Option ℕ) → (is_some o ≡ false) ↔ (o ≡ none)
no_approval o = ground arith

not_iff : (a : Bool) → (not a ≡ false) ↔ (a ≡ true)
not_iff a = ground arith

-- The full mode is chosen exactly where the user asks for it, where the user asks for the quick one
-- against a critical fact without an approval, or where, with no preference, a critical fact is
-- backed by a path or two critical facts are of different categories. A fact that a model advises
-- is not critical here.
pub route_full_iff :
    (input : RoutingInput) → ((route_workflow input).mode ≡ WorkflowMode.full) ↔ NeedsFull input
unfolding route_workflow
route_full_iff input =
    let critical = collect counts input.facts in
    let path = any (λ f. counts f && f.path_backed) input.facts in
    let test =
      takes_full_iff input.preference (is_empty critical)
        (is_some input.critical_downgrade_approval) path (leb 2 (length critical)) in
    let empty = is_empty-collect counts input.facts in
    let approval = no_approval input.critical_downgrade_approval in
    (
      λ h. elim (test.0 h) [
        | inl f ↦ promoted f
        | inr (inl (q, e, a)) ↦
            unapproved q ((not_iff (any counts input.facts)).0 (sym empty ∙ e)) (approval.0 a)
        | inr (inr (inl (u, b))) ↦ path_backed u b
        | inr (inr (inr (u, t))) ↦ two_categories u ((two_iff counts input.facts).0 t)
      ],
      λ n. elim n [
        | promoted f ↦ test.1 (inl f)
        | unapproved q c a ↦
            test.1 (inr (inl (q, empty ∙ (not_iff (any counts input.facts)).1 c, approval.1 a)))
        | path_backed u b ↦ test.1 (inr (inr (inl (u, b))))
        | two_categories u t ↦ test.1 (inr (inr (inr (u, (two_iff counts input.facts).1 t))))
      ],
    )

-- The facts without those that a model advises.
pub drop_advice : List RiskFact → List RiskFact
drop_advice [] = []
drop_advice (f ∷ fs) = let rest = drop_advice fs in if is_advisory f.source then rest else f ∷ rest

collect-drop_advice : (fs : List RiskFact) → collect counts (drop_advice fs) ≡ collect counts fs
unfolding collect drop_advice
collect-drop_advice [] = refl
collect-drop_advice (f ∷ fs) = ground (arith, collect-drop_advice fs)

any-drop_advice :
    (fs : List RiskFact)
    → any (λ f. counts f && f.path_backed) (drop_advice fs)
      ≡ any (λ f. counts f && f.path_backed) fs
unfolding drop_advice
any-drop_advice [] = refl
any-drop_advice (f ∷ fs) = ground (arith, any-drop_advice fs)

-- Without the facts that a model advises, an input is routed to the same mode, with the same
-- critical categories, the same demand for an approval and the same approval.
pub route_workflow-drop_advice :
    (input : RoutingInput)
    → let d = route_workflow input in
      let d' = route_workflow (record input { facts = drop_advice input.facts }) in
      (d'.mode ≡ d.mode)
      × (d'.critical_categories ≡ d.critical_categories)
      × (d'.downgrade_approval_required ≡ d.downgrade_approval_required)
      × (d'.downgrade_approval ≡ d.downgrade_approval)
unfolding route_workflow
route_workflow-drop_advice input =
    rw (collect-drop_advice, any-drop_advice) (refl, refl, refl, refl)
