-- ===== src/Tests/Workflow.antt =====
-- crates/workflow-core/src/workflow.rs on small runs.
use google_antigravity_cycle.Prelude.{
  err, ◌↔◌, ◌+◌, ◌≤◌, ◌<◌, ◌≡◌, ◌≢◌, ◌⊎◌, true, false, some, List, [], ◌∷◌, is_some, arith, refl,
}
use google_antigravity_cycle.Core.Workflow.{
  Workflow, WorkflowState, WorkflowCommand, WorkflowEvent, apply, run, new, full, execution,
  complete_intake, route, architecture_accepted, candidate_ready, verification_passed,
  reviews_ready, approve, deliver, reject, begin_repair, mandatory_gate_failed,
}
use google_antigravity_cycle.Core.Workflow.WorkflowState.{completed}
use google_antigravity_cycle.Core.Workflow.Invariant.{IsValid, stage, new-IsValid, apply-IsValid}
use google_antigravity_cycle.Core.Workflow.Delivery.{
  gather, no_evidence, run-IsValid, completed_needs_evidence,
}
use google_antigravity_cycle.Core.Workflow.Budget.{
  rejections, granted, run_counts, rejections_bounded,
}
use google_antigravity_cycle.Core.Workflow.Diagram.{◌⟶◌, apply-⟶}
use google_antigravity_cycle.Core.Workflow.Liveness.{can_complete}
use google_antigravity_cycle.Core.Workflow.Recovery.{
  fold_events, ledger, fold_events-apply, Refusable, apply-Refusable,
}

-- A delivery in full mode with one rejection in it.
abbrev commands : List WorkflowCommand
commands =
    complete_intake
    ∷ route full
    ∷ architecture_accepted
    ∷ candidate_ready 7
    ∷ verification_passed
    ∷ reviews_ready
    ∷ reject execution
    ∷ begin_repair
    ∷ candidate_ready 8
    ∷ verification_passed
    ∷ reviews_ready
    ∷ approve false
    ∷ approve true
    ∷ deliver
    ∷ []

-- The same up to the arbitration.
abbrev to_arbitration : List WorkflowCommand
to_arbitration =
    complete_intake
    ∷ route full
    ∷ architecture_accepted
    ∷ candidate_ready 7
    ∷ verification_passed
    ∷ reviews_ready
    ∷ []

abbrev arbitrated : Workflow
arbitrated = run (new 2) to_arbitration

arbitrated-IsValid : IsValid arbitrated
arbitrated-IsValid = run-IsValid to_arbitration (new 2) (new-IsValid 2 (omega arith) (omega arith))

completed_needs_evidence_example :
    let w = run (new 2) commands in
    let e = gather (new 2) no_evidence commands in
    (is_some w.current_candidate ≡ true)
    × (e.candidate ≡ w.current_candidate)
    × (e.verified ≡ true)
    × (e.approved ≡ true)
    × ((w.mode ≢ some full) ⊎ (e.reviewed ≡ true))
unfolding run new apply
completed_needs_evidence_example =
    completed_needs_evidence 2 commands (omega arith) (omega arith) refl

apply-IsValid_example : IsValid (apply (reject execution) arbitrated).1
apply-IsValid_example = apply-IsValid (reject execution) arbitrated arbitrated-IsValid

apply-⟶_example : stage arbitrated ⟶ stage (apply (reject execution) arbitrated).1
apply-⟶_example = apply-⟶ (reject execution) arbitrated arbitrated-IsValid

can_complete_example : (cs : List WorkflowCommand) × ((run arbitrated cs).state ≡ completed)
unfolding run new apply
can_complete_example = can_complete arbitrated arbitrated-IsValid (omega arith) (λ e. ground arith)

run_counts_example :
    ((run (new 2) commands).repair_cycles ≡ (new 2).repair_cycles + rejections (new 2) commands)
    × ((run (new 2) commands).max_repair_cycles
        ≡ (new 2).max_repair_cycles + granted (new 2) commands)
run_counts_example = run_counts commands (new 2)

rejections_bounded_example :
    (rejections (new 2) commands ≤ 2 + granted (new 2) commands)
    × (2 + granted (new 2) commands < 256)
rejections_bounded_example = rejections_bounded 2 commands (omega arith) (omega arith)

fold_events-apply_example :
    fold_events
      (ledger (new 2))
      (WorkflowEvent.state_changed WorkflowState.intake WorkflowState.routing ∷ [])
    ≡ ledger (apply complete_intake (new 2)).1
unfolding new apply
fold_events-apply_example =
    fold_events-apply complete_intake (new 2)
      (WorkflowEvent.state_changed WorkflowState.intake WorkflowState.routing ∷ []) refl

apply-Refusable_example :
    ((apply (approve false) arbitrated).0 ≡ err mandatory_gate_failed)
    ↔ Refusable (approve false) arbitrated mandatory_gate_failed
apply-Refusable_example =
    apply-Refusable (approve false) arbitrated mandatory_gate_failed arbitrated-IsValid
