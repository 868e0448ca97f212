-- ===== src/Core/Workflow/Diagram.antt =====
-- crates/workflow-core/src/workflow.rs: the delivery diagram, with pauses and blocks for
-- infrastructure left out.
use google_antigravity_cycle.Prelude.{◌≡◌, false, arith}
use google_antigravity_cycle.Core.Workflow.{
  Workflow, WorkflowState, WorkflowCommand, apply, is_terminal,
}
use google_antigravity_cycle.Core.Workflow.WorkflowState.{
  intake, routing, quick_execution, architecture, execution, verification, independent_reviews,
  arbitration, delivery, repair, blocked, completed, cancelled,
}
use google_antigravity_cycle.Core.Workflow.Invariant.{IsValid, stage}

infix 40 ◌⟶◌
pub data ◌⟶◌ : WorkflowState → WorkflowState → Type 0 where
  stay : {s : WorkflowState} → s ⟶ s
  begin : intake ⟶ routing
  go_quick : routing ⟶ quick_execution
  go_full : routing ⟶ architecture
  plan : architecture ⟶ execution
  replan : execution ⟶ architecture
  submit_quick : quick_execution ⟶ verification
  submit : execution ⟶ verification
  to_reviews : verification ⟶ independent_reviews
  skip_reviews : verification ⟶ arbitration
  arbitrate : independent_reviews ⟶ arbitration
  accept : arbitration ⟶ delivery
  complete : delivery ⟶ completed
  fail_verification : verification ⟶ repair
  exhaust_verification : verification ⟶ blocked
  fail_arbitration : arbitration ⟶ repair
  exhaust_arbitration : arbitration ⟶ blocked
  extend : blocked ⟶ repair
  repair_execution : repair ⟶ execution
  repair_architecture : repair ⟶ architecture
  give_up : {s : WorkflowState} → is_terminal s ≡ false → s ⟶ cancelled

ruleset edges = (
  stay, begin, go_quick, go_full, plan, replan, submit_quick, submit, to_reviews, skip_reviews,
  arbitrate, accept, complete, fail_verification, exhaust_verification, fail_arbitration,
  exhaust_arbitration, extend, repair_execution, repair_architecture, give_up,
)

-- Every command, accepted or not, leaves the stage of a valid workflow or follows one edge.
pub apply-⟶ : (c : WorkflowCommand) (w : Workflow) → IsValid w → stage w ⟶ stage (apply c w).1
unfolding apply
apply-⟶ WorkflowCommand.pause w v = grind (arith, edges)
apply-⟶ _ w v = grind (arith, edges)
