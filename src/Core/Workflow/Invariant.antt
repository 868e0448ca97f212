-- ===== src/Core/Workflow/Invariant.antt =====
-- crates/workflow-core/src/workflow.rs: what holds of a workflow between two commands.
use google_antigravity_cycle.Prelude.{
  ℕ, ◌≤◌, ◌<◌, ◌≡◌, Bool, true, false, ◌||◌, Option, none, some, is_some, err, arith,
}
use google_antigravity_cycle.Core.Workflow.{
  Workflow, WorkflowState, WorkflowCommand, TransitionError, apply, new, ◌is◌, can_pause,
  can_block_infrastructure,
}
use google_antigravity_cycle.Core.Workflow.WorkflowState.{
  intake, routing, verification, independent_reviews, arbitration, delivery, repair, paused,
  blocked, completed, cancelled,
}

-- The stage of the delivery that a workflow is in, seen through a pause or a block for
-- infrastructure: the state that it will return to.
abbrev pub stage_of : WorkflowState → Option WorkflowState → Option WorkflowState → WorkflowState
stage_of paused (some from) _ = from
stage_of blocked _ (some from) = from
stage_of s _ _ = s

abbrev pub stage : Workflow → WorkflowState
stage w = stage_of w.state w.paused_from w.infrastructure_blocked_from

-- Stages that come after the routing.
abbrev after_routing : WorkflowState → Bool
after_routing intake = false
after_routing routing = false
after_routing cancelled = false
after_routing _ = true

-- Stages that work on a candidate.
abbrev pub has_candidate : WorkflowState → Bool
has_candidate verification = true
has_candidate independent_reviews = true
has_candidate arbitration = true
has_candidate delivery = true
has_candidate completed = true
has_candidate _ = false

-- Stages that follow a rejection.
abbrev pub is_rejected : WorkflowState → Bool
is_rejected repair = true
is_rejected blocked = true
is_rejected _ = false

abbrev all_of : (WorkflowState → Bool) → Option WorkflowState → Bool
all_of p none = true
all_of p (some s) = p s

pub record IsValid (w : Workflow) : Type 0 where
  pub paused_exact : is_some w.paused_from ≡ w.state is paused
  pub paused_stage : all_of can_pause w.paused_from ≡ true
  pub infrastructure_exact :
      is_some w.infrastructure_blocked_from ≡ true
      → (w.state is blocked || w.state is cancelled) ≡ true
  pub infrastructure_stage : all_of can_block_infrastructure w.infrastructure_blocked_from ≡ true
  pub routed : after_routing (stage w) ≡ true → is_some w.mode ≡ true
  pub has_candidate : has_candidate (stage w) ≡ true → is_some w.current_candidate ≡ true
  pub has_target : is_rejected (stage w) ≡ true → is_some w.repair_target ≡ true
  pub cycles_capped : w.repair_cycles ≤ w.max_repair_cycles
  pub budget_left :
      (stage w is blocked || w.state is cancelled) ≡ false → w.repair_cycles < w.max_repair_cycles
  pub exhausted : stage w is blocked ≡ true → w.repair_cycles ≡ w.max_repair_cycles
  pub maximum_u8 : w.max_repair_cycles < 256

pub new-IsValid : (n : ℕ) → 0 < n → n < 256 → IsValid (new n)
unfolding new
new-IsValid n h b = ground arith

-- Every command, accepted or not, keeps a valid workflow valid.
pub apply-IsValid : (c : WorkflowCommand) (w : Workflow) → IsValid w → IsValid (apply c w).1
unfolding apply
apply-IsValid WorkflowCommand.pause w v = ground arith
apply-IsValid _ w v = ground arith

-- An error leaves the workflow as it was.
pub apply_error_unchanged :
    (c : WorkflowCommand) (w : Workflow) (e : TransitionError)
    → (apply c w).0 ≡ err e
    → (apply c w).1 ≡ w
unfolding apply
apply_error_unchanged c w e h = ground arith
