-- ===== src/Core/Workflow/Budget.antt =====
-- crates/workflow-core/src/workflow.rs: the repair cycles against the budget for them.
use google_antigravity_cycle.Prelude.{ℕ, ◌+◌, ◌≤◌, ◌<◌, ◌≡◌, List, [], ◌∷◌, Result, ok, arith}
use google_antigravity_cycle.Core.Workflow.{
  Workflow, WorkflowCommand, WorkflowEvent, TransitionError, apply, run, new, verification_failed,
  verification_rejected, reject, resume_blocked,
}
use google_antigravity_cycle.Core.Workflow.Invariant.{new-IsValid}
use google_antigravity_cycle.Core.Workflow.Delivery.{run-IsValid}

-- One for an accepted rejection.
abbrev rejection : Result (List WorkflowEvent) TransitionError → WorkflowCommand → ℕ
rejection (ok _) verification_failed = 1
rejection (ok _) (verification_rejected _) = 1
rejection (ok _) (reject _) = 1
rejection _ _ = 0

-- The cycles that an accepted `resume_blocked` adds.
abbrev grant : Result (List WorkflowEvent) TransitionError → WorkflowCommand → ℕ
grant (ok _) (resume_blocked n) = n
grant _ _ = 0

pub rejections : Workflow → List WorkflowCommand → ℕ
rejections w [] = 0
rejections w (c ∷ cs) = rejection (apply c w).0 c + rejections (apply c w).1 cs

pub granted : Workflow → List WorkflowCommand → ℕ
granted w [] = 0
granted w (c ∷ cs) = grant (apply c w).0 c + granted (apply c w).1 cs

apply_counts :
    (c : WorkflowCommand) (w : Workflow)
    → ((apply c w).1.repair_cycles ≡ w.repair_cycles + rejection (apply c w).0 c)
      × ((apply c w).1.max_repair_cycles ≡ w.max_repair_cycles + grant (apply c w).0 c)
unfolding apply
apply_counts WorkflowCommand.pause w = ground arith
apply_counts _ w = ground arith

-- The two counters of a workflow are exactly what the accepted commands add up to.
pub run_counts :
    (cs : List WorkflowCommand) (w : Workflow)
    → ((run w cs).repair_cycles ≡ w.repair_cycles + rejections w cs)
      × ((run w cs).max_repair_cycles ≡ w.max_repair_cycles + granted w cs)
unfolding run rejections granted
run_counts [] w = omega arith
run_counts (c ∷ cs) w = omega (arith, apply_counts c w, run_counts cs (apply c w).1)

-- Whatever commands a new workflow with a budget from 1 to 255 is given, no more rejections are accepted than its initial
-- budget and the granted cycles together, and that sum stays in a byte.
pub rejections_bounded :
    (n : ℕ) (cs : List WorkflowCommand)
    → 0 < n
    → n < 256
    → (rejections (new n) cs ≤ n + granted (new n) cs) × (n + granted (new n) cs < 256)
unfolding new
rejections_bounded n cs pos small =
    let v = run-IsValid cs (new n) (new-IsValid n pos small) in
    omega (arith, run_counts cs (new n), v.cycles_capped, v.maximum_u8)
