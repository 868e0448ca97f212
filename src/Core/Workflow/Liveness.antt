-- ===== src/Core/Workflow/Liveness.antt =====
-- crates/workflow-core/src/workflow.rs: a way to the end from every valid workflow.
use google_antigravity_cycle.Prelude.{
  ◌<◌, ◌≡◌, ◌≢◌, ◌⊎◌, inl, inr, Bool-cases, Bool, true, false, Option, none, some, List, [], ◌∷◌,
  arith, refl,
}
use google_antigravity_cycle.Core.Workflow.{
  Workflow, WorkflowState, WorkflowCommand, full, apply, run, complete_intake, route,
  architecture_accepted, candidate_ready, verification_passed, reviews_ready, approve, deliver,
  begin_repair, resume, resume_blocked, resume_infrastructure,
}
use google_antigravity_cycle.Core.Workflow.WorkflowState.{
  intake, routing, quick_execution, architecture, execution, verification, independent_reviews,
  arbitration, delivery, repair, paused, blocked, completed, cancelled,
}
use google_antigravity_cycle.Core.Workflow.Invariant.{IsValid, apply-IsValid}

abbrev pub Completes : Workflow → Type 0
Completes w = (cs : List WorkflowCommand) × ((run w cs).state ≡ completed)

-- Neither suspended nor cancelled.
abbrev is_active : WorkflowState → Bool
is_active paused = false
is_active blocked = false
is_active cancelled = false
is_active _ = true

first : (c : WorkflowCommand) (w : Workflow) → Completes (apply c w).1 → Completes w
unfolding run
first c w (cs, done) = (c ∷ cs, done)

from_delivery : (w : Workflow) → IsValid w → w.state ≡ delivery → Completes w
unfolding run apply
from_delivery w v s = (deliver ∷ [], ground arith)

from_arbitration : (w : Workflow) → IsValid w → w.state ≡ arbitration → Completes w
unfolding apply
from_arbitration w v s =
    first (approve true) w
      (from_delivery (apply (approve true) w).1 (apply-IsValid (approve true) w v) (ground arith))

from_independent_reviews : (w : Workflow) → IsValid w → w.state ≡ independent_reviews → Completes w
unfolding apply
from_independent_reviews w v s =
    first reviews_ready w
      (from_arbitration (apply reviews_ready w).1 (apply-IsValid reviews_ready w v) (ground arith))

next_of_verification :
    (w : Workflow)
    → IsValid w
    → w.state ≡ verification
    → ((apply verification_passed w).1.state ≡ arbitration)
      ⊎ ((apply verification_passed w).1.state ≡ independent_reviews)
unfolding apply
next_of_verification w v s = ground arith

from_verification : (w : Workflow) → IsValid w → w.state ≡ verification → Completes w
unfolding apply
from_verification w v s = elim (next_of_verification w v s) [
  | inl a ↦
      first verification_passed w (from_arbitration _ (apply-IsValid verification_passed w v) a)
  | inr r ↦
      first verification_passed w
        (from_independent_reviews _ (apply-IsValid verification_passed w v) r)
]

from_execution : (w : Workflow) → IsValid w → w.state ≡ execution → Completes w
unfolding apply
from_execution w v s = first (candidate_ready 0) w (
    from_verification (apply (candidate_ready 0) w).1 (apply-IsValid (candidate_ready 0) w v)
      (ground arith))

from_quick_execution : (w : Workflow) → IsValid w → w.state ≡ quick_execution → Completes w
unfolding apply
from_quick_execution w v s = first (candidate_ready 0) w (
    from_verification (apply (candidate_ready 0) w).1 (apply-IsValid (candidate_ready 0) w v)
      (ground arith))

from_architecture : (w : Workflow) → IsValid w → w.state ≡ architecture → Completes w
unfolding apply
from_architecture w v s = first architecture_accepted w (
    from_execution (apply architecture_accepted w).1 (apply-IsValid architecture_accepted w v)
      (ground arith))

from_routing : (w : Workflow) → IsValid w → w.state ≡ routing → Completes w
unfolding apply
from_routing w v s =
    first (route full) w
      (from_architecture (apply (route full) w).1 (apply-IsValid (route full) w v) (ground arith))

from_intake : (w : Workflow) → IsValid w → w.state ≡ intake → Completes w
unfolding apply
from_intake w v s =
    first complete_intake w
      (from_routing (apply complete_intake w).1 (apply-IsValid complete_intake w v) (ground arith))

next_of_repair :
    (w : Workflow)
    → IsValid w
    → w.state ≡ repair
    → ((apply begin_repair w).1.state ≡ execution) ⊎ ((apply begin_repair w).1.state ≡ architecture)
unfolding apply
next_of_repair w v s = ground arith

from_repair : (w : Workflow) → IsValid w → w.state ≡ repair → Completes w
from_repair w v s = elim (next_of_repair w v s) [
  | inl e ↦ first begin_repair w (from_execution _ (apply-IsValid begin_repair w v) e)
  | inr a ↦ first begin_repair w (from_architecture _ (apply-IsValid begin_repair w v) a)
]

-- A state that is neither suspended nor cancelled.
from_active :
    (w : Workflow) (s : WorkflowState) → IsValid w → w.state ≡ s → is_active s ≡ true → Completes w
unfolding run
from_active w intake v e a = from_intake w v e
from_active w routing v e a = from_routing w v e
from_active w quick_execution v e a = from_quick_execution w v e
from_active w architecture v e a = from_architecture w v e
from_active w execution v e a = from_execution w v e
from_active w verification v e a = from_verification w v e
from_active w independent_reviews v e a = from_independent_reviews w v e
from_active w arbitration v e a = from_arbitration w v e
from_active w delivery v e a = from_delivery w v e
from_active w repair v e a = from_repair w v e
from_active w completed v e a = ([], e)
from_active w paused v e a = cc
from_active w blocked v e a = cc
from_active w cancelled v e a = cc

-- The command that ends a suspension.
release : Option WorkflowState → WorkflowState → WorkflowCommand
release _ paused = resume
release (some _) _ = resume_infrastructure
release none _ = resume_blocked 1

released :
    (w : Workflow)
    → IsValid w
    → w.max_repair_cycles < 255
    → is_active w.state ≡ false
    → w.state ≢ cancelled
    → is_active (apply (release w.infrastructure_blocked_from w.state) w).1.state ≡ true
unfolding apply release
released w v room still live = ground arith

-- From every valid workflow that is not cancelled, and whose repair budget can still grow, some
-- sequence of commands leads to completion.
pub can_complete :
    (w : Workflow)
    → IsValid w
    → w.max_repair_cycles < 255
    → w.state ≢ cancelled
    → (cs : List WorkflowCommand) × ((run w cs).state ≡ completed)
can_complete w v room live = elim (Bool-cases (is_active w.state)) [
  | inl a ↦ from_active w w.state v refl a
  | inr still ↦
      let c = release w.infrastructure_blocked_from w.state in
      first c w (
        from_active (apply c w).1 (apply c w).1.state (apply-IsValid c w v) refl
          (released w v room still live))
]
