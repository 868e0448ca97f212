-- ===== src/Core/Workflow/Recovery.antt =====
-- crates/workflow-core/src/workflow.rs: errors, pauses and blocks.
use google_antigravity_cycle.Prelude.{
  ℕ, ◌+◌, ◌≤◌, ◌<◌, ◌≡◌, ◌↔◌, Bool, true, false, not, ◌&&◌, ◌||◌, is_some, List, [], ◌∷◌, ok, err,
  arith,
}
use google_antigravity_cycle.Core.Workflow.{
  Workflow, WorkflowState, WorkflowCommand, WorkflowEvent, TransitionError, apply, is_terminal,
  ◌is◌, invalid_transition, mandatory_gate_failed, invalid_additional_cycles,
  repair_budget_overflow, complete_intake, route, architecture_accepted, candidate_ready,
  verification_passed, verification_failed, verification_rejected, reviews_ready, approve, deliver,
  reject, begin_repair, resume, cancel, retry_infrastructure, replan_execution, resume_blocked,
  block_infrastructure, resume_infrastructure, state_changed, candidate_selected,
  repair_cycle_consumed, repair_budget_extended, infrastructure_retry_accepted,
}
use google_antigravity_cycle.Core.Workflow.WorkflowState.{
  intake, routing, quick_execution, verification, independent_reviews, arbitration, delivery,
  repair, paused, blocked, completed, cancelled,
}
use google_antigravity_cycle.Core.Workflow.Invariant.{IsValid}

-- The commands that each state is for.
abbrev pub own_command : WorkflowState → WorkflowCommand → Bool
own_command intake complete_intake = true
own_command routing (route _) = true
own_command WorkflowState.architecture architecture_accepted = true
own_command quick_execution (candidate_ready _) = true
own_command WorkflowState.execution (candidate_ready _) = true
own_command WorkflowState.execution replan_execution = true
own_command verification verification_passed = true
own_command verification verification_failed = true
own_command verification (verification_rejected _) = true
own_command independent_reviews reviews_ready = true
own_command arbitration (approve _) = true
own_command arbitration (reject _) = true
own_command delivery deliver = true
own_command repair begin_repair = true
own_command paused resume = true
own_command _ _ = false

-- The states of work: neither paused, blocked nor at an end.
abbrev pub is_working : WorkflowState → Bool
is_working s =
    not (s is paused) && not (s is blocked) && not (s is completed) && not (s is cancelled)

-- Those of every state of work, and those that end or resume a block.
abbrev pub common_command : Workflow → WorkflowCommand → Bool
common_command w WorkflowCommand.pause =
    is_working w.state && not (w.state is verification) && not (w.state is delivery)
common_command w retry_infrastructure = is_working w.state
common_command w block_infrastructure = is_working w.state
common_command w cancel = is_working w.state || w.state is paused || w.state is blocked
common_command w (resume_blocked _) =
    w.state is blocked && not (is_some w.infrastructure_blocked_from)
common_command w resume_infrastructure = w.state is blocked && is_some w.infrastructure_blocked_from
common_command w _ = false

-- What a workflow is open to.
abbrev pub is_open : Workflow → WorkflowCommand → Bool
is_open w c = own_command w.state c || common_command w c

-- What a workflow is refused for.
abbrev pub Refusable : WorkflowCommand → Workflow → TransitionError → Type 0
Refusable c w invalid_transition = is_open w c ≡ false
Refusable (approve gates) w mandatory_gate_failed =
    (is_open w (approve gates) ≡ true) × (gates ≡ false)
Refusable (resume_blocked n) w invalid_additional_cycles =
    (is_open w (resume_blocked n) ≡ true) × (n ≡ 0)
Refusable (resume_blocked n) w repair_budget_overflow =
    (is_open w (resume_blocked n) ≡ true) × (0 < n) × (256 ≤ w.max_repair_cycles + n)
Refusable _ _ _ = ⊥

-- A pause that a valid workflow accepts is undone by the resumption: the workflow is the one before the pause.
pub resume-pause :
    (w : Workflow) (events : List WorkflowEvent)
    → IsValid w
    → (apply WorkflowCommand.pause w).0 ≡ ok events
    → (apply resume (apply WorkflowCommand.pause w).1).1 ≡ w
unfolding apply
resume-pause w events v h = ground arith

pub resume-block_infrastructure :
    (w : Workflow) (events : List WorkflowEvent)
    → IsValid w
    → (apply block_infrastructure w).0 ≡ ok events
    → (apply resume_infrastructure (apply block_infrastructure w).1).1 ≡ w
unfolding apply
resume-block_infrastructure w events v h = ground arith

-- A completed or cancelled workflow refuses every command.
pub terminal_refuses :
    (c : WorkflowCommand) (w : Workflow)
    → is_terminal w.state ≡ true
    → apply c w ≡ (err invalid_transition, w)
unfolding apply
terminal_refuses c w h = ground arith

-- What the events tell: the state and the two counters.
pub record Ledger : Type 0 where
  pub state : WorkflowState
  pub cycles : ℕ
  pub maximum : ℕ

abbrev pub ledger : Workflow → Ledger
ledger w = record { state = w.state; cycles = w.repair_cycles; maximum = w.max_repair_cycles }

pub fold_event : Ledger → WorkflowEvent → Ledger
fold_event l (state_changed from to) = record l { state = to }
fold_event l (candidate_selected _) = l
fold_event l (repair_cycle_consumed cycle maximum) = record l { cycles = cycle }
fold_event l (repair_budget_extended previous current) = record l { maximum = current }
fold_event l infrastructure_retry_accepted = l

pub fold_events : Ledger → List WorkflowEvent → Ledger
unfolding fold_event
fold_events l [] = l
fold_events l (e ∷ es) = fold_events (fold_event l e) es

-- The events of an accepted command, folded over the state and the counters before it, give those
-- after it.
pub fold_events-apply :
    (c : WorkflowCommand) (w : Workflow) (events : List WorkflowEvent)
    → (apply c w).0 ≡ ok events
    → fold_events (ledger w) events ≡ ledger (apply c w).1
unfolding apply fold_events
fold_events-apply c w events h = ground arith

refused_for :
    (c : WorkflowCommand) (w : Workflow) (e : TransitionError)
    → IsValid w
    → (apply c w).0 ≡ err e
    → Refusable c w e
unfolding apply
refused_for WorkflowCommand.pause w e v h = ground arith
refused_for _ w e v h = ground arith

refuses :
    (c : WorkflowCommand) (w : Workflow) (e : TransitionError)
    → IsValid w
    → Refusable c w e
    → (apply c w).0 ≡ err e
unfolding apply
refuses WorkflowCommand.pause w e v h = ground arith
refuses _ w e v h = ground arith

-- A valid workflow refuses a command with an error exactly for the reason of that error:
-- `InvalidTransition` where its state is not open to the command, and, where it is, open gates of an
-- approval, or a grant of cycles that is zero or passes a byte. So a missing candidate or repair
-- target never shows, and every other command that the state is open to is accepted.
pub apply-Refusable :
    (c : WorkflowCommand) (w : Workflow) (e : TransitionError)
    → IsValid w
    → ((apply c w).0 ≡ err e) ↔ Refusable c w e
apply-Refusable c w e v = (refused_for c w e v, refuses c w e v)
