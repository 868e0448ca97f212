-- ===== src/Core/Workflow.antt =====
-- crates/workflow-core/src/workflow.rs: the workflow state machine.
-- A candidate identifier, a UUID in the source, is a number; a `u8` is a number below 256.
-- `&mut self` methods are actions of `Exec Workflow TransitionError`.
pub mod Invariant
pub mod Delivery
pub mod Budget
pub mod Diagram
pub mod Liveness
pub mod Recovery
use google_antigravity_cycle.Prelude.{
  ℕ, Bool, true, false, not, ◌&&◌, ◌||◌, Option, none, some, List, [], ◌∷◌, ◌==◌, leb, is_some,
  checked_add_u8, if◌then◌else◌,
}
use google_antigravity_cycle.Prelude.Exec.{
  Exec, pure, gets, modify, ok_or, raise_if, arm, ◌>>=◌, ◌>>◌,
}

abbrev pub CandidateId : Type 0
CandidateId = ℕ

pub data WorkflowMode : Type 0 where
  quick full : WorkflowMode

pub data RepairTarget : Type 0 where
  execution architecture : RepairTarget

pub data WorkflowState : Type 0 where
  intake routing quick_execution architecture execution verification independent_reviews arbitration
        delivery repair paused blocked completed cancelled :
      WorkflowState

-- The discriminants, which the derived `PartialEq` compares.
abbrev pub discriminant : WorkflowState → ℕ
discriminant intake = 0
discriminant routing = 1
discriminant quick_execution = 2
discriminant architecture = 3
discriminant execution = 4
discriminant verification = 5
discriminant independent_reviews = 6
discriminant arbitration = 7
discriminant delivery = 8
discriminant repair = 9
discriminant paused = 10
discriminant blocked = 11
discriminant completed = 12
discriminant cancelled = 13

infix 50 ◌is◌
abbrev pub ◌is◌ : WorkflowState → WorkflowState → Bool
a is b = discriminant a == discriminant b

abbrev pub is_terminal : WorkflowState → Bool
is_terminal completed = true
is_terminal cancelled = true
is_terminal _ = false

pub data WorkflowCommand : Type 0 where
  complete_intake : WorkflowCommand
  route : WorkflowMode → WorkflowCommand
  architecture_accepted : WorkflowCommand
  candidate_ready : CandidateId → WorkflowCommand
  verification_passed : WorkflowCommand
  verification_failed : WorkflowCommand
  verification_rejected : RepairTarget → WorkflowCommand
  reviews_ready : WorkflowCommand
  -- the flag is `mandatory_gates_passed`
  approve : Bool → WorkflowCommand
  deliver : WorkflowCommand
  reject : RepairTarget → WorkflowCommand
  begin_repair : WorkflowCommand
  pause : WorkflowCommand
  resume : WorkflowCommand
  cancel : WorkflowCommand
  retry_infrastructure : WorkflowCommand
  -- the number is `additional_cycles`
  resume_blocked : ℕ → WorkflowCommand
  block_infrastructure : WorkflowCommand
  resume_infrastructure : WorkflowCommand
  replan_execution : WorkflowCommand

pub data WorkflowEvent : Type 0 where
  -- from, to
  state_changed : WorkflowState → WorkflowState → WorkflowEvent
  candidate_selected : CandidateId → WorkflowEvent
  -- cycle, maximum
  repair_cycle_consumed : ℕ → ℕ → WorkflowEvent
  -- previous, current
  repair_budget_extended : ℕ → ℕ → WorkflowEvent
  infrastructure_retry_accepted : WorkflowEvent

pub data TransitionError : Type 0 where
  invalid_transition mandatory_gate_failed missing_candidate missing_repair_target
        invalid_additional_cycles repair_budget_overflow :
      TransitionError

pub record Workflow : Type 0 where
  pub state : WorkflowState
  pub mode : Option WorkflowMode
  pub current_candidate : Option CandidateId
  pub repair_target : Option RepairTarget
  pub repair_cycles : ℕ
  pub max_repair_cycles : ℕ
  pub paused_from : Option WorkflowState
  pub infrastructure_blocked_from : Option WorkflowState

unfoldable pub new : ℕ → Workflow
new max_repair_cycles = record {
  state = intake;
  mode = none;
  current_candidate = none;
  repair_target = none;
  repair_cycles = 0;
  max_repair_cycles = max_repair_cycles;
  paused_from = none;
  infrastructure_blocked_from = none;
}

abbrev pub Action : Type 0 → Type 0
Action = Exec Workflow TransitionError

abbrev transition : WorkflowState → Action (List WorkflowEvent)
transition to w = pure (state_changed w.state to ∷ []) (record w { state = to })

abbrev require_candidate : Action CandidateId
require_candidate w = ok_or missing_candidate w.current_candidate w

-- `reject`, the method
reject_cycle : RepairTarget → Action (List WorkflowEvent)
reject_cycle target = do
  cycles ← gets (λ w. w.repair_cycles)
  maximum ← gets (λ w. w.max_repair_cycles)
  next_cycle ← ok_or repair_budget_overflow (checked_add_u8 cycles 1)
  modify (λ w. record w { repair_cycles = next_cycle; repair_target = some target })
  moved ← transition (if leb maximum next_cycle then blocked else repair)
  pure (repair_cycle_consumed next_cycle maximum ∷ moved)

abbrev pub can_pause : WorkflowState → Bool
can_pause paused = false
can_pause blocked = false
can_pause verification = false
can_pause delivery = false
can_pause completed = false
can_pause cancelled = false
can_pause _ = true

abbrev pub can_retry_infrastructure : WorkflowState → Bool
can_retry_infrastructure paused = false
can_retry_infrastructure blocked = false
can_retry_infrastructure completed = false
can_retry_infrastructure cancelled = false
can_retry_infrastructure _ = true

abbrev pub can_block_infrastructure : WorkflowState → Bool
can_block_infrastructure paused = false
can_block_infrastructure blocked = false
can_block_infrastructure completed = false
can_block_infrastructure cancelled = false
can_block_infrastructure _ = true

-- The state after `Route(mode)`.
abbrev routed : WorkflowMode → WorkflowState
routed quick = quick_execution
routed full = architecture

-- The state after `VerificationPassed`.
abbrev verified : Option WorkflowMode → Option WorkflowState
verified (some quick) = some arbitration
verified (some full) = some independent_reviews
verified none = none

-- The state after `BeginRepair`.
abbrev repaired : RepairTarget → WorkflowState
repaired execution = execution
repaired architecture = architecture

-- A match arm `command if test => …`; where the test fails the last arm of the match is taken.
abbrev when : (Workflow → Bool) → Action (List WorkflowEvent) → Action (List WorkflowEvent)
when test = arm test invalid_transition

abbrev when_in : WorkflowState → Action (List WorkflowEvent) → Action (List WorkflowEvent)
when_in s = when (λ w. w.state is s)

unfoldable pub apply : WorkflowCommand → Action (List WorkflowEvent)
unfolding reject_cycle
apply complete_intake = when_in intake (transition routing)
apply (route mode) =
    when_in routing do modify (λ w. record w { mode = some mode }); transition (routed mode)
apply architecture_accepted = when_in architecture (transition execution)
apply (candidate_ready candidate_id) =
    when (λ w. w.state is quick_execution || w.state is execution)
      do
        modify (λ w. record w { current_candidate = some candidate_id })
        moved ← transition verification
        pure (candidate_selected candidate_id ∷ moved)
apply verification_passed = when_in verification do
  require_candidate
  mode ← gets (λ w. w.mode)
  next ← ok_or invalid_transition (verified mode)
  transition next
apply verification_failed = when_in verification do require_candidate; reject_cycle execution
apply (verification_rejected target) =
    when_in verification do require_candidate; reject_cycle target
apply reviews_ready = when_in independent_reviews (transition arbitration)
apply (approve mandatory_gates_passed) = when_in arbitration do
  require_candidate
  raise_if (not mandatory_gates_passed) mandatory_gate_failed
  transition delivery
apply deliver = when_in delivery do require_candidate; transition completed
apply (reject target) = when_in arbitration do require_candidate; reject_cycle target
apply begin_repair = when_in repair do
  target ← gets (λ w. w.repair_target)
  modify (λ w. record w { repair_target = none })
  t ← ok_or missing_repair_target target
  modify (λ w. record w { current_candidate = none })
  transition (repaired t)
apply pause =
    when (λ w. can_pause w.state)
      do modify (λ w. record w { paused_from = some w.state }); transition paused
apply resume = when_in paused do
  from ← gets (λ w. w.paused_from)
  modify (λ w. record w { paused_from = none })
  previous ← ok_or invalid_transition from
  transition previous
apply cancel =
    when (λ w. not (is_terminal w.state))
      do modify (λ w. record w { paused_from = none }); transition cancelled
apply retry_infrastructure =
    when (λ w. can_retry_infrastructure w.state) (pure (infrastructure_retry_accepted ∷ []))
apply (resume_blocked additional_cycles) =
    when (λ w. w.state is blocked && not (is_some w.infrastructure_blocked_from))
      do
        raise_if (additional_cycles == 0) invalid_additional_cycles
        previous ← gets (λ w. w.max_repair_cycles)
        current ← ok_or repair_budget_overflow (checked_add_u8 previous additional_cycles)
        modify (λ w. record w { max_repair_cycles = current })
        moved ← transition repair
        pure (repair_budget_extended previous current ∷ moved)
apply block_infrastructure =
    when (λ w. can_block_infrastructure w.state)
      do modify (λ w. record w { infrastructure_blocked_from = some w.state }); transition blocked
apply resume_infrastructure =
    when (λ w. w.state is blocked && is_some w.infrastructure_blocked_from)
      do
        from ← gets (λ w. w.infrastructure_blocked_from)
        modify (λ w. record w { infrastructure_blocked_from = none })
        previous ← ok_or invalid_transition from
        transition previous
apply replan_execution = when_in execution (transition architecture)

-- The state after a sequence of commands, accepted or not.
unfoldable pub run : Workflow → List WorkflowCommand → Workflow
run w [] = w
run w (c ∷ cs) = run (apply c w).1 cs
