-- ===== src/Core/Task.antt =====
-- crates/workflow-core/src/task.rs: the state machine of one task.
pub mod Laws
use google_antigravity_cycle.Prelude.{
  ℕ, Bool, true, false, not, ◌&&◌, List, [], ◌∷◌, ◌==◌, if◌then◌else◌, saturating_add,
}
use google_antigravity_cycle.Prelude.Exec.{Exec, pure, gets, modify, raise_if, arm, ◌>>=◌, ◌>>◌}
use google_antigravity_cycle.Core.Workflow.{
  TransitionError, invalid_transition, mandatory_gate_failed,
}

pub data TaskState : Type 0 where
  pending ready leased running verifying completed failed blocked cancelled : TaskState

abbrev discriminant : TaskState → ℕ
discriminant pending = 0
discriminant ready = 1
discriminant leased = 2
discriminant running = 3
discriminant verifying = 4
discriminant completed = 5
discriminant failed = 6
discriminant blocked = 7
discriminant cancelled = 8

infix 50 ◌is◌
abbrev pub ◌is◌ : TaskState → TaskState → Bool
a is b = discriminant a == discriminant b

abbrev pub is_terminal : TaskState → Bool
is_terminal completed = true
is_terminal failed = true
is_terminal cancelled = true
is_terminal _ = false

pub data TaskCommand : Type 0 where
  dependencies_satisfied lease start submit_candidate : TaskCommand
  -- the flag is `mandatory_gates_passed`
  verification_passed : Bool → TaskCommand
  -- the flag is `retryable`
  verification_failed : Bool → TaskCommand
  block unblock cancel : TaskCommand

pub data TaskEvent : Type 0 where
  -- from, to
  state_changed : TaskState → TaskState → TaskEvent
  attempt_started : ℕ → TaskEvent

pub record Task : Type 0 where
  pub state : TaskState
  -- a `u32`
  pub attempts : ℕ

unfoldable pub new : Task
new = record { state = pending; attempts = 0 }

abbrev pub max_u32 : ℕ
max_u32 = 4294967295

abbrev Action : Type 0
Action = Exec Task TransitionError (List TaskEvent)

abbrev transition : TaskState → Action
transition to t = pure (state_changed t.state to ∷ []) (record t { state = to })

abbrev when : (Task → Bool) → Action → Action
when test = arm test invalid_transition

abbrev when_in : TaskState → Action → Action
when_in s = when (λ t. t.state is s)

unfoldable pub apply : TaskCommand → Exec Task TransitionError (List TaskEvent)
apply dependencies_satisfied = when_in pending (transition ready)
apply lease = when_in ready (transition leased)
apply start = when_in leased do
  modify (λ t. record t { attempts = saturating_add max_u32 t.attempts 1 })
  attempt ← gets (λ t. t.attempts)
  moved ← transition running
  pure (attempt_started attempt ∷ moved)
apply submit_candidate = when_in running (transition verifying)
apply (verification_passed mandatory_gates_passed) =
    when_in verifying
      do raise_if (not mandatory_gates_passed) mandatory_gate_failed; transition completed
apply (verification_failed retryable) =
    when_in verifying (transition (if retryable then ready else failed))
apply block = when (λ t. not (is_terminal t.state) && not (t.state is blocked)) (transition blocked)
apply unblock = when_in blocked (transition ready)
apply cancel = when (λ t. not (is_terminal t.state)) (transition cancelled)

-- The state after a sequence of commands, accepted or not.
unfoldable pub run : Task → List TaskCommand → Task
run t [] = t
run t (c ∷ cs) = run (apply c t).1 cs
