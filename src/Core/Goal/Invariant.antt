-- ===== src/Core/Goal/Invariant.antt =====
-- crates/workflow-core/src/goal.rs: what holds of a goal between two commands.
use google_antigravity_cycle.Prelude.{
  ℕ, ◌<◌, ◌≡◌, Bool, true, false, Option, none, some, List, [], ◌∷◌, is_some, ok, err, arith,
}
use google_antigravity_cycle.Prelude.Text.{Text}
use google_antigravity_cycle.Core.Goal.{
  Goal, GoalState, GoalCommand, GoalEvent, GoalError, apply, run, new, ◌is◌, is_terminal,
  invalid_transition, planning, ready, active, completing, paused, blocked, pause, resume, block,
  resume_blocked,
}

-- The states that a pause or a block may come from.
abbrev pausable : Option GoalState → Bool
pausable none = true
pausable (some planning) = true
pausable (some ready) = true
pausable (some active) = true
pausable _ = false

abbrev blockable : Option GoalState → Bool
blockable none = true
blockable (some planning) = true
blockable (some active) = true
blockable (some completing) = true
blockable _ = false

pub record IsValid (g : Goal) : Type 0 where
  pub paused_exact : is_some g.paused_from ≡ g.state is paused
  pub blocked_exact : is_some g.blocked_from ≡ g.state is blocked
  pub paused_stage : pausable g.paused_from ≡ true
  pub blocked_stage : blockable g.blocked_from ≡ true
  pub some_allowed : 0 < g.max_continuations
  pub maximum_u8 : g.max_continuations < 256
  pub continuations_u8 : g.continuations < 256

pub new-IsValid :
    (objective : Text) (criteria constraints non_goals : List Text) (n : ℕ) {g : Goal}
    → 0 < n
    → n < 256
    → new objective criteria constraints non_goals n ≡ ok g
    → IsValid g
unfolding new
new-IsValid objective criteria constraints non_goals n pos small h = ground arith

-- Every command, accepted or not, keeps a goal valid.
pub apply-IsValid : (c : GoalCommand) (g : Goal) → IsValid g → IsValid (apply c g).1
unfolding apply
apply-IsValid pause g v = ground arith
apply-IsValid _ g v = ground arith

pub run-IsValid : (cs : List GoalCommand) (g : Goal) → IsValid g → IsValid (run g cs)
unfolding run
run-IsValid [] g v = v
run-IsValid (c ∷ cs) g v = run-IsValid cs (apply c g).1 (apply-IsValid c g v)

-- An error leaves the goal as it was.
pub apply_error_unchanged :
    (c : GoalCommand) (g : Goal) (e : GoalError) → (apply c g).0 ≡ err e → (apply c g).1 ≡ g
unfolding apply
apply_error_unchanged c g e h = ground arith

-- In a valid goal the only error is that the command does not fit the state.
pub apply_error_kind :
    (c : GoalCommand) (g : Goal) (e : GoalError)
    → IsValid g
    → (apply c g).0 ≡ err e
    → e ≡ invalid_transition
unfolding apply
apply_error_kind c g e v h = ground arith

pub terminal_refuses :
    (c : GoalCommand) (g : Goal)
    → is_terminal g.state ≡ true
    → apply c g ≡ (err invalid_transition, g)
unfolding apply
terminal_refuses c g h = ground arith

-- A pause, or a block, that is accepted is undone by the resumption.
pub resume-pause :
    (g : Goal) (events : List GoalEvent)
    → IsValid g
    → (apply pause g).0 ≡ ok events
    → (apply resume (apply pause g).1).1 ≡ g
unfolding apply
resume-pause g events v h = ground arith

pub resume_blocked-block :
    (g : Goal) (events : List GoalEvent)
    → IsValid g
    → (apply block g).0 ≡ ok events
    → (apply resume_blocked (apply block g).1).1 ≡ g
unfolding apply
resume_blocked-block g events v h = ground arith
