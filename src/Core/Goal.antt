-- ===== src/Core/Goal.antt =====
-- crates/workflow-core/src/goal.rs: the goal state machine, and what deserialisation accepts.
pub mod Invariant
pub mod Persistence
pub mod Amendments
use google_antigravity_cycle.Prelude.{
  ℕ, ◌*◌, Bool, true, false, not, ◌&&◌, ◌||◌, Option, none, some, List, [], ◌∷◌, ◌++◌, ◌==◌, leb,
  ltb, checked_add_u8, if◌then◌else◌, Result, ok, err, length, any,
}
use google_antigravity_cycle.Prelude.Exec.{
  Exec, pure, raise, gets, modify, ok_or, raise_if, arm, ◌>>=◌, ◌>>◌,
}
use google_antigravity_cycle.Prelude.Text.{Text, is_blank, byte_length}
use google_antigravity_cycle.Core.Request
use google_antigravity_cycle.Core.Request.{RequestRecord, RequestError, Timestamp}

abbrev pub max_items : ℕ
max_items = 256

abbrev pub max_objective_bytes : ℕ
max_objective_bytes = 8 * 1024 * 1024

abbrev pub max_text_bytes : ℕ
max_text_bytes = 4096

pub data GoalState : Type 0 where
  draft planning ready active paused blocked completing completed aborted : GoalState

abbrev discriminant : GoalState → ℕ
discriminant draft = 0
discriminant planning = 1
discriminant ready = 2
discriminant active = 3
discriminant paused = 4
discriminant blocked = 5
discriminant completing = 6
discriminant completed = 7
discriminant aborted = 8

infix 50 ◌is◌
abbrev pub ◌is◌ : GoalState → GoalState → Bool
a is b = discriminant a == discriminant b

abbrev pub is_terminal : GoalState → Bool
is_terminal completed = true
is_terminal aborted = true
is_terminal _ = false

pub data GoalCommand : Type 0 where
  start_planning mark_ready activate pause resume block resume_blocked continue request_completion
        approve_completion reject_completion abort :
      GoalCommand

pub data GoalEvent : Type 0 where
  -- from, to
  state_changed : GoalState → GoalState → GoalEvent
  -- current, maximum
  continuation_recorded : ℕ → ℕ → GoalEvent
  continuation_limit_reached : ℕ → GoalEvent

pub record Goal : Type 0 where
  pub request : RequestRecord
  pub success_criteria : List Text
  pub constraints : List Text
  pub non_goals : List Text
  pub state : GoalState
  -- a `u8`
  pub max_continuations : ℕ
  -- a `u8`
  pub continuations : ℕ
  pub paused_from : Option GoalState
  pub blocked_from : Option GoalState

pub data GoalError : Type 0 where
  invalid_objective invalid_field invalid_transition : GoalError
  request_error : RequestError → GoalError

-- The two checks of the texts: `some e` is the error that they return.
unfoldable pub validate_objective : Text → Option GoalError
validate_objective value =
    if is_blank value || ltb max_objective_bytes (byte_length value)
    then some invalid_objective
    else none

unfoldable pub validate_items : List Text → Option GoalError
validate_items values =
    if ltb max_items (length values)
      || any (λ value. is_blank value || ltb max_text_bytes (byte_length value)) values
    then some invalid_field
    else none

-- `check?; rest`
abbrev pub and_then {ℓ} : {A : Type ℓ} → Option GoalError → Result A GoalError → Result A GoalError
and_then none r = r
and_then (some e) r = err e

-- The goal that `UncheckedGoal` is taken for: its fields are those of `Goal`. Its request has the type
-- `RequestRecord`, and so has passed `RequestRecord::try_from` already.
unfoldable pub try_from : Goal → Result Goal GoalError
try_from value = and_then (validate_objective value.request.original_text) (
    and_then (validate_items value.success_criteria) (
      and_then (validate_items value.constraints) (
        and_then (validate_items value.non_goals) (
          if value.max_continuations == 0 || ltb value.max_continuations value.continuations
          then err invalid_field
          else ok value))))

-- `Goal::deserialize`: the nested request is checked while `UncheckedGoal` is read, then the goal. serde
-- carries the text of the error, which is kept here as the error itself.
unfoldable pub deserialize : Goal → Result Goal GoalError
unfolding Request.try_from try_from
deserialize value = elim (Request.try_from value.request) [
  | err e ↦ err (request_error e)
  | ok request ↦ try_from (record value { request = request })
]

unfoldable pub new : Text → List Text → List Text → List Text → ℕ → Result Goal GoalError
unfolding Request.new
new objective success_criteria constraints non_goals max_continuations =
    and_then (validate_objective objective) (
      and_then (validate_items success_criteria) (
        and_then (validate_items constraints) (
          and_then (validate_items non_goals) (
            ok (record {
              request = Request.new objective [];
              success_criteria = success_criteria;
              constraints = constraints;
              non_goals = non_goals;
              state = draft;
              max_continuations = max_continuations;
              continuations = 0;
              paused_from = none;
              blocked_from = none;
            })))))

abbrev pub Action : Type 0 → Type 0
Action = Exec Goal GoalError

-- What the goal takes over from a method of its request, whose errors it wraps.
abbrev wrap :
    Goal → Result (Unit {0}) RequestError × RequestRecord → Result (Unit {0}) GoalError × Goal
wrap g (ok a, r) = (ok a, record g { request = r })
wrap g (err e, r) = (err (request_error e), record g { request = r })

unfoldable pub append_amendment : Text → Timestamp → Action (Unit {0})
unfolding Request.append_amendment
append_amendment text received_at g =
    if is_terminal g.state || is_blank text || ltb max_objective_bytes (byte_length text)
    then (err invalid_transition, g)
    else wrap g (Request.append_amendment text received_at g.request)

abbrev transition : GoalState → Action (List GoalEvent)
transition to g = pure (state_changed g.state to ∷ []) (record g { state = to })

abbrev take_back : Option GoalState → Action (List GoalEvent)
take_back from = do previous ← ok_or invalid_transition from; transition previous

-- The end of `continue_goal`: at the limit the goal is blocked.
limit : Bool → List GoalEvent → Action (List GoalEvent)
limit false events = pure events
limit true events = do
  modify (λ g. record g { blocked_from = some g.state })
  maximum ← gets (λ g. g.max_continuations)
  moved ← transition blocked
  pure (events ++ continuation_limit_reached maximum ∷ moved)

continue_goal : Action (List GoalEvent)
unfolding limit
continue_goal = do
  continuations ← gets (λ g. g.continuations)
  maximum ← gets (λ g. g.max_continuations)
  current ← ok_or invalid_transition (checked_add_u8 continuations 1)
  modify (λ g. record g { continuations = current })
  limit (leb maximum current) (continuation_recorded current maximum ∷ [])

abbrev when : (Goal → Bool) → Action (List GoalEvent) → Action (List GoalEvent)
when test = arm test invalid_transition

abbrev when_in : GoalState → Action (List GoalEvent) → Action (List GoalEvent)
when_in s = when (λ g. g.state is s)

unfoldable pub apply : GoalCommand → Action (List GoalEvent)
unfolding continue_goal
apply start_planning = when_in draft (transition planning)
apply mark_ready = when_in planning (transition ready)
apply activate = when_in ready (transition active)
apply pause =
    when (λ g. g.state is planning || g.state is ready || g.state is active)
      do modify (λ g. record g { paused_from = some g.state }); transition paused
apply resume = when_in paused do
  from ← gets (λ g. g.paused_from)
  modify (λ g. record g { paused_from = none })
  take_back from
apply block =
    when (λ g. g.state is planning || g.state is active || g.state is completing)
      do modify (λ g. record g { blocked_from = some g.state }); transition blocked
apply resume_blocked = when_in blocked do
  from ← gets (λ g. g.blocked_from)
  modify (λ g. record g { blocked_from = none })
  take_back from
apply continue = when_in active continue_goal
apply request_completion = when_in active (transition completing)
apply approve_completion = when_in completing (transition completed)
apply reject_completion = when_in completing (transition active)
apply abort =
    when (λ g. not (is_terminal g.state))
      do modify (λ g. record g { paused_from = none; blocked_from = none }); transition aborted

-- The state after a sequence of commands, accepted or not.
unfoldable pub run : Goal → List GoalCommand → Goal
run g [] = g
run g (c ∷ cs) = run (apply c g).1 cs
