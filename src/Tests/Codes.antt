-- ===== src/Tests/Codes.antt =====
-- A form of the stored types that is read back as it was written, in place of serde_json.
use google_antigravity_cycle.Prelude.{
  ℕ, zero, suc, ◌≡◌, Option, none, some, List, [], ◌∷◌, Result, ok, err, refl, ap, arith, ◌==◌,
  if◌then◌else◌,
}
use google_antigravity_cycle.Prelude.Text.{Text}
use google_antigravity_cycle.Core.Workflow.{
  Workflow, WorkflowState, WorkflowMode, RepairTarget, WorkflowEvent, discriminant, quick, full,
  state_changed, candidate_selected, repair_cycle_consumed, repair_budget_extended,
  infrastructure_retry_accepted,
}
use google_antigravity_cycle.Store.Contract.{IsSerde}
use google_antigravity_cycle.Store.Workflows.{Codecs, PersistedResult}

abbrev state_of : ℕ → WorkflowState
state_of n =
    if n == 0
    then WorkflowState.intake
    else if n == 1
    then WorkflowState.routing
    else if n == 2
    then WorkflowState.quick_execution
    else if n == 3
    then WorkflowState.architecture
    else if n == 4
    then WorkflowState.execution
    else if n == 5
    then WorkflowState.verification
    else if n == 6
    then WorkflowState.independent_reviews
    else if n == 7
    then WorkflowState.arbitration
    else if n == 8
    then WorkflowState.delivery
    else if n == 9
    then WorkflowState.repair
    else if n == 10
    then WorkflowState.paused
    else if n == 11
    then WorkflowState.blocked
    else if n == 12
    then WorkflowState.completed
    else WorkflowState.cancelled

state_of-discriminant : (s : WorkflowState) → state_of (discriminant s) ≡ s
state_of-discriminant WorkflowState.intake = refl
state_of-discriminant WorkflowState.routing = refl
state_of-discriminant WorkflowState.quick_execution = refl
state_of-discriminant WorkflowState.architecture = refl
state_of-discriminant WorkflowState.execution = refl
state_of-discriminant WorkflowState.verification = refl
state_of-discriminant WorkflowState.independent_reviews = refl
state_of-discriminant WorkflowState.arbitration = refl
state_of-discriminant WorkflowState.delivery = refl
state_of-discriminant WorkflowState.repair = refl
state_of-discriminant WorkflowState.paused = refl
state_of-discriminant WorkflowState.blocked = refl
state_of-discriminant WorkflowState.completed = refl
state_of-discriminant WorkflowState.cancelled = refl

abbrev mode_code : WorkflowMode → ℕ
mode_code quick = 0
mode_code full = 1

abbrev mode_of : ℕ → WorkflowMode
mode_of n = if n == 0 then quick else full

mode_of_lem : (m : WorkflowMode) → mode_of (mode_code m) ≡ m
mode_of_lem quick = refl
mode_of_lem full = refl

abbrev target_code : RepairTarget → ℕ
target_code RepairTarget.execution = 0
target_code RepairTarget.architecture = 1

abbrev target_of : ℕ → RepairTarget
target_of n = if n == 0 then RepairTarget.execution else RepairTarget.architecture

target_of_lem : (t : RepairTarget) → target_of (target_code t) ≡ t
target_of_lem RepairTarget.execution = refl
target_of_lem RepairTarget.architecture = refl

abbrev option_code : {A : Type 0} → (A → ℕ) → Option A → ℕ
option_code f none = 0
option_code f (some a) = suc (f a)

abbrev option_of : {A : Type 0} → (ℕ → A) → ℕ → Option A
option_of f zero = none
option_of f (suc n) = some (f n)

option_of_lem :
    {A : Type 0} (code : A → ℕ) (of : ℕ → A)
    → ((a : A) → of (code a) ≡ a)
    → (o : Option A) → option_of of (option_code code o) ≡ o
option_of_lem code of h none = refl
option_of_lem code of h (some a) = ap some (h a)

abbrev id_of : ℕ → ℕ
id_of n = n

abbrev write_workflow : Workflow → Text → Text
write_workflow w rest =
    discriminant w.state
    ∷ option_code mode_code w.mode
    ∷ option_code id_of w.current_candidate
    ∷ option_code target_code w.repair_target
    ∷ w.repair_cycles
    ∷ w.max_repair_cycles
    ∷ option_code discriminant w.paused_from
    ∷ option_code discriminant w.infrastructure_blocked_from
    ∷ rest

abbrev workflow_of : ℕ → ℕ → ℕ → ℕ → ℕ → ℕ → ℕ → ℕ → Workflow
workflow_of a b c d e f g h = record {
  state = state_of a;
  mode = option_of mode_of b;
  current_candidate = option_of id_of c;
  repair_target = option_of target_of d;
  repair_cycles = e;
  max_repair_cycles = f;
  paused_from = option_of state_of g;
  infrastructure_blocked_from = option_of state_of h;
}

abbrev write_event : WorkflowEvent → Text → Text
write_event (state_changed a b) rest = 0 ∷ discriminant a ∷ discriminant b ∷ rest
write_event (candidate_selected c) rest = 1 ∷ c ∷ 0 ∷ rest
write_event (repair_cycle_consumed a b) rest = 2 ∷ a ∷ b ∷ rest
write_event (repair_budget_extended a b) rest = 3 ∷ a ∷ b ∷ rest
write_event infrastructure_retry_accepted rest = 4 ∷ 0 ∷ 0 ∷ rest

abbrev event_of : ℕ → ℕ → ℕ → WorkflowEvent
event_of n a b =
    if n == 0
    then state_changed (state_of a) (state_of b)
    else if n == 1
    then candidate_selected a
    else if n == 2
    then repair_cycle_consumed a b
    else if n == 3
    then repair_budget_extended a b
    else infrastructure_retry_accepted

abbrev write_events : List WorkflowEvent → Text
write_events [] = []
write_events (e ∷ es) = write_event e (write_events es)

abbrev events_of : Text → List WorkflowEvent
events_of (a ∷ b ∷ c ∷ rest) = event_of a b c ∷ events_of rest
events_of _ = []

events_of-write_events : (es : List WorkflowEvent) → events_of (write_events es) ≡ es
events_of-write_events [] = refl
events_of-write_events (state_changed a b ∷ es) =
    rw (state_of-discriminant a, state_of-discriminant b, events_of-write_events es)
events_of-write_events (candidate_selected c ∷ es) =
    ap (λ r. candidate_selected c ∷ r) (events_of-write_events es)
events_of-write_events (repair_cycle_consumed a b ∷ es) =
    ap (λ r. repair_cycle_consumed a b ∷ r) (events_of-write_events es)
events_of-write_events (repair_budget_extended a b ∷ es) =
    ap (λ r. repair_budget_extended a b ∷ r) (events_of-write_events es)
events_of-write_events (infrastructure_retry_accepted ∷ es) =
    ap (λ r. infrastructure_retry_accepted ∷ r) (events_of-write_events es)

abbrev read_workflow : Text → Result Workflow ℕ
read_workflow (a ∷ b ∷ c ∷ d ∷ e ∷ f ∷ g ∷ h ∷ rest) = ok (workflow_of a b c d e f g h)
read_workflow _ = err 0

abbrev read_result : Text → Result PersistedResult ℕ
read_result (a ∷ b ∷ c ∷ d ∷ e ∷ f ∷ g ∷ h ∷ rest) =
    ok (record { events = events_of rest; state = workflow_of a b c d e f g h })
read_result _ = err 0

abbrev same : Workflow → Workflow
same w =
    workflow_of (discriminant w.state) (option_code mode_code w.mode)
      (option_code id_of w.current_candidate) (option_code target_code w.repair_target)
      w.repair_cycles w.max_repair_cycles (option_code discriminant w.paused_from)
      (option_code discriminant w.infrastructure_blocked_from)

same_lem : (w : Workflow) → same w ≡ w
same_lem w = rw (
  state_of-discriminant w.state,
  option_of_lem mode_code mode_of mode_of_lem w.mode,
  option_of_lem id_of id_of (λ n. refl) w.current_candidate,
  option_of_lem target_code target_of target_of_lem w.repair_target,
  option_of_lem discriminant state_of state_of-discriminant w.paused_from,
  option_of_lem discriminant state_of state_of-discriminant w.infrastructure_blocked_from,
)

abbrev pub codecs : Codecs ℕ
codecs = record {
  workflow = record { to_string = λ w. ok (write_workflow w []); from_str = read_workflow };
  event = record { to_string = λ e. ok (write_event e []); from_str = λ t. err 0 };
  result = record {
    to_string = λ r. ok (write_workflow r.state (write_events r.events));
    from_str = read_result;
  };
}

workflow_back :
    (w : Workflow) (json : Text)
    → codecs.workflow.to_string w ≡ ok json
    → codecs.workflow.from_str json ≡ ok w
workflow_back w json h =
    let e : write_workflow w [] ≡ json = ground arith in rw (← e) (ap ok (same_lem w))

pub workflow-IsSerde : IsSerde codecs.workflow
workflow-IsSerde = record { reads_back = λ w {json} h. workflow_back w json h }

result_back :
    (r : PersistedResult) (json : Text)
    → codecs.result.to_string r ≡ ok json
    → codecs.result.from_str json ≡ ok r
result_back r json h =
    let e : write_workflow r.state (write_events r.events) ≡ json = ground arith in
    rw (← e)
      (λ i. ok (record { events = events_of-write_events r.events i; state = same_lem r.state i }))

pub result-IsSerde : IsSerde codecs.result
result-IsSerde = record { reads_back = λ r {json} h. result_back r json h }
