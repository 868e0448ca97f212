-- ===== src/Tests/Stores.antt =====
-- crates/workflow-store/src/workflows.rs on a small database.
use google_antigravity_cycle.Prelude.{◌⊎◌, ◌≡◌, true, false, none, some, [], ◌∷◌, ok, refl, arith}
use google_antigravity_cycle.Prelude.Text.{Text, byte_length, text_eq}
use google_antigravity_cycle.Prelude.Maps.{get, insert, remove}
use google_antigravity_cycle.Core.Workflow.{
  Workflow, complete_intake, cancel, new, apply, state_changed,
}
use google_antigravity_cycle.Core.Workflow.WorkflowState.{intake, routing}
use google_antigravity_cycle.Store.Database.{
  read_write, delivery_in_progress, sqlite, validate_idempotency_key,
}
use google_antigravity_cycle.Store.Workflows.{
  WorkflowApplyResult, row_of, apply_workflow_command, deliver_reserved_candidate, load_workflow,
}
use google_antigravity_cycle.Store.Workflows.Yields.{Yields}
use google_antigravity_cycle.Store.Workflows.Once.{Accepted, apply_workflow_command_refines}
use google_antigravity_cycle.Store.Workflows.Retry.{
  retry_replays, AllValid, apply_workflow_command-AllValid,
}
use google_antigravity_cycle.Store.Workflows.Deliver.{
  Delivered, reservation, deliver_reserved_candidate_refines,
}
use google_antigravity_cycle.Tests.Tables.{Tables, Refusal, tables, view, tables-IsSql}
use google_antigravity_cycle.Tests.Codes.{codecs, workflow-IsSerde, result-IsSerde}

abbrev id : Text
id = 119 ∷ []

abbrev key : Text
key = 107 ∷ []

abbrev now : Text
now = 48 ∷ []

abbrev nothing : Tables
nothing = record { rows = []; workflows = []; reservations = [] }

abbrev routed : Workflow
routed = record {
  state = routing;
  mode = none;
  current_candidate = none;
  repair_target = none;
  repair_cycles = 0;
  max_repair_cycles = 5;
  paused_from = none;
  infrastructure_blocked_from = none;
}

abbrev first_answer : WorkflowApplyResult
first_answer = record {
  duplicate = false;
  events = state_changed intake routing ∷ [];
  state = routed;
}

abbrev state_json : Text
state_json = 1 ∷ 0 ∷ 0 ∷ 0 ∷ 0 ∷ 5 ∷ 0 ∷ 0 ∷ []

abbrev one_workflow : Tables
one_workflow = record {
  rows = (key, row_of id (1 ∷ 0 ∷ 0 ∷ 0 ∷ 0 ∷ 5 ∷ 0 ∷ 0 ∷ 0 ∷ 0 ∷ 1 ∷ [])) ∷ [];
  workflows = (id, state_json) ∷ [];
  reservations = [];
}

intake_done :
    apply_workflow_command tables codecs read_write id key complete_intake now nothing
    ≡ (ok first_answer, one_workflow)
unfolding apply_workflow_command apply new get insert byte_length text_eq validate_idempotency_key
intake_done = refl

loaded : load_workflow tables codecs id one_workflow ≡ ok (some routed)
unfolding load_workflow get text_eq
loaded = refl

apply_workflow_command_refines_example :
    Yields
      (λ r t. Accepted tables codecs view read_write id key complete_intake nothing r t)
      (λ e t. t ≡ nothing)
      (apply_workflow_command tables codecs read_write id key complete_intake now nothing)
apply_workflow_command_refines_example =
    apply_workflow_command_refines tables codecs view tables-IsSql workflow-IsSerde result-IsSerde
      read_write id key complete_intake now nothing

-- The same answer, beside a workflow `v` that was stored since.
abbrev two_workflows : Tables
two_workflows = record one_workflow { workflows = (118 ∷ [], state_json) ∷ (id, state_json) ∷ [] }

retry_replays_example :
    Yields
      (λ s t.
        (s ≡ record { duplicate = true; events = first_answer.events; state = routed })
        × (t ≡ two_workflows))
      (λ e t.
        (((q : Refusal) × (e ≡ sqlite q))
          ⊎ ((e ≡ delivery_in_progress) × (view.reserved id two_workflows ≡ true)))
        × (t ≡ two_workflows))
      (apply_workflow_command tables codecs read_write id key cancel now two_workflows)
retry_replays_example =
    retry_replays tables codecs view tables-IsSql workflow-IsSerde result-IsSerde read_write id key
      complete_intake cancel now now nothing one_workflow two_workflows first_answer intake_done
      refl

nothing-AllValid : AllValid codecs view nothing
unfolding get
nothing-AllValid i json w s p = absurd (ground arith)

apply_workflow_command-AllValid_example :
    AllValid codecs view
      (apply_workflow_command tables codecs read_write id key complete_intake now nothing).1
apply_workflow_command-AllValid_example =
    apply_workflow_command-AllValid tables codecs view tables-IsSql workflow-IsSerde result-IsSerde
      read_write id key complete_intake now nothing nothing-AllValid

-- A candidate `a` in delivery, reserved with the digests `b` and `c`.
abbrev waiting : Tables
waiting = record {
  rows = [];
  workflows = (id, 8 ∷ 1 ∷ 8 ∷ 0 ∷ 0 ∷ 5 ∷ 0 ∷ 0 ∷ []) ∷ [];
  reservations = (97 ∷ [], reservation id (98 ∷ []) (99 ∷ [])) ∷ [];
}

abbrev delivered_tables : Tables
delivered_tables = record {
  rows = (key, row_of id (12 ∷ 1 ∷ 8 ∷ 0 ∷ 0 ∷ 5 ∷ 0 ∷ 0 ∷ 0 ∷ 8 ∷ 12 ∷ [])) ∷ [];
  workflows = (id, 12 ∷ 1 ∷ 8 ∷ 0 ∷ 0 ∷ 5 ∷ 0 ∷ 0 ∷ []) ∷ [];
  reservations = [];
}

delivery_done :
    (deliver_reserved_candidate tables codecs read_write id
      (97 ∷ [])
      (98 ∷ [])
      (99 ∷ [])
      key
      now
      waiting).1
    ≡ delivered_tables
unfolding deliver_reserved_candidate apply get insert remove byte_length text_eq
    validate_idempotency_key
delivery_done = refl

deliver_reserved_candidate_refines_example :
    Yields
      (λ r t.
        Delivered tables codecs view id
          (97 ∷ [])
          (reservation id (98 ∷ []) (99 ∷ []))
          key
          waiting
          r
          t)
      (λ e t. t ≡ waiting)
      (deliver_reserved_candidate tables codecs read_write id
        (97 ∷ [])
        (98 ∷ [])
        (99 ∷ [])
        key
        now
        waiting)
deliver_reserved_candidate_refines_example =
    deliver_reserved_candidate_refines tables codecs view tables-IsSql workflow-IsSerde
      result-IsSerde read_write id (97 ∷ []) (98 ∷ []) (99 ∷ []) key now waiting
