-- ===== src/Store/Workflows.antt =====
-- crates/workflow-store/src/workflows.rs: the commands of a workflow, each applied once.
-- An identifier is the text that `to_string` makes of it, as is a timestamp.
pub mod Yields
pub mod Once
pub mod Retry
pub mod Deliver
use google_antigravity_cycle.Prelude.{
  ℕ, ◌≡◌, Bool, true, false, not, ◌&&◌, ◌||◌, Option, none, some, List, [], ◌∷◌, ◌==◌,
  if◌then◌else◌, Result, ok, err,
}
use google_antigravity_cycle.Prelude.Text.{Text, text_eq, codes}
use google_antigravity_cycle.Prelude.Exec.{Exec, pure, raise, raise_if, ◌>>=◌, ◌>>◌}
use google_antigravity_cycle.Core.Workflow.{
  Workflow, WorkflowCommand, WorkflowEvent, TransitionError, apply, new, deliver,
}
use google_antigravity_cycle.Store.Database.{
  StoreMode, StoreError, Deduplicated, Reservation, Database, Serde, Session, Action, query,
  execute, execute_counted, serde, commit_with, transaction, guarded, check_mode,
  validate_idempotency_key, aggregate_conflict, delivery_in_progress, idempotency_conflict,
  transition, sqlite, serialization, from_sqlite, from_json,
}

pub record WorkflowApplyResult : Type 0 where
  pub duplicate : Bool
  pub events : List WorkflowEvent
  pub state : Workflow

pub record PersistedResult : Type 0 where
  pub events : List WorkflowEvent
  pub state : Workflow

-- What serde_json makes of the types that are stored.
pub record Codecs (Json : Type 0) : Type 0 where
  pub workflow : Serde Workflow Json
  pub event : Serde WorkflowEvent Json
  pub result : Serde PersistedResult Json

-- The aggregate type "workflow".
abbrev pub workflow_type : Text
workflow_type = codes "workflow"

-- `Workflow::default()`
abbrev pub default_workflow : Workflow
default_workflow = new 5

abbrev pub row_of : Text → Text → Deduplicated
row_of workflow_id json = record {
  aggregate_type = workflow_type;
  aggregate_id = workflow_id;
  result_json = json;
}

abbrev same_reservation : Reservation → Option Reservation → Bool
same_reservation r none = false
same_reservation r (some s) =
    text_eq s.workflow_id r.workflow_id
    && text_eq s.candidate_digest r.candidate_digest
    && text_eq s.journal_digest r.journal_digest

-- `state.apply(command)?`
abbrev pub applied :
    {Contents Sqlite Json : Type 0}
    → Result (List WorkflowEvent) TransitionError × Workflow
    → Action Contents Sqlite Json (List WorkflowEvent × Workflow)
applied (ok events, w) s = (ok (events, w), s)
applied (err e, w) s = (err (transition e), s)

module _ {Contents Sqlite Json : Type 0} (db : Database Contents Sqlite)
    (codecs : Codecs Json) where
  -- The state that is stored, or the default.
  abbrev pub decode_state : Option Text → Action Contents Sqlite Json Workflow
  decode_state none s = (ok default_workflow, s)
  decode_state (some json) s = (from_json (codecs.workflow.from_str json), s)

  -- The loop over the events.
  pub insert_events : Text → Text → List WorkflowEvent → Action Contents Sqlite Json (Unit {0})
  insert_events workflow_id timestamp [] = pure tt
  insert_events workflow_id timestamp (event ∷ events) = do
    json ← serde (codecs.event.to_string event)
    execute (db.insert_event workflow_type workflow_id json timestamp)
    insert_events workflow_id timestamp events

  -- The row that answers the command from now on.
  pub remember : Text → Text → Text → PersistedResult → Action Contents Sqlite Json (Unit {0})
  remember workflow_id key timestamp result = do
    json ← serde (codecs.result.to_string result)
    execute (db.insert_deduplicated key (row_of workflow_id json) timestamp)

  -- A key that is known: the stored result, if it is of this workflow.
  pub replay : Text → Deduplicated → Action Contents Sqlite Json WorkflowApplyResult
  replay workflow_id row = do
    raise_if
        (not (text_eq row.aggregate_type workflow_type)
          || not (text_eq row.aggregate_id workflow_id))
        idempotency_conflict
    result ← serde (codecs.result.from_str row.result_json)
    pure (record { duplicate = true; events = result.events; state = result.state })

  -- The command on the state that was read.
  pub apply_to :
      Text
      → Text
      → WorkflowCommand
      → Text
      → Workflow
      → Action Contents Sqlite Json WorkflowApplyResult
  unfolding apply insert_events remember
  apply_to workflow_id key command timestamp state = do
    changed ← applied (apply command state)
    state_json ← serde (codecs.workflow.to_string changed.1)
    execute (db.upsert_workflow workflow_id state_json timestamp)
    insert_events workflow_id timestamp changed.0
    remember workflow_id key timestamp (record { events = changed.0; state = changed.1 })
    commit_with db
    pure (record { duplicate = false; events = changed.0; state = changed.1 })

  -- A key that is new.
  pub apply_new :
      Text → Text → WorkflowCommand → Text → Action Contents Sqlite Json WorkflowApplyResult
  unfolding apply_to
  apply_new workflow_id key command timestamp = do
    current ← query (db.select_workflow workflow_id)
    state ← decode_state current
    apply_to workflow_id key command timestamp state

  abbrev pub answer :
      Text
      → Text
      → WorkflowCommand
      → Text
      → Option Deduplicated
      → Action Contents Sqlite Json WorkflowApplyResult
  unfolding replay apply_new
  answer workflow_id key command timestamp (some row) = replay workflow_id row
  answer workflow_id key command timestamp none = apply_new workflow_id key command timestamp

  unfoldable pub apply_workflow_command :
      StoreMode
      → Text
      → Text
      → WorkflowCommand
      → Text
      → Contents
      → Result WorkflowApplyResult (StoreError Sqlite Json) × Contents
  unfolding answer
  apply_workflow_command mode workflow_id key command timestamp =
      guarded (check_mode mode) (validate_idempotency_key key) (
        transaction db do
          reserved ← query (db.select_reserved workflow_id)
          raise_if reserved delivery_in_progress
          persisted ← query (db.select_deduplicated key)
          answer workflow_id key command timestamp persisted)

  -- `query_row` without `optional`: a missing row is an error of SQLite.
  abbrev pub required : Option Text → Action Contents Sqlite Json Text
  required none s = (from_sqlite (err db.no_rows), s)
  required (some json) s = (ok json, s)

  unfoldable pub deliver_reserved_candidate :
      StoreMode
      → Text
      → Text
      → Text
      → Text
      → Text
      → Text
      → Contents
      → Result WorkflowApplyResult (StoreError Sqlite Json) × Contents
  unfolding apply insert_events remember
  deliver_reserved_candidate mode workflow_id candidate_id candidate_digest journal_digest key
        timestamp =
      let expected : Reservation = record {
        workflow_id = workflow_id;
        candidate_digest = candidate_digest;
        journal_digest = journal_digest;
      } in
      guarded (check_mode mode) (validate_idempotency_key key) (
        transaction db do
          reservation ← query (db.select_reservation candidate_id)
          raise_if (not (same_reservation expected reservation)) aggregate_conflict
          row ← query (db.select_workflow workflow_id)
          current ← required row
          state ← serde (codecs.workflow.from_str current)
          changed ← applied (apply deliver state)
          state_json ← serde (codecs.workflow.to_string changed.1)
          execute (db.update_workflow workflow_id state_json timestamp)
          insert_events workflow_id timestamp changed.0
          remember workflow_id key timestamp (record { events = changed.0; state = changed.1 })
          released ← execute_counted (db.delete_reservation candidate_id expected)
          raise_if (not (released == 1)) aggregate_conflict
          commit_with db
          pure (record { duplicate = false; events = changed.0; state = changed.1 }))

  abbrev decoded : Option Text → Result (Option Workflow) (StoreError Sqlite Json)
  decoded none = ok none
  decoded (some json) = elim (codecs.workflow.from_str json) [
    | ok w ↦ ok (some w)
    | err e ↦ err (serialization e)
  ]

  abbrev loaded : Result (Option Text) Sqlite → Result (Option Workflow) (StoreError Sqlite Json)
  loaded (err e) = err (sqlite e)
  loaded (ok json) = decoded json

  unfoldable pub load_workflow : Text → Contents → Result (Option Workflow) (StoreError Sqlite Json)
  load_workflow workflow_id c = loaded (db.select_workflow workflow_id c)
