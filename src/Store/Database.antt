-- ===== src/Store/Database.antt =====
-- crates/workflow-store/src/lib.rs: the store, its errors and its transactions.
-- SQLite and serde_json are parameters. A statement reads or changes the contents that the
-- transaction sees; a transaction that is dropped before `commit` leaves the contents as they were.
use google_antigravity_cycle.Prelude.{
  ℕ, Bool, true, false, ◌||◌, Option, none, some, [], ◌∷◌, ltb, if◌then◌else◌, Result, ok, err,
}
use google_antigravity_cycle.Prelude.Text.{Text, byte_length}
use google_antigravity_cycle.Prelude.Exec.{Exec}
use google_antigravity_cycle.Core.Workflow.{TransitionError}
use google_antigravity_cycle.Core.Lease.{LeaseError}

pub data StoreMode : Type 0 where
  read_write : StoreMode
  safe_read_only : ℕ → StoreMode

-- The errors of the modelled operations; those of SQLite and of serde_json are of a type of theirs.
pub data StoreError (Sqlite Json : Type 0) : Type 0 where
  sqlite : Sqlite → StoreError Sqlite Json
  read_only lease_not_found aggregate_conflict delivery_in_progress idempotency_conflict
        invalid_idempotency_key :
      StoreError Sqlite Json
  serialization : Json → StoreError Sqlite Json
  transition : TransitionError → StoreError Sqlite Json
  lease : LeaseError → StoreError Sqlite Json

-- A row of `command_deduplication`: the type and the identifier of the aggregate, and the result.
pub record Deduplicated : Type 0 where
  pub aggregate_type : Text
  pub aggregate_id : Text
  pub result_json : Text

-- A row of `candidate_delivery_reservations`.
pub record Reservation : Type 0 where
  pub workflow_id : Text
  pub candidate_digest : Text
  pub journal_digest : Text

-- The statements of workflows.rs on SQLite.
pub record Database (Contents Sqlite : Type 0) : Type 0 where
  -- `SELECT EXISTS(SELECT 1 FROM candidate_delivery_reservations WHERE workflow_id = ?1)`
  pub select_reserved : Text → Contents → Result Bool Sqlite
  -- `SELECT … FROM candidate_delivery_reservations WHERE candidate_id = ?1`
  pub select_reservation : Text → Contents → Result (Option Reservation) Sqlite
  -- the number of rows that `DELETE FROM candidate_delivery_reservations WHERE …` removes
  pub delete_reservation : Text → Reservation → Contents → Result (ℕ × Contents) Sqlite
  -- `SELECT … FROM command_deduplication WHERE idempotency_key = ?1`
  pub select_deduplicated : Text → Contents → Result (Option Deduplicated) Sqlite
  -- `INSERT INTO command_deduplication`, at a time
  pub insert_deduplicated : Text → Deduplicated → Text → Contents → Result Contents Sqlite
  -- `SELECT state_json FROM workflows WHERE id = ?1`
  pub select_workflow : Text → Contents → Result (Option Text) Sqlite
  -- `INSERT INTO workflows … ON CONFLICT(id) DO UPDATE`
  pub upsert_workflow : Text → Text → Text → Contents → Result Contents Sqlite
  -- `UPDATE workflows SET … WHERE id = ?1`
  pub update_workflow : Text → Text → Text → Contents → Result Contents Sqlite
  -- `INSERT INTO events`: the type and the identifier of the aggregate, the event, the time
  pub insert_event : Text → Text → Text → Text → Contents → Result Contents Sqlite
  -- `QueryReturnedNoRows`
  pub no_rows : Sqlite
  pub begin : Contents → Result (Unit {0}) Sqlite
  pub commit : Contents → Result (Unit {0}) Sqlite

-- `serde_json::to_string` and `serde_json::from_str` for a type.
pub record Serde (A Json : Type 0) : Type 0 where
  pub to_string : A → Result Text Json
  pub from_str : Text → Result A Json

-- What the transaction sees, and what is kept if it ends without a commit.
pub record Session (Contents : Type 0) : Type 0 where
  pub saved : Contents
  pub working : Contents

abbrev pub Action : Type 0 → Type 0 → Type 0 → Type 0 → Type 0
Action Contents Sqlite Json A = Exec (Session Contents) (StoreError Sqlite Json) A

-- `?` on an error of SQLite and of serde_json.
abbrev pub from_sqlite :
    {Sqlite Json A : Type 0} → Result A Sqlite → Result A (StoreError Sqlite Json)
from_sqlite (ok a) = ok a
from_sqlite (err e) = err (sqlite e)

abbrev pub from_json : {Sqlite Json A : Type 0} → Result A Json → Result A (StoreError Sqlite Json)
from_json (ok a) = ok a
from_json (err e) = err (serialization e)

abbrev pub check_mode : {Sqlite Json : Type 0} → StoreMode → Option (StoreError Sqlite Json)
check_mode read_write = none
check_mode (safe_read_only _) = some read_only

abbrev is_empty : Text → Bool
is_empty [] = true
is_empty (c ∷ cs) = false

unfoldable pub validate_idempotency_key :
    {Sqlite Json : Type 0} → Text → Option (StoreError Sqlite Json)
unfolding byte_length
validate_idempotency_key value =
    if is_empty value || ltb 256 (byte_length value) then some invalid_idempotency_key else none

module _ {Contents Sqlite Json A : Type 0} where
  abbrev pub query : (Contents → Result A Sqlite) → Action Contents Sqlite Json A
  query f s = (from_sqlite (f s.working), s)

  abbrev pub serde : Result A Json → Action Contents Sqlite Json A
  serde r s = (from_json r, s)

  abbrev pub begun :
      Result (Unit {0}) Sqlite
      → Action Contents Sqlite Json A
      → Contents
      → Result A (StoreError Sqlite Json) × Contents
  begun (err e) m c = (err (sqlite e), c)
  begun (ok _) m c = let (r, s) = m (record { saved = c; working = c }) in (r, s.saved)

  -- `let transaction = connection.transaction()?`, and its drop at the end of the function.
  abbrev pub transaction :
      Database Contents Sqlite
      → Action Contents Sqlite Json A
      → Contents
      → Result A (StoreError Sqlite Json) × Contents
  transaction db m c = begun (db.begin c) m c

  -- A method that checks the mode and the key before its transaction.
  abbrev pub guarded :
      Option (StoreError Sqlite Json)
      → Option (StoreError Sqlite Json)
      → (Contents → Result A (StoreError Sqlite Json) × Contents)
      → Contents
      → Result A (StoreError Sqlite Json) × Contents
  guarded (some e) key m c = (err e, c)
  guarded none (some e) m c = (err e, c)
  guarded none none m c = m c

module _ {Contents Sqlite Json : Type 0} where
  abbrev executed : Result Contents Sqlite → Action Contents Sqlite Json (Unit {0})
  executed (ok c) s = (ok tt, record s { working = c })
  executed (err e) s = (err (sqlite e), s)

  abbrev pub execute : (Contents → Result Contents Sqlite) → Action Contents Sqlite Json (Unit {0})
  execute f s = executed (f s.working) s

  abbrev counted : Result (ℕ × Contents) Sqlite → Action Contents Sqlite Json ℕ
  counted (ok (n, c)) s = (ok n, record s { working = c })
  counted (err e) s = (err (sqlite e), s)

  -- A statement whose number of rows is read.
  abbrev pub execute_counted :
      (Contents → Result (ℕ × Contents) Sqlite) → Action Contents Sqlite Json ℕ
  execute_counted f s = counted (f s.working) s

  abbrev pub committed : Result (Unit {0}) Sqlite → Action Contents Sqlite Json (Unit {0})
  committed (ok _) s = (ok tt, record s { saved = s.working })
  committed (err e) s = (err (sqlite e), s)

  abbrev pub commit_with : Database Contents Sqlite → Action Contents Sqlite Json (Unit {0})
  commit_with db s = committed (db.commit s.working) s
