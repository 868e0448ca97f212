-- ===== src/Store/Leases.antt =====
-- crates/workflow-store/src/leases.rs: the leases of tasks in SQLite. The identifier of a new lease is
-- an argument, as in Core/Lease; identifiers stand for their texts.
pub mod Exclusive
use google_antigravity_cycle.Prelude.{
  ℕ, ◌≡◌, ◌⊎◌, inl, inr, Bool, Bool-cases, true, false, ◌||◌, Option, none, some, ◌==◌,
  if◌then◌else◌, Result, Result-cases, ok, err, refl, sym, ap, ◌∙◌, arith,
}
use google_antigravity_cycle.Prelude.Text.{Text, text_eq, codes}
use google_antigravity_cycle.Prelude.Exec.{pure, ◌>>=◌, ◌>>◌}
use google_antigravity_cycle.Prelude.Int.{ℤ}
use google_antigravity_cycle.Core.Lease.{
  Lease, LeaseError, LeaseReconciliation, ActionSafety, active, replayable, manual_review_required,
  acquire, heartbeat, reconcile,
}
use google_antigravity_cycle.Store.Database.{
  StoreMode, read_write, safe_read_only, StoreError, Serde, Session, Action, sqlite, lease,
  lease_not_found, query, serde, execute, begun, committed, check_mode, guarded,
}
use google_antigravity_cycle.Store.Contract.{IsSerde}
use google_antigravity_cycle.Store.Workflows.Yields.{Yields, Run-cases}

-- `manual_review` is `ManualReviewRequired`, whose name the reconciliation of a lease has already.
pub data LeaseAcquisition : Type 0 where
  acquired occupied manual_review : Lease → LeaseAcquisition

-- A row of `leases`, as it is read: the lease and its status.
pub record LeaseRow : Type 0 where
  pub lease_json : Text
  pub status : Text

-- The statements of leases.rs on SQLite.
pub record LeaseDatabase (Contents Sqlite : Type 0) : Type 0 where
  -- `SELECT lease_json, status FROM leases WHERE task_id = ?1`
  pub select_lease : ℕ → Contents → Result (Option LeaseRow) Sqlite
  -- `UPDATE leases SET status = 'uncertain', … WHERE task_id = ?1`
  pub mark_uncertain : ℕ → ℤ → Contents → Result Contents Sqlite
  -- `INSERT INTO leases … ON CONFLICT(task_id) DO UPDATE`: the task, the lease, its text, when it
  -- expires, the time
  pub upsert_lease : ℕ → ℕ → Text → ℤ → ℤ → Contents → Result Contents Sqlite
  -- `SELECT lease_json FROM leases WHERE lease_id = ?1 AND status = 'active'`
  pub select_active : ℕ → Contents → Result (Option Text) Sqlite
  -- `UPDATE leases SET lease_json = ?2, … WHERE lease_id = ?1`
  pub update_lease : ℕ → Text → ℤ → ℤ → Contents → Result Contents Sqlite
  -- `DELETE FROM leases WHERE lease_id = ?1`, with the number of rows, outside a transaction
  pub delete_lease : ℕ → Contents → Result (ℕ × Contents) Sqlite
  pub begin : Contents → Result (Unit {0}) Sqlite
  pub commit : Contents → Result (Unit {0}) Sqlite

abbrev pub uncertain_status : Text
uncertain_status = codes "uncertain"

abbrev pub active_status : Text
active_status = codes "active"

abbrev pub needs_review : LeaseReconciliation → Bool
needs_review manual_review_required = true
needs_review _ = false

abbrev pub is_active : LeaseReconciliation → Bool
is_active active = true
is_active _ = false

module _ {Contents Sqlite Json : Type 0} (db : LeaseDatabase Contents Sqlite)
    (codec : Serde Lease Json) where
  abbrev pub commit_leases : Action Contents Sqlite Json (Unit {0})
  commit_leases s = committed (db.commit s.working) s

  -- `?` on an error of a lease.
  abbrev pub leased : {A : Type 0} → Result A LeaseError → Action Contents Sqlite Json A
  leased (ok a) s = (ok a, s)
  leased (err e) s = (err (lease e), s)

  -- A new lease in the place of what was there.
  pub grant : ℕ → ℕ → ℕ → ℤ → ℤ → ActionSafety → Action Contents Sqlite Json LeaseAcquisition
  unfolding acquire
  grant fresh task_id owner now duration safety = do
    l ← leased (acquire fresh task_id owner now duration safety)
    json ← serde (codec.to_string l)
    execute (db.upsert_lease task_id l.id json l.expires_at_unix_millis now)
    commit_leases
    pure (acquired l)

  -- A lease that may have run its action is left to a person.
  pub review : ℕ → ℤ → Lease → Action Contents Sqlite Json LeaseAcquisition
  review task_id now l = do
    execute (db.mark_uncertain task_id now)
    commit_leases
    pure (manual_review l)

  -- The lease that was found, with its status.
  pub judge :
      ℕ → ℕ → ℕ → ℤ → ℤ → ActionSafety → Text → Lease → Action Contents Sqlite Json LeaseAcquisition
  unfolding grant review reconcile
  judge fresh task_id owner now duration safety status l =
      if text_eq status uncertain_status || needs_review (reconcile l now)
      then review task_id now l
      else if is_active (reconcile l now)
      then pure (occupied l)
      else grant fresh task_id owner now duration safety

  abbrev pub with_current :
      ℕ
      → ℕ
      → ℕ
      → ℤ
      → ℤ
      → ActionSafety
      → Option LeaseRow
      → Action Contents Sqlite Json LeaseAcquisition
  unfolding grant judge
  with_current fresh task_id owner now duration safety none =
      grant fresh task_id owner now duration safety
  with_current fresh task_id owner now duration safety (some row) = do
    l ← serde (codec.from_str row.lease_json)
    judge fresh task_id owner now duration safety row.status l

  unfoldable pub acquire_lease :
      StoreMode
      → ℕ
      → ℕ
      → ℕ
      → ℤ
      → ℤ
      → ActionSafety
      → Contents
      → Result LeaseAcquisition (StoreError Sqlite Json) × Contents
  unfolding with_current
  acquire_lease mode fresh task_id owner now duration safety c =
      guarded (check_mode mode) none
        (λ c.
          begun (db.begin c)
            (do
              current ← query (db.select_lease task_id)
              with_current fresh task_id owner now duration safety current)
            c)
        c

  abbrev found : Option Text → Action Contents Sqlite Json Text
  found none s = (err lease_not_found, s)
  found (some json) s = (ok json, s)

  -- The result of a method of a lease, and the lease after it.
  abbrev extended : Result (Unit {0}) LeaseError × Lease → Action Contents Sqlite Json Lease
  extended (ok _, l) s = (ok l, s)
  extended (err e, l) s = (err (lease e), s)

  unfoldable pub heartbeat_lease :
      StoreMode → ℕ → ℤ → ℤ → Contents → Result Lease (StoreError Sqlite Json) × Contents
  unfolding heartbeat
  heartbeat_lease mode lease_id now duration c =
      guarded (check_mode mode) none
        (λ c.
          begun (db.begin c)
            (do
              row ← query (db.select_active lease_id)
              json ← found row
              before ← serde (codec.from_str json)
              l ← extended (heartbeat now duration before)
              changed ← serde (codec.to_string l)
              execute (db.update_lease lease_id changed l.expires_at_unix_millis now)
              commit_leases
              pure l)
            c)
        c

  abbrev released :
      Result (ℕ × Contents) Sqlite → Contents → Result Bool (StoreError Sqlite Json) × Contents
  released (ok (n, after)) c = (ok (n == 1), after)
  released (err e) c = (err (sqlite e), c)

  unfoldable pub release_lease :
      StoreMode → ℕ → Contents → Result Bool (StoreError Sqlite Json) × Contents
  release_lease mode lease_id c =
      guarded (check_mode mode) none (λ c. released (db.delete_lease lease_id c) c) c
