-- ===== src/Store/Leases/Exclusive.antt =====
-- crates/workflow-store/src/leases.rs: when a lease is granted.
use google_antigravity_cycle.Prelude.{
  ℕ, ◌≡◌, ◌⊎◌, inl, inr, Bool-cases, true, false, Option, none, some, Result, Result-cases, ok, err,
  refl, arith,
}
use google_antigravity_cycle.Prelude.Text.{Text, text_eq}
use google_antigravity_cycle.Prelude.Int.{ℤ}
use google_antigravity_cycle.Core.Lease.{
  Lease, LeaseReconciliation, ActionSafety, active, replayable, manual_review_required, acquire,
  reconcile,
}
use google_antigravity_cycle.Store.Database.{
  StoreMode, read_write, safe_read_only, StoreError, Serde, Session,
}
use google_antigravity_cycle.Store.Contract.{IsSerde}
use google_antigravity_cycle.Store.Workflows.Yields.{Yields}
use google_antigravity_cycle.Store.Leases.{
  LeaseAcquisition, acquired, occupied, manual_review, LeaseRow, LeaseDatabase, uncertain_status,
  active_status, needs_review, is_active, grant, review, judge, with_current, acquire_lease,
}

module _ {C Q J : Type 0} (db : LeaseDatabase C Q) (codec : Serde Lease J)
    (rows : ℕ → C → Option LeaseRow) where
  -- What SQLite does when a statement succeeds; `rows` finds the row of a task.
  pub record IsLeaseSql : Type 0 where
    pub select_lease :
        (task : ℕ) (c : C) {r : Option LeaseRow} → db.select_lease task c ≡ ok r → rows task c ≡ r
    pub mark_uncertain :
        (task : ℕ) (now : ℤ) (c : C) {row : LeaseRow} {after : C}
        → rows task c ≡ some row
        → db.mark_uncertain task now c ≡ ok after
        → rows task after ≡ some (record row { status = uncertain_status })
    pub upsert_lease :
        (task id : ℕ) (json : Text) (expires now : ℤ) (c : C) {after : C}
        → db.upsert_lease task id json expires now c ≡ ok after
        → rows task after ≡ some (record { lease_json = json; status = active_status })

  -- The contents hold a lease for the task, under a status.
  pub record Holds (c : C) (task : ℕ) (status : Text) (l : Lease) : Type 0 where
    pub json : Text
    pub row : rows task c ≡ some (record { lease_json = json; status = status })
    pub reads : codec.from_str json ≡ ok l

  -- No lease stands in the way: there is none, or one that is not uncertain, that has lapsed and whose
  -- action may be run again.
  pub data Free (c : C) (task : ℕ) (now : ℤ) : Type 0 where
    vacant : rows task c ≡ none → Free c task now
    lapsed :
        {status : Text} {l : Lease}
        → Holds c task status l
        → text_eq status uncertain_status ≡ false
        → reconcile l now ≡ replayable
        → Free c task now

  -- The three answers, each with what was found and what is left.
  pub data Answered (fresh task owner : ℕ) (now duration : ℤ) (safety : ActionSafety) (c : C)
      : LeaseAcquisition → C → Type 0 where
    granted :
        {l : Lease} {after : C}
        → Free c task now
        → acquire fresh task owner now duration safety ≡ ok l
        → Holds after task active_status l
        → Answered fresh task owner now duration safety c (acquired l) after
    in_use :
        {status : Text} {l : Lease}
        → Holds c task status l
        → text_eq status uncertain_status ≡ false
        → reconcile l now ≡ active
        → Answered fresh task owner now duration safety c (occupied l) c
    reviewed :
        {status : Text} {l : Lease} {after : C}
        → Holds c task status l
        → ((text_eq status uncertain_status ≡ true) ⊎ (reconcile l now ≡ manual_review_required))
        → Holds after task uncertain_status l
        → Answered fresh task owner now duration safety c (manual_review l) after

  module _ (sql : IsLeaseSql) (reads_lease : IsSerde codec) (fresh task owner : ℕ)
      (now duration : ℤ) (safety : ActionSafety) (c : C) where
    grant-Answered :
        Free c task now
        → Yields
            (λ r t. Answered fresh task owner now duration safety c r t.saved)
            (λ e t. t.saved ≡ c)
            (grant {Sqlite = Q} {Json = J} db codec fresh task owner now duration safety
              (record { saved = c; working = c }))
    unfolding grant
    grant-Answered free = elim (Result-cases (acquire fresh task owner now duration safety)) [
      | inr (e, p) ↦ rw p refl
      | inl (l, p) ↦ rw p (elim (Result-cases (codec.to_string l)) [
        | inr (e, q) ↦ rw q refl
        | inl (json, q) ↦
            rw q
              (elim (Result-cases (db.upsert_lease task l.id json l.expires_at_unix_millis now c)) [
                | inr (e, u) ↦ rw u refl
                | inl (after, u) ↦ rw u (elim (Result-cases (db.commit after)) [
                  | inr (e, y) ↦ rw y refl
                  | inl (_, y) ↦ rw y (
                      granted free p (record {
                        json = json;
                        row = sql.upsert_lease task l.id json l.expires_at_unix_millis now c u;
                        reads = reads_lease.reads_back l q;
                      }))
                ])
              ])
      ])
    ]

    review-Answered :
        (status : Text) (l : Lease)
        → Holds c task status l
        → ((text_eq status uncertain_status ≡ true) ⊎ (reconcile l now ≡ manual_review_required))
        → Yields
            (λ r t. Answered fresh task owner now duration safety c r t.saved)
            (λ e t. t.saved ≡ c)
            (review {Sqlite = Q} {Json = J} db codec task now l (record { saved = c; working = c }))
    unfolding review
    review-Answered status l h why = elim (Result-cases (db.mark_uncertain task now c)) [
      | inr (e, u) ↦ rw u refl
      | inl (after, u) ↦ rw u (elim (Result-cases (db.commit after)) [
        | inr (e, y) ↦ rw y refl
        | inl (_, y) ↦ rw y (
            reviewed h why (record {
              json = h.json;
              row = sql.mark_uncertain task now c h.row u;
              reads = h.reads;
            }))
      ])
    ]

    replayable_left :
        (r : LeaseReconciliation) → needs_review r ≡ false → is_active r ≡ false → r ≡ replayable
    replayable_left r h k = ground arith

    active_found : (r : LeaseReconciliation) → is_active r ≡ true → r ≡ active
    active_found r h = ground arith

    review_found : (r : LeaseReconciliation) → needs_review r ≡ true → r ≡ manual_review_required
    review_found r h = ground arith

    judge-Answered :
        (status : Text) (l : Lease)
        → Holds c task status l
        → Yields
            (λ r t. Answered fresh task owner now duration safety c r t.saved)
            (λ e t. t.saved ≡ c)
            (judge {Sqlite = Q} {Json = J} db codec fresh task owner now duration safety status l
              (record { saved = c; working = c }))
    unfolding judge
    judge-Answered status l h = elim (Bool-cases (text_eq status uncertain_status)) [
      | inl y ↦ rw y (review-Answered status l h (inl y))
      | inr sure ↦ rw sure (elim (Bool-cases (needs_review (reconcile l now))) [
        | inl y ↦ rw y (review-Answered status l h (inr (review_found (reconcile l now) y)))
        | inr n ↦ rw n (elim (Bool-cases (is_active (reconcile l now))) [
          | inl a ↦ rw a (in_use h sure (active_found (reconcile l now) a))
          | inr b ↦ rw b (grant-Answered (lapsed h sure (replayable_left (reconcile l now) n b)))
        ])
      ])
    ]

    with_current-Answered :
        (o : Option LeaseRow)
        → rows task c ≡ o
        → Yields
            (λ r t. Answered fresh task owner now duration safety c r t.saved)
            (λ e t. t.saved ≡ c)
            (with_current {Sqlite = Q} {Json = J} db codec fresh task owner now duration safety o
              (record { saved = c; working = c }))
    unfolding with_current
    with_current-Answered none h = grant-Answered (vacant h)
    with_current-Answered (some row) h = elim (Result-cases (codec.from_str row.lease_json)) [
      | inr (e, p) ↦ rw p refl
      | inl (l, p) ↦
          rw p (judge-Answered row.status l (record { json = row.lease_json; row = h; reads = p }))
    ]

    close :
        (r : Result LeaseAcquisition (StoreError Q J) × Session C)
        → Yields
            (λ r t. Answered fresh task owner now duration safety c r t.saved)
            (λ e t. t.saved ≡ c)
            r
        → Yields
            (λ r after. Answered fresh task owner now duration safety c r after)
            (λ e after. after ≡ c)
            (r.0, r.1.saved)
    close (ok a, t) h = h
    close (err e, t) h = h

    -- A lease is granted only where the task has none, or one that is not uncertain, that has lapsed and
    -- whose action is idempotent; it is then the one that `Lease::acquire` makes, and the store holds it
    -- as active. A lease that is not uncertain and still active is returned with nothing
    -- changed; one that is uncertain, active or not, or that lapsed with an action that must not be repeated, is left to a person and held as uncertain.
    -- Beside any error the contents are as they were.
    pub acquire_lease-Answered :
        (mode : StoreMode)
        → Yields
            (λ r after. Answered fresh task owner now duration safety c r after)
            (λ e after. after ≡ c)
            (acquire_lease {Sqlite = Q} {Json = J} db codec mode fresh task owner now duration
              safety c)
    unfolding acquire_lease
    acquire_lease-Answered (safe_read_only version) = refl
    acquire_lease-Answered read_write = elim (Result-cases (db.begin c)) [
      | inr (e, b) ↦ rw b refl
      | inl (_, b) ↦ rw b (elim (Result-cases (db.select_lease task c)) [
        | inr (e, p) ↦ rw p refl
        | inl (o, p) ↦ rw p (
            close
              (with_current {Sqlite = Q} {Json = J} db codec fresh task owner now duration safety o
                (record { saved = c; working = c }))
              (with_current-Answered o (sql.select_lease task c p)))
      ])
    ]
