-- ===== src/Store/Workflows/Deliver.antt =====
-- crates/workflow-store/src/workflows.rs: the delivery of a candidate that is reserved.
use google_antigravity_cycle.Prelude.{
  ◌≡◌, inl, inr, Bool-cases, true, false, not, Option, Option-cases, none, some, List, Result,
  Result-cases, ok, err, refl, ◌∙◌, ◌==◌, ==_iff, arith,
}
use google_antigravity_cycle.Prelude.Text.{Text, text_eq_iff}
use google_antigravity_cycle.Prelude.Exec.{pure, raise_if, ◌>>◌, ◌>>=◌}
use google_antigravity_cycle.Core.Workflow.{Workflow, WorkflowEvent, apply, deliver}
use google_antigravity_cycle.Store.Database.{
  StoreMode, read_write, safe_read_only, StoreError, Reservation, Database, Session,
  aggregate_conflict, validate_idempotency_key, execute_counted, commit_with,
}
use google_antigravity_cycle.Store.Contract.{View, Same, Updated, IsSql, IsSerde}
use google_antigravity_cycle.Store.Workflows.{
  Codecs, WorkflowApplyResult, row_of, same_reservation, insert_events, remember,
  deliver_reserved_candidate,
}
use google_antigravity_cycle.Store.Workflows.Yields.{Yields, Run-cases}
use google_antigravity_cycle.Store.Workflows.Once.{
  Kept, Written, all-Written, Same-refl, insert_events-Same,
}

abbrev pub reservation : Text → Text → Text → Reservation
reservation id candidate journal = record {
  workflow_id = id;
  candidate_digest = candidate;
  journal_digest = journal;
}

-- What a delivery has found and done.
pub record Delivered {C Q J : Type 0} (db : Database C Q) (codecs : Codecs J) (view : View C)
    (id candidate : Text) (expected : Reservation) (key : Text) (c : C) (r : WorkflowApplyResult)
    (c' : C) : Type 0 where
  pub found : view.reservations candidate c ≡ some expected
  pub state_json : Text
  pub before : Workflow
  pub stored : view.workflows id c ≡ some state_json
  pub reads : codecs.workflow.from_str state_json ≡ ok before
  pub applied : apply deliver before ≡ (ok r.events, r.state)
  pub fresh : r.duplicate ≡ false
  pub written : Written db codecs view id key r.events r.state c c'
  pub released : view.reservations candidate c' ≡ none

-- The end of a transaction.
abbrev finish : {C A X : Type 0} → Result A X × Session C → Result A X × C
finish (r, s) = (r, s.saved)

module _ {C Q J : Type 0} (db : Database C Q) (codecs : Codecs J) (view : View C)
    (sql : IsSql view db) (reads_workflow : IsSerde codecs.workflow)
    (reads_result : IsSerde codecs.result) where
  same_reservation-found :
      (r : Reservation) (o : Option Reservation) → same_reservation r o ≡ true → o ≡ some r
  same_reservation-found r none h = absurd (ground arith)
  same_reservation-found r (some s) h =
      let own : s.workflow_id ≡ r.workflow_id =
        (text_eq_iff s.workflow_id r.workflow_id).0 (ground arith) in
      let digest : s.candidate_digest ≡ r.candidate_digest =
        (text_eq_iff s.candidate_digest r.candidate_digest).0 (ground arith) in
      let journal : s.journal_digest ≡ r.journal_digest =
        (text_eq_iff s.journal_digest r.journal_digest).0 (ground arith) in
      λ i.
        some
          (record { workflow_id = own i; candidate_digest = digest i; journal_digest = journal i })

  -- What was written stays when only a reservation goes.
  Written-delete :
      (id key : Text) (events : List WorkflowEvent) (w : Workflow) (c c1 c2 : C)
      → ((k : Text) → view.rows k c2 ≡ view.rows k c1)
      → ((j : Text) → view.workflows j c2 ≡ view.workflows j c1)
      → Written db codecs view id key events w c c1
      → Written db codecs view id key events w c c2
  Written-delete id key events w c c1 c2 rows workflows x = record {
    json = x.json;
    state = workflows id ∙ x.state;
    reads = x.reads;
    answers = record {
      json = x.answers.json;
      row = rows key ∙ x.answers.row;
      reads = x.answers.reads;
    };
    other_workflows = λ j n. workflows j ∙ x.other_workflows j n;
    other_rows = λ k n. rows k ∙ x.other_rows k n;
  }

  module _ (id candidate : Text) (expected : Reservation) (key now : Text) (c : C)
      (found : view.reservations candidate c ≡ some expected) where
    after_update :
        (row : Text) (before w : Workflow) (events : List WorkflowEvent) (state_json : Text)
        (c1 : C)
        → view.workflows id c ≡ some row
        → codecs.workflow.from_str row ≡ ok before
        → apply deliver before ≡ (ok events, w)
        → codecs.workflow.to_string w ≡ ok state_json
        → Updated view id state_json c c1
        → (r : Result (Unit {0}) (StoreError Q J) × Session C)
        → Yields (λ _ t. (t.saved ≡ c) × Same view c1 t.working) (Kept c) r
        → Yields
            (λ r c'. Delivered db codecs view id candidate expected key c r c')
            (λ e c'. c' ≡ c)
            (finish (
              ((λ _. r)
                  >> (remember db codecs id key now (record { events = events; state = w })
                      >> (execute_counted (db.delete_reservation candidate expected)
                          >>= (λ released.
                              raise_if (not (released == 1)) aggregate_conflict
                              >> (commit_with db
                                  >> pure (record {
                                    duplicate = false;
                                    events = events;
                                    state = w;
                                  }))))))
                (record { saved = c; working = c1 })))
    unfolding remember
    after_update row before w events state_json c1 s p a q u (err e, t) kept = kept
    after_update row before w events state_json c1 s p a q u (ok _, t) (kept, same) =
        elim (Result-cases (codecs.result.to_string (record { events = events; state = w }))) [
          | inr (e, v) ↦ rw v kept
          | inl (json, v) ↦
              rw v
                (elim (Result-cases (db.insert_deduplicated key (row_of id json) now t.working)) [
                  | inr (e, x) ↦ rw x kept
                  | inl (c3, x) ↦
                      rw x (elim (Result-cases (db.delete_reservation candidate expected c3)) [
                        | inr (e, d) ↦ rw d kept
                        | inl ((n, c4), d) ↦ rw d (elim (Bool-cases (n == 1)) [
                          | inr other ↦ rw other kept
                          | inl one ↦ rw one (elim (Result-cases (db.commit c4)) [
                            | inr (e, y) ↦ rw y kept
                            | inl (_, y) ↦
                                let (rows4, workflows4, gone) =
                                  sql.delete_reservation candidate expected c3 d in
                                rw y (record {
                                  found = found;
                                  state_json = row;
                                  before = before;
                                  stored = s;
                                  reads = p;
                                  applied = a;
                                  fresh = refl;
                                  written =
                                      Written-delete id key events w c c3 c4 rows4 workflows4 (
                                        all-Written db codecs view sql reads_workflow reads_result
                                          id key now events w state_json json c c1 t.working c3 q v
                                          u same x);
                                  released = gone ((==_iff n 1).0 one);
                                })
                          ])
                        ])
                      ])
                ])
        ]

  -- A delivery that returns a result found the reservation with both its digests, applied `Deliver` to
  -- the workflow that was stored, wrote the new state and the answer and no other workflow or answer,
  -- and the reservation is gone. Beside any error the contents are as they were.
  pub deliver_reserved_candidate_refines :
      (mode : StoreMode) (id candidate digest journal key now : Text) (c : C)
      → Yields
          (λ r c'. Delivered db codecs view id candidate (reservation id digest journal) key c r c')
          (λ e c'. c' ≡ c)
          (deliver_reserved_candidate db codecs mode id candidate digest journal key now c)
  unfolding deliver_reserved_candidate
  deliver_reserved_candidate_refines (safe_read_only version) id candidate digest journal key now
        c =
      refl
  deliver_reserved_candidate_refines read_write id candidate digest journal key now c =
      let expected = reservation id digest journal in
      let start : Session C = record { saved = c; working = c } in
      elim (Option-cases (validate_idempotency_key {Sqlite = Q} {Json = J} key)) [
        | inr (e, k) ↦ rw k refl
        | inl k ↦ rw k (elim (Result-cases (db.begin c)) [
          | inr (e, b) ↦ rw b refl
          | inl (_, b) ↦ rw b (elim (Result-cases (db.select_reservation candidate c)) [
            | inr (e, p) ↦ rw p refl
            | inl (o, p) ↦ rw p (elim (Bool-cases (same_reservation expected o)) [
              | inr n ↦ rw n refl
              | inl y ↦ rw y (elim (Result-cases (db.select_workflow id c)) [
                | inr (e, q) ↦ rw q refl
                | inl (none, q) ↦ rw q refl
                | inl (some row, q) ↦ rw q (elim (Result-cases (codecs.workflow.from_str row)) [
                  | inr (e, s) ↦ rw s refl
                  | inl (before, s) ↦ rw s (elim (Run-cases (apply deliver before)) [
                    | inr (e, w, a) ↦ rw a refl
                    | inl (events, w, a) ↦ rw a (elim (Result-cases (codecs.workflow.to_string w)) [
                      | inr (e, j) ↦ rw j refl
                      | inl (json, j) ↦
                          rw j (elim (Result-cases (db.update_workflow id json now c)) [
                            | inr (e, u) ↦ rw u refl
                            | inl (c1, u) ↦ rw u (
                                after_update id candidate expected key now c
                                  (sql.select_reservation candidate c p
                                    ∙ same_reservation-found expected o y)
                                  row before w events json c1 (sql.select_workflow id c q) s a j
                                  (sql.update_workflow id json now c (sql.select_workflow id c q) u)
                                  (insert_events db codecs id now events
                                    (record { saved = c; working = c1 }))
                                  (insert_events-Same db codecs view sql reads_workflow reads_result
                                    c c1 id now events (record { saved = c; working = c1 }) refl
                                    (Same-refl db codecs view sql reads_workflow reads_result c1)))
                          ])
                    ])
                  ])
                ])
              ])
            ])
          ])
        ])
      ]
