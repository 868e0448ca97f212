-- ===== src/Store/Workflows/Once.antt =====
-- crates/workflow-store/src/workflows.rs: a command is applied once for each idempotency key, or not
-- at all.
use google_antigravity_cycle.Prelude.{
  ◌≡◌, inl, inr, Bool-cases, true, false, not, ◌||◌, Option, Option-cases, none, some, List, [],
  ◌∷◌, Result, Result-cases, ok, err, refl, ap, ◌∙◌, arith,
}
use google_antigravity_cycle.Prelude.Text.{Text, text_eq, text_eq_iff}
use google_antigravity_cycle.Prelude.Exec.{pure, ◌>>◌}
use google_antigravity_cycle.Core.Workflow.{Workflow, WorkflowCommand, WorkflowEvent, apply}
use google_antigravity_cycle.Store.Database.{
  StoreMode, read_write, safe_read_only, StoreError, Deduplicated, Database, Session,
  validate_idempotency_key, commit_with,
}
use google_antigravity_cycle.Store.Contract.{View, Same, Updated, IsSql, IsSerde}
use google_antigravity_cycle.Store.Workflows.{
  Codecs, WorkflowApplyResult, workflow_type, default_workflow, row_of, insert_events, remember,
  replay, apply_to, apply_new, answer, apply_workflow_command,
}
use google_antigravity_cycle.Store.Workflows.Yields.{Yields, Run-cases}

-- The contents are kept as they were.
abbrev pub Kept : {C X : Type 0} → C → X → Session C → Type 0
Kept c e t = t.saved ≡ c

module _ {C Q J : Type 0} (db : Database C Q) (codecs : Codecs J) (view : View C) where
  -- The workflow that the contents hold: the default where there is none.
  pub data Holds (c : C) (id : Text) (w : Workflow) : Type 0 where
    fresh : view.workflows id c ≡ none → w ≡ default_workflow → Holds c id w
    stored :
        (json : Text)
        → view.workflows id c ≡ some json
        → codecs.workflow.from_str json ≡ ok w
        → Holds c id w

  -- A row that answers the key with a result of this workflow.
  pub record Answers (c : C) (id key : Text) (events : List WorkflowEvent) (w : Workflow)
      : Type 0 where
    pub json : Text
    pub row : view.rows key c ≡ some (row_of id json)
    pub reads : codecs.result.from_str json ≡ ok (record { events = events; state = w })

  -- The contents after a command that took effect: the new state and the answer are in, all other
  -- workflows and answers are as they were.
  pub record Written (id key : Text) (events : List WorkflowEvent) (w : Workflow) (c c' : C)
      : Type 0 where
    pub json : Text
    pub state : view.workflows id c' ≡ some json
    pub reads : codecs.workflow.from_str json ≡ ok w
    pub answers : Answers c' id key events w
    pub other_workflows :
        (j : Text) → text_eq id j ≡ false → view.workflows j c' ≡ view.workflows j c
    pub other_rows : (k : Text) → text_eq key k ≡ false → view.rows k c' ≡ view.rows k c

  -- How a command may be answered: from the row of its key, or by applying it to the workflow.
  pub data Answered (id key : Text) (command : WorkflowCommand) (c : C)
      : WorkflowApplyResult → C → Type 0 where
    replayed :
        {events : List WorkflowEvent} {w : Workflow}
        → Answers c id key events w
        → Answered id key command c (record { duplicate = true; events = events; state = w }) c
    performed :
        {before w : Workflow} {events : List WorkflowEvent} {c' : C}
        → view.rows key c ≡ none
        → Holds c id before
        → apply command before ≡ (ok events, w)
        → Written id key events w c c'
        → ((j : Text) → view.reserved j c' ≡ view.reserved j c)
        → Answered id key command c (record { duplicate = false; events = events; state = w }) c'

  -- What the checks before the transaction's writes have shown, and the answer.
  pub record Accepted (mode : StoreMode) (id key : Text) (command : WorkflowCommand) (c : C)
      (r : WorkflowApplyResult) (c' : C) : Type 0 where
    pub writable : mode ≡ read_write
    pub valid_key : validate_idempotency_key {Sqlite = Q} {Json = J} key ≡ none
    pub free : view.reserved id c ≡ false
    pub answered : Answered id key command c r c'

  module _ (sql : IsSql view db) (reads_workflow : IsSerde codecs.workflow)
      (reads_result : IsSerde codecs.result) where
    Same-trans : (a b c : C) → Same view a b → Same view b c → Same view a c
    Same-trans a b c h k = record {
      rows = λ key. k.rows key ∙ h.rows key;
      workflows = λ id. k.workflows id ∙ h.workflows id;
      reserved = λ id. k.reserved id ∙ h.reserved id;
    }

    -- The events change none of the rows that are read.
    pub insert_events-Same :
        (c c1 : C) (id now : Text) (events : List WorkflowEvent) (s : Session C)
        → s.saved ≡ c
        → Same view c1 s.working
        → Yields
            (λ _ t. (t.saved ≡ c) × Same view c1 t.working)
            (Kept c)
            (insert_events db codecs id now events s)
    unfolding insert_events
    insert_events-Same c c1 id now [] s kept same = (kept, same)
    insert_events-Same c c1 id now (event ∷ events) s kept same =
        elim (Result-cases (codecs.event.to_string event)) [
          | inr (e, p) ↦ rw p kept
          | inl (json, p) ↦
              rw p (elim (Result-cases (db.insert_event workflow_type id json now s.working)) [
                | inr (e, q) ↦ rw q kept
                | inl (c2, q) ↦ rw q (
                    insert_events-Same c c1 id now events (record s { working = c2 }) kept
                      (Same-trans c1 s.working c2 same
                        (sql.insert_event workflow_type id json now s.working q)))
              ])
        ]

    -- What the writes leave together.
    pub all-Written :
        (id key now : Text) (events : List WorkflowEvent) (w : Workflow) (state_json json : Text)
        (c c1 c2 c3 : C)
        → codecs.workflow.to_string w ≡ ok state_json
        → codecs.result.to_string (record { events = events; state = w }) ≡ ok json
        → Updated view id state_json c c1
        → Same view c1 c2
        → db.insert_deduplicated key (row_of id json) now c2 ≡ ok c3
        → Written id key events w c c3
    all-Written id key now events w state_json json c c1 c2 c3 p q u same v =
        let (rows3, workflows3, _) = sql.insert_deduplicated key (row_of id json) now c2 v in
        record {
          json = state_json;
          state = workflows3 id ∙ same.workflows id ∙ u.own;
          reads = reads_workflow.reads_back w p;
          answers = record {
            json = json;
            row = rows3 key ∙ ground (arith, text_eq_iff key key);
            reads = reads_result.reads_back (record { events = events; state = w }) q;
          };
          other_workflows = λ j n. workflows3 j ∙ same.workflows j ∙ u.others j n;
          other_rows = λ k n. rows3 k ∙ ground (arith, same.rows k, u.rows k);
        }

    pub Same-refl : (c : C) → Same view c c
    Same-refl c = record { rows = λ key. refl; workflows = λ id. refl; reserved = λ id. refl }

    after_upsert :
        (id key : Text) (command : WorkflowCommand) (now : Text) (c : C) (before w : Workflow)
        (events : List WorkflowEvent) (state_json : Text) (c1 : C)
        → view.rows key c ≡ none
        → Holds c id before
        → apply command before ≡ (ok events, w)
        → codecs.workflow.to_string w ≡ ok state_json
        → db.upsert_workflow id state_json now c ≡ ok c1
        → (r : Result (Unit {0}) (StoreError Q J) × Session C)
        → Yields (λ _ t. (t.saved ≡ c) × Same view c1 t.working) (Kept c) r
        → Yields
            (λ r t. Answered id key command c r t.saved)
            (Kept c)
            (((λ _. r)
                >> (remember db codecs id key now (record { events = events; state = w })
                    >> (commit_with db
                        >> pure (record { duplicate = false; events = events; state = w }))))
              (record { saved = c; working = c1 }))
    unfolding remember
    after_upsert id key command now c before w events state_json c1 new holds p q u (err e, t)
          kept =
        kept
    after_upsert id key command now c before w events state_json c1 new holds p q u (ok _, t)
          (kept, same) =
        elim (Result-cases (codecs.result.to_string (record { events = events; state = w }))) [
          | inr (e, v) ↦ rw v kept
          | inl (json, v) ↦
              rw v
                (elim (Result-cases (db.insert_deduplicated key (row_of id json) now t.working)) [
                  | inr (e, x) ↦ rw x kept
                  | inl (c3, x) ↦ rw x (elim (Result-cases (db.commit c3)) [
                    | inr (e, y) ↦ rw y kept
                    | inl (_, y) ↦ rw y (
                        let (updated, reserved1) = sql.upsert_workflow id state_json now c u in
                        let (_, _, reserved3) =
                          sql.insert_deduplicated key (row_of id json) now t.working x in
                        performed new holds p
                          (all-Written id key now events w state_json json c c1 t.working c3 q v
                            updated same x)
                          (λ j. reserved3 j ∙ same.reserved j ∙ reserved1 j))
                  ])
                ])
        ]

    apply_to-Answered :
        (id key : Text) (command : WorkflowCommand) (now : Text) (c : C) (before : Workflow)
        → view.rows key c ≡ none
        → Holds c id before
        → Yields
            (λ r t. Answered id key command c r t.saved)
            (Kept c)
            (apply_to db codecs id key command now before (record { saved = c; working = c }))
    unfolding apply_to remember
    apply_to-Answered id key command now c before new holds =
        elim (Run-cases (apply command before)) [
          | inr (e, w, p) ↦ rw p refl
          | inl (events, w, p) ↦ rw p (elim (Result-cases (codecs.workflow.to_string w)) [
            | inr (e, q) ↦ rw q refl
            | inl (json, q) ↦ rw q (elim (Result-cases (db.upsert_workflow id json now c)) [
              | inr (e, u) ↦ rw u refl
              | inl (c1, u) ↦ rw u (
                  after_upsert id key command now c before w events json c1 new holds p q u
                    (insert_events db codecs id now events (record { saved = c; working = c1 }))
                    (insert_events-Same c c1 id now events (record { saved = c; working = c1 }) refl
                      (Same-refl c1)))
            ])
          ])
        ]

    apply_new-Answered :
        (id key : Text) (command : WorkflowCommand) (now : Text) (c : C)
        → view.rows key c ≡ none
        → Yields
            (λ r t. Answered id key command c r t.saved)
            (Kept c)
            (apply_new db codecs id key command now (record { saved = c; working = c }))
    unfolding apply_new
    apply_new-Answered id key command now c new = elim (Result-cases (db.select_workflow id c)) [
      | inr (e, p) ↦ rw p refl
      | inl (none, p) ↦ rw p (
          apply_to-Answered id key command now c default_workflow new
            (fresh (sql.select_workflow id c p) refl))
      | inl (some json, p) ↦ rw p (elim (Result-cases (codecs.workflow.from_str json)) [
        | inr (e, q) ↦ rw q refl
        | inl (w, q) ↦ rw q (
            apply_to-Answered id key command now c w new
              (stored json (sql.select_workflow id c p) q))
      ])
    ]

    -- A row of this workflow is the row that `remember` writes.
    own_row :
        (id : Text) (row : Deduplicated)
        → (not (text_eq row.aggregate_type workflow_type) || not (text_eq row.aggregate_id id))
          ≡ false
        → row ≡ row_of id row.result_json
    own_row id row h =
        let kind : row.aggregate_type ≡ workflow_type =
          (text_eq_iff row.aggregate_type workflow_type).0 (ground arith) in
        let own : row.aggregate_id ≡ id = (text_eq_iff row.aggregate_id id).0 (ground arith) in
        λ i. record { aggregate_type = kind i; aggregate_id = own i; result_json = row.result_json }

    replay-Answered :
        (id key : Text) (command : WorkflowCommand) (row : Deduplicated) (c : C)
        → view.rows key c ≡ some row
        → Yields
            (λ r t. Answered id key command c r t.saved)
            (Kept c)
            (replay db codecs id row (record { saved = c; working = c }))
    unfolding replay
    replay-Answered id key command row c known =
        elim (Bool-cases
          (not (text_eq row.aggregate_type workflow_type) || not (text_eq row.aggregate_id id))) [
            | inl y ↦ rw y refl
            | inr n ↦ rw n (elim (Result-cases (codecs.result.from_str row.result_json)) [
              | inr (e, p) ↦ rw p refl
              | inl (result, p) ↦ rw p (
                  replayed (record {
                    json = row.result_json;
                    row = known ∙ ap some (own_row id row n);
                    reads = p;
                  }))
            ])
          ]

    answer-Answered :
        (id key : Text) (command : WorkflowCommand) (now : Text) (row : Option Deduplicated) (c : C)
        → view.rows key c ≡ row
        → Yields
            (λ r t. Answered id key command c r t.saved)
            (Kept c)
            (answer db codecs id key command now row (record { saved = c; working = c }))
    unfolding answer
    answer-Answered id key command now none c h = apply_new-Answered id key command now c h
    answer-Answered id key command now (some row) c h = replay-Answered id key command row c h

    accept :
        (id key : Text) (command : WorkflowCommand) (c : C)
        → validate_idempotency_key {Sqlite = Q} {Json = J} key ≡ none
        → view.reserved id c ≡ false
        → (r : Result WorkflowApplyResult (StoreError Q J) × Session C)
        → Yields (λ r t. Answered id key command c r t.saved) (Kept c) r
        → Yields
            (λ r c'. Accepted read_write id key command c r c')
            (λ e c'. c' ≡ c)
            (r.0, r.1.saved)
    accept id key command c k f (ok a, t) h = record {
      writable = refl;
      valid_key = k;
      free = f;
      answered = h;
    }
    accept id key command c k f (err e, t) h = h

    -- A command is answered in one of two ways: with the result that is stored under its key, and then
    -- the contents are as they were, or, where the key is new, by what `Workflow::apply` makes of the
    -- workflow that is stored, and then the new state and the answer are stored and no other workflow
    -- or answer has changed. Beside any error, one of SQLite in the middle of the transaction too, the
    -- contents are as they were.
    pub apply_workflow_command_refines :
        (mode : StoreMode) (id key : Text) (command : WorkflowCommand) (now : Text) (c : C)
        → Yields
            (λ r c'. Accepted mode id key command c r c')
            (λ e c'. c' ≡ c)
            (apply_workflow_command db codecs mode id key command now c)
    unfolding apply_workflow_command
    apply_workflow_command_refines (safe_read_only version) id key command now c = refl
    apply_workflow_command_refines read_write id key command now c =
        elim (Option-cases (validate_idempotency_key {Sqlite = Q} {Json = J} key)) [
          | inr (e, k) ↦ rw k refl
          | inl k ↦ rw k (elim (Result-cases (db.begin c)) [
            | inr (e, b) ↦ rw b refl
            | inl (_, b) ↦ rw b (elim (Result-cases (db.select_reserved id c)) [
              | inr (e, p) ↦ rw p refl
              | inl (true, p) ↦ rw p refl
              | inl (false, p) ↦ rw p (elim (Result-cases (db.select_deduplicated key c)) [
                | inr (e, q) ↦ rw q refl
                | inl (row, q) ↦ rw q (
                    accept id key command c k (sql.select_reserved id c p)
                      (answer db codecs id key command now row (record { saved = c; working = c }))
                      (answer-Answered id key command now row c (sql.select_deduplicated key c q)))
              ])
            ])
          ])
        ]
