-- ===== src/Store/Workflows/Retry.antt =====
-- crates/workflow-store/src/workflows.rs: a command that is sent again, what is loaded after it, and
-- the workflows that are stored.
use google_antigravity_cycle.Prelude.{
  ◌≡◌, ◌⊎◌, inl, inr, Bool-cases, true, false, Option, some, List, Result, Result-cases, ok, err,
  refl, sym, ap, ◌∙◌, arith,
}
use google_antigravity_cycle.Prelude.Text.{Text, text_eq, text_eq_iff}
use google_antigravity_cycle.Core.Workflow.{Workflow, WorkflowCommand, WorkflowEvent}
use google_antigravity_cycle.Core.Workflow.Invariant.{IsValid, apply-IsValid, new-IsValid}
use google_antigravity_cycle.Store.Database.{
  StoreMode, StoreError, Database, Deduplicated, sqlite, delivery_in_progress,
}
use google_antigravity_cycle.Store.Contract.{View, IsSql, IsSerde}
use google_antigravity_cycle.Store.Workflows.{
  Codecs, WorkflowApplyResult, workflow_type, row_of, replay, answer, apply_workflow_command,
  load_workflow,
}
use google_antigravity_cycle.Store.Workflows.Yields.{Yields}
use google_antigravity_cycle.Store.Workflows.Once.{
  Holds, Answers, Answered, replayed, performed, fresh, stored, Accepted,
  apply_workflow_command_refines,
}

-- Every workflow that is stored and can be read is valid.
abbrev pub AllValid : {C J : Type 0} → Codecs J → View C → C → Type 0
AllValid codecs view c =
    (id json : Text) (w : Workflow)
    → view.workflows id c ≡ some json
    → codecs.workflow.from_str json ≡ ok w
    → IsValid w

module _ {C Q J : Type 0} (db : Database C Q) (codecs : Codecs J) (view : View C)
    (sql : IsSql view db) (reads_workflow : IsSerde codecs.workflow)
    (reads_result : IsSerde codecs.result) where
  -- What the first answer says, as an `Accepted`.
  accepted :
      (mode : StoreMode) (id key : Text) (command : WorkflowCommand) (now : Text) (c c' : C)
      (r : WorkflowApplyResult)
      → apply_workflow_command db codecs mode id key command now c ≡ (ok r, c')
      → Accepted db codecs view mode id key command c r c'
  accepted mode id key command now c c' r h = rw h at (
      apply_workflow_command_refines db codecs view sql reads_workflow reads_result mode id key
        command now c)

  Answered-Answers :
      (id key : Text) (command : WorkflowCommand) (c c' : C) (r : WorkflowApplyResult)
      → Answered db codecs view id key command c r c'
      → view.reserved id c ≡ false
      → Answers db codecs view c' id key r.events r.state × (view.reserved id c' ≡ false)
  Answered-Answers id key command c c' r (replayed a) f = (a, f)
  Answered-Answers id key command c c' r (performed new holds p w same) f = (w.answers, same id ∙ f)

  own_replay :
      (id key : Text) (events : List WorkflowEvent) (w : Workflow) (c : C)
      → (a : Answers db codecs view c id key events w)
      → replay db codecs id (row_of id a.json) (record { saved = c; working = c }) ≡ (
        ok (record { duplicate = true; events = events; state = w }),
        record { saved = c; working = c },
      )
  unfolding replay
  own_replay id key events w c a =
      let kind : text_eq workflow_type workflow_type ≡ true =
        (text_eq_iff workflow_type workflow_type).1 refl in
      let own : text_eq id id ≡ true = (text_eq_iff id id).1 refl in rw (kind, own, a.reads)

  -- An answer stays where no row of its key changes.
  Answers-keep :
      (id key : Text) (events : List WorkflowEvent) (w : Workflow) (c d : C)
      → view.rows key d ≡ view.rows key c
      → Answers db codecs view c id key events w
      → Answers db codecs view d id key events w
  Answers-keep id key events w c d same a = record {
    json = a.json;
    row = same ∙ a.row;
    reads = a.reads;
  }

  -- A command that was answered is answered again for its workflow under its key, in the same mode of
  -- the store, with the same events and the same state, whatever command and time are sent with it and whatever the store has done since, while the
  -- row of the key is as the first answer left it. Two errors can stand in the way: one of SQLite, and,
  -- where the workflow has a reservation by then, that a delivery is in progress. The contents are as
  -- they were in each case.
  pub retry_replays :
      (mode : StoreMode) (id key : Text) (first second : WorkflowCommand) (now later : Text)
      (c c' d : C) (r : WorkflowApplyResult)
      → apply_workflow_command db codecs mode id key first now c ≡ (ok r, c')
      → view.rows key d ≡ view.rows key c'
      → Yields
          (λ s d'. (s ≡ record { duplicate = true; events = r.events; state = r.state }) × (d' ≡ d))
          (λ e d'.
            (((q : Q) × (e ≡ sqlite q))
              ⊎ ((e ≡ delivery_in_progress) × (view.reserved id d ≡ true)))
            × (d' ≡ d))
          (apply_workflow_command db codecs mode id key second later d)
  unfolding apply_workflow_command answer
  retry_replays mode id key first second now later c c' d r h same =
      let before = accepted mode id key first now c c' r h in
      let (kept, _) = Answered-Answers id key first c c' r before.answered before.free in
      let a = Answers-keep id key r.events r.state c' d same kept in
      rw (before.writable, before.valid_key)
        (elim (Result-cases (db.begin d)) [
          | inr (e, b) ↦ rw b (inl (e, refl), refl)
          | inl (_, b) ↦ rw b (elim (Result-cases (db.select_reserved id d)) [
            | inr (e, p) ↦ rw p (inl (e, refl), refl)
            | inl (true, p) ↦ rw p (inr (refl, sql.select_reserved id d p), refl)
            | inl (false, p) ↦ rw p (elim (Result-cases (db.select_deduplicated key d)) [
              | inr (e, q) ↦ rw q (inl (e, refl), refl)
              | inl (row, q) ↦
                  let own : row ≡ some (row_of id a.json) =
                    sym (sql.select_deduplicated key d q) ∙ a.row in
                  rw (q, own, own_replay id key r.events r.state d a) (refl, refl)
            ])
          ])
        ])

  Answered-row :
      (id key k : Text) (command : WorkflowCommand) (row : Deduplicated) (c c' : C)
      (r : WorkflowApplyResult)
      → Answered db codecs view id key command c r c'
      → view.rows k c ≡ some row
      → view.rows k c' ≡ some row
  Answered-row id key k command row c c' r (replayed a) h = h
  Answered-row id key k command row c c' r (performed new holds p w same) h =
      elim (Bool-cases (text_eq key k)) [
        | inl y ↦
            let here : key ≡ k = (text_eq_iff key k).0 y in
            absurd (ground (arith, ap (λ x. view.rows x c) here))
        | inr n ↦ w.other_rows k n ∙ h
      ]

  outcome-row :
      (mode : StoreMode) (id key k : Text) (command : WorkflowCommand) (row : Deduplicated) (c : C)
      → view.rows k c ≡ some row
      → (o : Result WorkflowApplyResult (StoreError Q J) × C)
      → Yields (λ r c'. Accepted db codecs view mode id key command c r c') (λ e c'. c' ≡ c) o
      → view.rows k (o.1) ≡ some row
  outcome-row mode id key k command row c h (ok r, c') a =
      Answered-row id key k command row c c' r a.answered h
  outcome-row mode id key k command row c h (err e, c') a = rw a h

  -- No command changes a row that answers a key, its own key or another.
  pub apply_workflow_command-row :
      (mode : StoreMode) (id key k : Text) (command : WorkflowCommand) (now : Text)
      (row : Deduplicated) (c : C)
      → view.rows k c ≡ some row
      → view.rows k (apply_workflow_command db codecs mode id key command now c).1 ≡ some row
  apply_workflow_command-row mode id key k command now row c h =
      outcome-row mode id key k command row c h
        (apply_workflow_command db codecs mode id key command now c)
        (apply_workflow_command_refines db codecs view sql reads_workflow reads_result mode id key
          command now c)

  load-Answered :
      (id key : Text) (command : WorkflowCommand) (c c' : C) (r : WorkflowApplyResult)
      (v : Option Workflow)
      → Answered db codecs view id key command c r c'
      → r.duplicate ≡ false
      → load_workflow db codecs id c' ≡ ok v
      → v ≡ some r.state
  unfolding load_workflow
  load-Answered id key command c c' r v (replayed a) d l = absurd (ground arith)
  load-Answered id key command c c' r v (performed new holds p w same) d l =
      elim (Result-cases (db.select_workflow id c')) [
        | inr (e, q) ↦ absurd (ground arith)
        | inl (row, q) ↦
            let own : row ≡ some w.json = sym (sql.select_workflow id c' q) ∙ w.state in
            ground (arith, w.reads)
      ]

  -- What is loaded after a command that took effect is the state that it returned.
  pub load-apply :
      (mode : StoreMode) (id key : Text) (command : WorkflowCommand) (now : Text) (c c' : C)
      (r : WorkflowApplyResult) (v : Option Workflow)
      → apply_workflow_command db codecs mode id key command now c ≡ (ok r, c')
      → r.duplicate ≡ false
      → load_workflow db codecs id c' ≡ ok v
      → v ≡ some r.state
  unfolding load_workflow
  load-apply mode id key command now c c' r v h d l =
      load-Answered id key command c c' r v (accepted mode id key command now c c' r h).answered d l

  Holds-IsValid :
      (c : C) (id : Text) (w : Workflow)
      → AllValid codecs view c
      → Holds db codecs view c id w
      → IsValid w
  Holds-IsValid c id w v (fresh n e) = rw e (new-IsValid 5 (omega arith) (omega arith))
  Holds-IsValid c id w v (stored json s p) = v id json w s p

  Answered-AllValid :
      (id key : Text) (command : WorkflowCommand) (c c' : C) (r : WorkflowApplyResult)
      → AllValid codecs view c
      → Answered db codecs view id key command c r c'
      → AllValid codecs view c'
  Answered-AllValid id key command c c' r v (replayed a) j json w s p = v j json w s p
  Answered-AllValid id key command c c' r v
        (performed {before} {w = after} new holds h x same_reserved) j json w s p =
      elim (Bool-cases (text_eq id j)) [
        | inr n ↦ v j json w (sym (x.other_workflows j n) ∙ s) p
        | inl y ↦
            let here : id ≡ j = (text_eq_iff id j).0 y in
            let row : some json ≡ some x.json =
              sym s ∙ ap (λ k. view.workflows k c') (sym here) ∙ x.state in
            let same : w ≡ after = ground (arith, x.reads) in
            rw same (rw h at (apply-IsValid command before (Holds-IsValid c id before v holds)))
      ]

  outcome-AllValid :
      (mode : StoreMode) (id key : Text) (command : WorkflowCommand) (c : C)
      → AllValid codecs view c
      → (o : Result WorkflowApplyResult (StoreError Q J) × C)
      → Yields (λ r c'. Accepted db codecs view mode id key command c r c') (λ e c'. c' ≡ c) o
      → AllValid codecs view (o.1)
  outcome-AllValid mode id key command c v (ok r, c') a =
      Answered-AllValid id key command c c' r v a.answered
  outcome-AllValid mode id key command c v (err e, c') a = rw a v

  -- A command keeps every stored workflow valid, whatever it returns.
  pub apply_workflow_command-AllValid :
      (mode : StoreMode) (id key : Text) (command : WorkflowCommand) (now : Text) (c : C)
      → AllValid codecs view c
      → AllValid codecs view (apply_workflow_command db codecs mode id key command now c).1
  apply_workflow_command-AllValid mode id key command now c v =
      outcome-AllValid mode id key command c v
        (apply_workflow_command db codecs mode id key command now c)
        (apply_workflow_command_refines db codecs view sql reads_workflow reads_result mode id key
          command now c)
