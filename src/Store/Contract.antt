-- ===== src/Store/Contract.antt =====
-- crates/workflow-store/src/workflows.rs: what the store relies on of SQLite and of serde_json.
use google_antigravity_cycle.Prelude.{◌≡◌, ℕ, Bool, false, Option, none, some, ok, if◌then◌else◌}
use google_antigravity_cycle.Prelude.Text.{Text, text_eq}
use google_antigravity_cycle.Store.Database.{Deduplicated, Reservation, Database, Serde}

-- The rows of the contents, by their primary keys, and the workflows with a reservation.
pub record View (C : Type 0) : Type 0 where
  pub rows : Text → C → Option Deduplicated
  pub workflows : Text → C → Option Text
  pub reserved : Text → C → Bool
  pub reservations : Text → C → Option Reservation

module _ {C : Type 0} (view : View C) where
  pub record Same (before after : C) : Type 0 where
    pub rows : (key : Text) → view.rows key after ≡ view.rows key before
    pub workflows : (id : Text) → view.workflows id after ≡ view.workflows id before
    pub reserved : (id : Text) → view.reserved id after ≡ view.reserved id before

  -- The row of one workflow is written, no other and no answer.
  pub record Updated (id json : Text) (before after : C) : Type 0 where
    pub rows : (key : Text) → view.rows key after ≡ view.rows key before
    pub own : view.workflows id after ≡ some json
    pub others :
        (j : Text) → text_eq id j ≡ false → view.workflows j after ≡ view.workflows j before

  -- A statement that returns reads, or writes, what its SQL says, and nothing else.
  pub record IsSql {Q : Type 0} (db : Database C Q) : Type 0 where
    pub select_reserved :
        (id : Text) (c : C) {b : Bool} → db.select_reserved id c ≡ ok b → view.reserved id c ≡ b
    pub select_deduplicated :
        (key : Text) (c : C) {r : Option Deduplicated}
        → db.select_deduplicated key c ≡ ok r
        → view.rows key c ≡ r
    pub select_workflow :
        (id : Text) (c : C) {r : Option Text}
        → db.select_workflow id c ≡ ok r
        → view.workflows id c ≡ r
    pub insert_event :
        (kind id event now : Text) (c : C) {c' : C}
        → db.insert_event kind id event now c ≡ ok c'
        → Same c c'
    pub upsert_workflow :
        (id json now : Text) (c : C) {c' : C}
        → db.upsert_workflow id json now c ≡ ok c'
        → Updated id json c c' × ((j : Text) → view.reserved j c' ≡ view.reserved j c)
    -- an update needs a row
    pub update_workflow :
        (id json now : Text) (c : C) {row : Text} {c' : C}
        → view.workflows id c ≡ some row
        → db.update_workflow id json now c ≡ ok c'
        → Updated id json c c'
    pub select_reservation :
        (id : Text) (c : C) {r : Option Reservation}
        → db.select_reservation id c ≡ ok r
        → view.reservations id c ≡ r
    -- a candidate has one row at most
    pub delete_reservation :
        (id : Text) (r : Reservation) (c : C) {n : ℕ} {c' : C}
        → db.delete_reservation id r c ≡ ok (n, c')
        → ((key : Text) → view.rows key c' ≡ view.rows key c)
          × ((j : Text) → view.workflows j c' ≡ view.workflows j c)
          × (n ≡ 1 → view.reservations id c' ≡ none)
    pub insert_deduplicated :
        (key : Text) (row : Deduplicated) (now : Text) (c : C) {c' : C}
        → db.insert_deduplicated key row now c ≡ ok c'
        → ((k : Text) → view.rows k c' ≡ (if text_eq key k then some row else view.rows k c))
          × ((j : Text) → view.workflows j c' ≡ view.workflows j c)
          × ((j : Text) → view.reserved j c' ≡ view.reserved j c)

-- What was written is read back.
pub record IsSerde {A J : Type 0} (codec : Serde A J) : Type 0 where
  pub reads_back : (a : A) {json : Text} → codec.to_string a ≡ ok json → codec.from_str json ≡ ok a
