-- ===== src/Tests/Tables.antt =====
-- A database in memory that does what crates/workflow-store/src/workflows.rs relies on.
use google_antigravity_cycle.Prelude.{
  ℕ, ◌≡◌, inl, inr, Bool, true, false, Option-cases, none, some, List, [], ◌∷◌, Result, ok, err,
  is_some, refl, arith, if◌then◌else◌,
}
use google_antigravity_cycle.Prelude.Text.{Text, text_eq, text_eq_iff}
use google_antigravity_cycle.Prelude.Maps.{
  get, insert, remove, get-insert, get-remove, text_equality,
}
use google_antigravity_cycle.Store.Database.{Deduplicated, Reservation, Database}
use google_antigravity_cycle.Store.Contract.{View, Same, Updated, IsSql}

pub record Tables : Type 0 where
  pub rows : List (Text × Deduplicated)
  pub workflows : List (Text × Text)
  pub reservations : List (Text × Reservation)

-- The error: a constraint that is violated, or a row that is missing.
pub data Refusal : Type 0 where
  constraint missing : Refusal

abbrev is_reserved : Text → List (Text × Reservation) → Bool
is_reserved id [] = false
is_reserved id ((k, r) ∷ rs) = if text_eq r.workflow_id id then true else is_reserved id rs

abbrev put_row : Text → Deduplicated → Tables → Result Tables Refusal
put_row key row t =
    if is_some (get key t.rows)
    then err constraint
    else ok (record t { rows = insert key row t.rows })

abbrev put_workflow : Text → Text → Tables → Tables
put_workflow id json t = record t { workflows = insert id json t.workflows }

abbrev change_workflow : Text → Text → Tables → Tables
change_workflow id json t = if is_some (get id t.workflows) then put_workflow id json t else t

abbrev drop_reservation : Text → Tables → ℕ × Tables
drop_reservation id t =
    if is_some (get id t.reservations)
    then (1, record t { reservations = remove id t.reservations })
    else (0, t)

abbrev pub tables : Database Tables Refusal
tables = record {
  select_reserved = λ id t. ok (is_reserved id t.reservations);
  select_reservation = λ id t. ok (get id t.reservations);
  delete_reservation = λ id r t. ok (drop_reservation id t);
  select_deduplicated = λ key t. ok (get key t.rows);
  insert_deduplicated = λ key row now t. put_row key row t;
  select_workflow = λ id t. ok (get id t.workflows);
  upsert_workflow = λ id json now t. ok (put_workflow id json t);
  update_workflow = λ id json now t. ok (change_workflow id json t);
  insert_event = λ kind id event now t. ok t;
  no_rows = missing;
  begin = λ t. ok tt;
  commit = λ t. ok tt;
}

abbrev pub view : View Tables
view = record {
  rows = λ key t. get key t.rows;
  workflows = λ id t. get id t.workflows;
  reserved = λ id t. is_reserved id t.reservations;
  reservations = λ id t. get id t.reservations;
}

put_workflow-Updated :
    (id json : Text) (t : Tables) → Updated view id json t (put_workflow id json t)
put_workflow-Updated id json t = record {
  rows = λ key. refl;
  own = ground (arith, get-insert id id json t.workflows, text_eq_iff id id);
  others = λ j n. ground (arith, get-insert id j json t.workflows);
}

abbrev good : {A : Type 0} → A → Result A Refusal
good a = ok a

abbrev Ok : {A : Type 0} → A → A → Type 0
Ok a b = good a ≡ good b

event_written : (t after : Tables) → Ok t after → Same view t after
event_written t after h =
    let e : t ≡ after = ground arith in
    rw (← e) (record { rows = λ key. refl; workflows = λ id. refl; reserved = λ id. refl })

workflow_written :
    (id json : Text) (t after : Tables)
    → Ok (put_workflow id json t) after
    → Updated view id json t after × ((j : Text) → view.reserved j after ≡ view.reserved j t)
workflow_written id json t after h =
    let e : put_workflow id json t ≡ after = ground arith in
    rw (← e) (put_workflow-Updated id json t, λ j. refl)

workflow_changed :
    (id json : Text) (t : Tables) (row : Text) (after : Tables)
    → get id t.workflows ≡ some row
    → Ok (change_workflow id json t) after
    → Updated view id json t after
workflow_changed id json t row after p h =
    let e : put_workflow id json t ≡ after = ground arith in
    rw (← e) (put_workflow-Updated id json t)

reservation_dropped :
    (id : Text) (t : Tables) (n : ℕ) (after : Tables)
    → Ok (drop_reservation id t) (n, after)
    → ((key : Text) → view.rows key after ≡ view.rows key t)
      × ((j : Text) → view.workflows j after ≡ view.workflows j t)
      × (n ≡ 1 → view.reservations id after ≡ none)
reservation_dropped id t n after h = elim (Option-cases (get id t.reservations)) [
  | inl absent ↦
      let same : t ≡ after = ground arith in rw (← same) (λ key. refl, λ j. refl, λ one. absent)
  | inr (r, found) ↦
      let same : record t { reservations = remove id t.reservations } ≡ after = ground arith in
      rw (← same) (
        λ key. refl,
        λ j. refl,
        λ one. ground (arith, get-remove id id t.reservations, text_eq_iff id id),
      )
]

row_written :
    (key : Text) (row : Deduplicated) (t after : Tables)
    → put_row key row t ≡ ok after
    → ((k : Text) → view.rows k after ≡ (if text_eq key k then some row else view.rows k t))
      × ((j : Text) → view.workflows j after ≡ view.workflows j t)
      × ((j : Text) → view.reserved j after ≡ view.reserved j t)
row_written key row t after h = elim (Option-cases (get key t.rows)) [
  | inl absent ↦
      let e : record t { rows = insert key row t.rows } ≡ after = ground arith in
      rw (← e) (λ k. ground (arith, get-insert key k row t.rows), λ j. refl, λ j. refl)
  | inr (r, found) ↦ absurd (ground arith)
]

good_inj : {A : Type 0} (a b : A) → Ok a b → a ≡ b
good_inj a b h = ground arith

pub tables-IsSql : IsSql view tables
tables-IsSql = record {
  select_reserved = λ id t {b} h. good_inj (is_reserved id t.reservations) b h;
  select_deduplicated = λ key t {r} h. good_inj (get key t.rows) r h;
  select_workflow = λ id t {r} h. good_inj (get id t.workflows) r h;
  insert_event = λ kind id event now t {c'} h. event_written t c' h;
  upsert_workflow = λ id json now t {c'} h. workflow_written id json t c' h;
  update_workflow = λ id json now t {row} {c'} p h. workflow_changed id json t row c' p h;
  select_reservation = λ id t {r} h. good_inj (get id t.reservations) r h;
  delete_reservation = λ id r t {n} {c'} h. reservation_dropped id t n c' h;
  insert_deduplicated = λ key row now t {c'} h. row_written key row t c' h;
}
