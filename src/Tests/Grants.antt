-- ===== src/Tests/Grants.antt =====
-- crates/workflow-store/src/leases.rs on a small database.
use google_antigravity_cycle.Prelude.{
  ℕ, zero, suc, ◌≡◌, Option, none, some, List, [], ◌∷◌, Result, ok, err, refl, arith,
}
use google_antigravity_cycle.Prelude.Text.{Text, text_eq}
use google_antigravity_cycle.Prelude.Int.{ℤ, pos, negsuc}
use google_antigravity_cycle.Prelude.Maps.{
  get, insert, get-insert, nat_equality, nat_beq, nat_beq_iff,
}
use google_antigravity_cycle.Core.Lease.{Lease, ActionSafety, idempotent, non_idempotent, reconcile}
use google_antigravity_cycle.Store.Database.{read_write, Serde}
use google_antigravity_cycle.Store.Contract.{IsSerde}
use google_antigravity_cycle.Store.Workflows.Yields.{Yields}
use google_antigravity_cycle.Store.Leases.{
  LeaseRow, LeaseDatabase, occupied, manual_review, uncertain_status, active_status, acquire_lease,
}
use google_antigravity_cycle.Store.Leases.Exclusive.{IsLeaseSql, Answered, acquire_lease-Answered}

abbrev Rows : Type 0
Rows = List (ℕ × LeaseRow)

abbrev marked : ℕ → Option LeaseRow → Rows → Rows
marked task none rows = rows
marked task (some row) rows = insert task (record row { status = uncertain_status }) rows

abbrev leases : LeaseDatabase Rows ℕ
leases = record {
  select_lease = λ task rows. ok (get task rows);
  mark_uncertain = λ task now rows. ok (marked task (get task rows) rows);
  upsert_lease = λ task id json expires now rows.
      ok (insert task (record { lease_json = json; status = active_status }) rows);
  select_active = λ id rows. err 1;
  update_lease = λ id json expires now rows. err 1;
  delete_lease = λ id rows. err 1;
  begin = λ rows. ok tt;
  commit = λ rows. ok tt;
}

abbrev rows_of : ℕ → Rows → Option LeaseRow
rows_of task rows = get task rows

abbrev good : {A : Type 0} → A → Result A ℕ
good a = ok a

good_inj : {A : Type 0} (a b : A) → good a ≡ good b → a ≡ b
good_inj a b h = ground arith

own_insert : (task : ℕ) (row : LeaseRow) (rows : Rows) → get task (insert task row rows) ≡ some row
own_insert task row rows = ground (arith, get-insert task task row rows, nat_beq_iff task task)

marks :
    (task : ℕ) (rows after : Rows) (row : LeaseRow)
    → get task rows ≡ some row
    → good (marked task (get task rows) rows) ≡ good after
    → get task after ≡ some (record row { status = uncertain_status })
marks task rows after row h k =
    let e : marked task (some row) rows ≡ after =
      good_inj (marked task (some row) rows) after (rw h at k) in
    rw (← e) (own_insert task (record row { status = uncertain_status }) rows)

writes :
    (task : ℕ) (row : LeaseRow) (rows after : Rows)
    → good (insert task row rows) ≡ good after
    → get task after ≡ some row
writes task row rows after h =
    let e : insert task row rows ≡ after = good_inj (insert task row rows) after h in
    rw (← e) (own_insert task row rows)

safety_code : ActionSafety → ℕ
safety_code idempotent = 0
safety_code non_idempotent = 1

abbrev safety_of : ℕ → ActionSafety
safety_of zero = idempotent
safety_of (suc n) = non_idempotent

abbrev sign_code : ℤ → ℕ
sign_code (pos n) = 0
sign_code (negsuc n) = 1

abbrev size_code : ℤ → ℕ
size_code (pos n) = n
size_code (negsuc n) = n

abbrev int_of : ℕ → ℕ → ℤ
int_of zero n = pos n
int_of (suc s) n = negsuc n

int_back : (z : ℤ) → int_of (sign_code z) (size_code z) ≡ z
int_back (pos n) = refl
int_back (negsuc n) = refl

safety_back : (s : ActionSafety) → safety_of (safety_code s) ≡ s
unfolding safety_code
safety_back idempotent = refl
safety_back non_idempotent = refl

abbrev write_lease : Lease → Text
unfolding safety_code
write_lease l =
    l.id
    ∷ l.task_id
    ∷ l.owner
    ∷ sign_code l.acquired_at_unix_millis
    ∷ size_code l.acquired_at_unix_millis
    ∷ sign_code l.expires_at_unix_millis
    ∷ size_code l.expires_at_unix_millis
    ∷ safety_code l.safety
    ∷ []

abbrev read_lease : Text → Result Lease ℕ
read_lease (a ∷ b ∷ c ∷ d ∷ e ∷ f ∷ g ∷ h ∷ rest) = ok (record {
  id = a;
  task_id = b;
  owner = c;
  acquired_at_unix_millis = int_of d e;
  expires_at_unix_millis = int_of f g;
  safety = safety_of h;
})
read_lease _ = err 0

abbrev codec : Serde Lease ℕ
codec = record { to_string = λ l. ok (write_lease l); from_str = read_lease }

lease_back : (l : Lease) (json : Text) → good (write_lease l) ≡ good json → read_lease json ≡ ok l
unfolding write_lease
lease_back l json h =
    let e : write_lease l ≡ json = good_inj (write_lease l) json h in
    rw (← e) (λ i. ok (record {
      id = l.id;
      task_id = l.task_id;
      owner = l.owner;
      acquired_at_unix_millis = int_back l.acquired_at_unix_millis i;
      expires_at_unix_millis = int_back l.expires_at_unix_millis i;
      safety = safety_back l.safety i;
    }))

codec-IsSerde : IsSerde codec
codec-IsSerde = record { reads_back = λ l {json} h. lease_back l json h }

leases-IsLeaseSql : IsLeaseSql leases codec rows_of
leases-IsLeaseSql = record {
  select_lease = λ task c {r} h. good_inj (get task c) r h;
  mark_uncertain = λ task now c {row} {after} h k. marks task c after row h k;
  upsert_lease = λ task id json expires now c {after} h.
      writes task (record { lease_json = json; status = active_status }) c after h;
}

-- Task 3 with a lease until 1500 whose action must not be repeated.
abbrev held : Lease
held = record {
  id = 1;
  task_id = 3;
  owner = 4;
  acquired_at_unix_millis = pos 1000;
  expires_at_unix_millis = pos 1500;
  safety = non_idempotent;
}

abbrev one_lease : Text → Rows
one_lease status =
    (3, record { lease_json = 1 ∷ 3 ∷ 4 ∷ 0 ∷ 1000 ∷ 0 ∷ 1500 ∷ 1 ∷ []; status = status }) ∷ []

still_held :
    acquire_lease leases codec read_write 2 3 5
      (pos 1200)
      (pos 100)
      idempotent
      (one_lease active_status)
    ≡ (ok (occupied held), one_lease active_status)
unfolding acquire_lease reconcile get nat_beq text_eq
still_held = refl

left_to_a_person :
    acquire_lease leases codec read_write 2 3 5
      (pos 1600)
      (pos 100)
      idempotent
      (one_lease active_status)
    ≡ (ok (manual_review held), one_lease uncertain_status)
unfolding acquire_lease reconcile get insert nat_beq text_eq
left_to_a_person = refl

acquire_lease-Answered_example :
    Yields
      (λ r after.
        Answered leases codec rows_of 2 3 5
          (pos 1600)
          (pos 100)
          idempotent
          (one_lease active_status)
          r
          after)
      (λ e after. after ≡ one_lease active_status)
      (acquire_lease leases codec read_write 2 3 5
        (pos 1600)
        (pos 100)
        idempotent
        (one_lease active_status))
acquire_lease-Answered_example =
    acquire_lease-Answered leases codec rows_of leases-IsLeaseSql codec-IsSerde 2 3 5 (pos 1600)
      (pos 100) idempotent (one_lease active_status) read_write
