-- ===== src/Core/Lease.antt =====
-- crates/workflow-core/src/lease.rs: execution leases. Identifiers, UUIDs in the source, are
-- numbers, and the new one of a lease is an argument; an `i64` is an integer in its range.
pub mod Laws
use google_antigravity_cycle.Prelude.{
  ℕ, Bool, true, false, Option, none, some, if◌then◌else◌, Result, ok, err,
}
use google_antigravity_cycle.Prelude.Exec.{Exec, pure, gets, modify, ok_or, raise_if, ◌>>=◌, ◌>>◌}
use google_antigravity_cycle.Prelude.Int.{ℤ, pos, ◌+ℤ◌, leb_ℤ, ltb_ℤ, checked_add_i64}

pub data ActionSafety : Type 0 where
  idempotent non_idempotent : ActionSafety

pub data LeaseReconciliation : Type 0 where
  active replayable manual_review_required : LeaseReconciliation

pub record Lease : Type 0 where
  pub id : ℕ
  pub task_id : ℕ
  pub owner : ℕ
  pub acquired_at_unix_millis : ℤ
  pub expires_at_unix_millis : ℤ
  pub safety : ActionSafety

pub data LeaseError : Type 0 where
  expired invalid_duration time_overflow : LeaseError

abbrev acquired : ℕ → ℕ → ℕ → ℤ → ActionSafety → Option ℤ → Result Lease LeaseError
acquired id task_id owner now safety none = err time_overflow
acquired id task_id owner now safety (some expires) = ok (record {
  id = id;
  task_id = task_id;
  owner = owner;
  acquired_at_unix_millis = now;
  expires_at_unix_millis = expires;
  safety = safety;
})

unfoldable pub acquire : ℕ → ℕ → ℕ → ℤ → ℤ → ActionSafety → Result Lease LeaseError
unfolding ◌+ℤ◌
acquire id task_id owner now_unix_millis duration_millis safety =
    if leb_ℤ duration_millis (pos 0)
    then err invalid_duration
    else acquired id task_id owner now_unix_millis safety
        (checked_add_i64 now_unix_millis duration_millis)

unfoldable pub heartbeat : ℤ → ℤ → Exec Lease LeaseError (Unit {0})
unfolding ◌+ℤ◌
heartbeat now_unix_millis duration_millis = do
  expires ← gets (λ l. l.expires_at_unix_millis)
  raise_if (ltb_ℤ expires now_unix_millis) expired
  raise_if (leb_ℤ duration_millis (pos 0)) invalid_duration
  extended ← ok_or time_overflow (checked_add_i64 now_unix_millis duration_millis)
  modify (λ l. record l { expires_at_unix_millis = extended })

abbrev lapsed : ActionSafety → LeaseReconciliation
lapsed idempotent = replayable
lapsed non_idempotent = manual_review_required

unfoldable pub reconcile : Lease → ℤ → LeaseReconciliation
reconcile l now_unix_millis =
    if leb_ℤ now_unix_millis l.expires_at_unix_millis then active else lapsed l.safety
