-- ===== src/Core/Lease/Laws.antt =====
-- crates/workflow-core/src/lease.rs: heartbeats against the reconciliation of a lease.
use google_antigravity_cycle.Prelude.{ℕ, ◌≡◌, ◌≢◌, ◌↔◌, ok, err, arith}
use google_antigravity_cycle.Prelude.Int.{ℤ, ◌+ℤ◌, ◌≤ℤ◌, ◌<ℤ◌}
use google_antigravity_cycle.Core.Lease.{
  Lease, ActionSafety, LeaseError, acquire, heartbeat, reconcile, active, expired,
}

-- A lease that was acquired is active from then on until its expiry, which lies `duration` later.
pub acquire-active :
    (id task_id owner : ℕ) (now duration t : ℤ) (safety : ActionSafety) {l : Lease}
    → acquire id task_id owner now duration safety ≡ ok l
    → t ≤ℤ now +ℤ duration
    → (reconcile l t ≡ active) × (now <ℤ l.expires_at_unix_millis)
unfolding acquire reconcile
acquire-active id task_id owner now duration t safety h le = ground arith

-- A heartbeat is refused as expired exactly when the reconciliation at that time finds the lease
-- no longer active.
pub heartbeat-expired :
    (l : Lease) (now duration : ℤ)
    → ((heartbeat now duration l).0 ≡ err expired) ↔ (reconcile l now ≢ active)
unfolding heartbeat reconcile
heartbeat-expired l now duration = (λ h. ground arith, λ h. ground arith)

-- A heartbeat that is refused leaves the lease as it was.
pub heartbeat_error_unchanged :
    (l : Lease) (now duration : ℤ) (e : LeaseError)
    → (heartbeat now duration l).0 ≡ err e
    → (heartbeat now duration l).1 ≡ l
unfolding heartbeat
heartbeat_error_unchanged l now duration e h = ground arith

-- A heartbeat that is accepted keeps the lease active at every time up to `duration` later.
pub heartbeat-active :
    (l : Lease) (now duration t : ℤ)
    → (heartbeat now duration l).0 ≡ ok tt
    → t ≤ℤ now +ℤ duration
    → reconcile (heartbeat now duration l).1 t ≡ active
unfolding heartbeat reconcile
heartbeat-active l now duration t h le = ground arith

-- Once a lease is no longer active it stays so, with the same verdict.
pub reconcile_stable :
    (l : Lease) (t u : ℤ) → reconcile l t ≢ active → t ≤ℤ u → reconcile l u ≡ reconcile l t
unfolding reconcile
reconcile_stable l t u h le = ground arith
