-- ===== src/Daemon/Admission.antt =====
-- crates/workflowd/src/resources/policy.rs: whether the machine has room for one more piece of work.
-- A percentage of the CPU, an `f32` in the source, is a number of a type `Percent` that is a
-- parameter, with its comparison `>`. A `u64` and a `u16` are numbers in their range.
pub mod Laws
use google_antigravity_cycle.Prelude.{
  ℕ, ◌+◌, Bool, true, false, ◌&&◌, Option, none, some, ◌==◌, ltb, leb, if◌then◌else◌,
  saturating_add,
}

pub data WorkKind : Type 0 where
  remote_model local_model build browser database indexing verification : WorkKind

pub data AdmissionDecision : Type 0 where
  admit defer_cpu defer_disk defer_indexing defer_memory defer_metrics_unavailable
        defer_recovery_backpressure :
      AdmissionDecision

abbrev pub max_u64 : ℕ
max_u64 = 18446744073709551615

abbrev pub max_u16 : ℕ
max_u16 = 65535

pub record ResourceDemand : Type 0 where
  pub disk_bytes : ℕ
  pub kind : WorkKind
  pub memory_bytes : ℕ

pub record ResourceSample (Percent : Type 0) : Type 0 where
  pub available_disk_bytes : Option ℕ
  pub available_memory_bytes : Option ℕ
  pub cpu_usage_percent : Option Percent
  pub owned_processes : Option ℕ

pub record ResourcePolicy (Percent : Type 0) : Type 0 where
  pub disk_reserve_bytes : ℕ
  pub max_cpu_percent : Percent
  pub memory_reserve_bytes : ℕ
  pub recovery_admissions_per_tick : ℕ

pub record AdmissionController (Percent : Type 0) : Type 0 where
  pub admitted_this_tick : ℕ
  pub policy : ResourcePolicy Percent
  pub pressured_last_tick : Bool
  pub recovery_tick : Bool

abbrev pub is_indexing : WorkKind → Bool
is_indexing indexing = true
is_indexing _ = false

module _ {Percent : Type 0} where
  unfoldable pub new : ResourcePolicy Percent → AdmissionController Percent
  new policy = record {
    admitted_this_tick = 0;
    policy = policy;
    pressured_last_tick = false;
    recovery_tick = false;
  }

  unfoldable pub begin_tick : AdmissionController Percent → AdmissionController Percent
  begin_tick c = record c {
    admitted_this_tick = 0;
    recovery_tick = c.pressured_last_tick;
    pressured_last_tick = false;
  }

  -- `gt a b` is the comparison `a > b` of the percentages.
  module _ (gt : Percent → Percent → Bool) where
    -- The decision once the three metrics are there.
    measured :
        ℕ
        → ℕ
        → Percent
        → ResourceDemand
        → AdmissionController Percent
        → AdmissionDecision × AdmissionController Percent
    measured memory disk cpu demand c =
        let pressured = record c { pressured_last_tick = true } in
        if ltb memory (saturating_add max_u64 c.policy.memory_reserve_bytes demand.memory_bytes)
        then (defer_memory, pressured)
        else if ltb disk (saturating_add max_u64 c.policy.disk_reserve_bytes demand.disk_bytes)
        then (defer_disk, pressured)
        else if gt cpu c.policy.max_cpu_percent
        then (defer_cpu, pressured)
        else if c.recovery_tick && leb c.policy.recovery_admissions_per_tick c.admitted_this_tick
        then (defer_recovery_backpressure, c)
        else (
          admit,
          record c { admitted_this_tick = saturating_add max_u16 c.admitted_this_tick 1 },
        )

    -- Each metric in turn, as the `let … else` of the source reads them.
    with_metrics :
        Option ℕ
        → Option ℕ
        → Option Percent
        → ResourceDemand
        → AdmissionController Percent
        → AdmissionDecision × AdmissionController Percent
    unfolding measured
    with_metrics (some memory) (some disk) (some cpu) demand c = measured memory disk cpu demand c
    with_metrics _ _ _ demand c = (defer_metrics_unavailable, c)

    unfoldable pub evaluate :
        ResourceSample Percent
        → ResourceDemand
        → Bool
        → AdmissionController Percent
        → AdmissionDecision × AdmissionController Percent
    unfolding with_metrics
    evaluate sample demand verification_waiting c =
        if is_indexing demand.kind && verification_waiting
        then (defer_indexing, c)
        else with_metrics sample.available_memory_bytes sample.available_disk_bytes
            sample.cpu_usage_percent demand c
