-- ===== src/Daemon/Admission/Laws.antt =====
-- crates/workflowd/src/resources/policy.rs: reserves, and the backpressure after a tick under pressure.
use google_antigravity_cycle.Prelude.{
  ℕ, ◌+◌, ◌≤◌, ◌<◌, ◌≡◌, ◌&&◌, ◌||◌, not, ltb, saturating_add, Bool, true, false, none, some, List,
  [], ◌∷◌, arith,
}
use google_antigravity_cycle.Daemon.Admission.{
  ResourceDemand, ResourceSample, ResourcePolicy, AdmissionController, AdmissionDecision, admit,
  defer_memory, defer_disk, defer_cpu, is_indexing, evaluate, max_u64,
}

-- The decisions for a shortage.
abbrev pub is_shortage : AdmissionDecision → Bool
is_shortage defer_memory = true
is_shortage defer_disk = true
is_shortage defer_cpu = true
is_shortage _ = false

abbrev one_if : AdmissionDecision → ℕ
one_if admit = 1
one_if _ = 0

module _ {Percent : Type 0} (gt : Percent → Percent → Bool) where
  -- Where the three metrics are there, with less memory and disk than the largest `u64`, work is
  -- admitted only if the memory and the disk that are free cover the reserve and the demand
  -- together, the CPU is not above its maximum, and it is not indexing while verification waits.
  pub admit_reserves :
      (sample : ResourceSample Percent) (demand : ResourceDemand) (waiting : Bool)
      (c : AdmissionController Percent) (memory disk : ℕ) (cpu : Percent)
      → sample.available_memory_bytes ≡ some memory
      → sample.available_disk_bytes ≡ some disk
      → sample.cpu_usage_percent ≡ some cpu
      → memory < max_u64
      → disk < max_u64
      → (evaluate gt sample demand waiting c).0 ≡ admit
      → (c.policy.memory_reserve_bytes + demand.memory_bytes ≤ memory)
        × (c.policy.disk_reserve_bytes + demand.disk_bytes ≤ disk)
        × (gt cpu c.policy.max_cpu_percent ≡ false)
        × ((is_indexing demand.kind && waiting) ≡ false)
  unfolding evaluate
  admit_reserves sample demand waiting c memory disk cpu m d p sm sd h = ground arith

  -- How many of the evaluations that are asked for in turn admit.
  pub admissions :
      AdmissionController Percent → List (ResourceSample Percent × ResourceDemand × Bool) → ℕ
  admissions c [] = 0
  admissions c ((sample, demand, waiting) ∷ rs) =
      let (decision, c') = evaluate gt sample demand waiting c in one_if decision + admissions c' rs

  -- After an evaluation the flag for the next tick is set exactly if it was set before or the
  -- decision was for a shortage of memory, disk or CPU.
  pub pressure_kept :
      (c : AdmissionController Percent) (sample : ResourceSample Percent) (demand : ResourceDemand)
      (waiting : Bool)
      → let (decision, c') = evaluate gt sample demand waiting c in
        c'.pressured_last_tick ≡ (c.pressured_last_tick || is_shortage decision)
  unfolding evaluate
  pressure_kept c sample demand waiting = ground arith

  -- The machine falls short of a request that is judged by the three metrics: the memory or the disk
  -- that is free is less than the reserve and the demand together, summed as a `u64`, or the CPU is
  -- above its maximum.
  abbrev pub is_short :
      ResourcePolicy Percent → (ResourceSample Percent × ResourceDemand × Bool) → Bool
  is_short p (sample, demand, waiting) = elim (sample.available_memory_bytes) [
    | none ↦ false
    | some memory ↦ elim (sample.available_disk_bytes) [
      | none ↦ false
      | some disk ↦ elim (sample.cpu_usage_percent) [
        | none ↦ false
        | some cpu ↦
            not (is_indexing demand.kind && waiting)
            && (ltb memory (saturating_add max_u64 p.memory_reserve_bytes demand.memory_bytes)
                || ltb disk (saturating_add max_u64 p.disk_reserve_bytes demand.disk_bytes)
                || gt cpu p.max_cpu_percent)
      ]
    ]
  ]

  -- The controller after the evaluations that are asked for in turn.
  pub evaluate_all :
      AdmissionController Percent
      → List (ResourceSample Percent × ResourceDemand × Bool)
      → AdmissionController Percent
  evaluate_all c [] = c
  evaluate_all c ((sample, demand, waiting) ∷ rs) =
      evaluate_all (evaluate gt sample demand waiting c).1 rs
