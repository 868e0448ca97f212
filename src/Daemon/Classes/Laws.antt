-- ===== src/Daemon/Classes/Laws.antt =====
-- crates/workflowd/src/scheduler/classes.rs: the counts of running work against the limits.
use google_antigravity_cycle.Prelude.{
  ℕ, ◌+◌, ◌-◌, ◌≤◌, ◌<◌, ◌≡◌, ◌≢◌, ◌⊎◌, true, List, arith, if◌then◌else◌, ltb,
}
use google_antigravity_cycle.Prelude.Int.{ℤ}
use google_antigravity_cycle.Prelude.Maps.{get, get-insert}
use google_antigravity_cycle.Daemon.Classes.{
  WorkClass, CapacityLimiter, CapacityDecision, admitted, try_admit, release, new, or_default,
  class_equality,
}

-- How many of a class run, and how many may.
abbrev pub running : CapacityLimiter → WorkClass → ℕ
running l class = or_default (get class l.active)

abbrev pub allowed : CapacityLimiter → WorkClass → ℕ
allowed l class = or_default (get class l.limits)

pub record IsCapped (l : CapacityLimiter) : Type 0 where
  pub at : (class : WorkClass) → running l class ≤ allowed l class

pub new-IsCapped : (limits : List (WorkClass × ℕ)) → IsCapped (new limits)
unfolding new get
new-IsCapped limits = record { at = λ class. omega arith }

abbrev pub one_if : CapacityDecision → ℕ
one_if admitted = 1
one_if _ = 0

-- An admission adds one to the count of its class; any other decision, and any other class, leaves
-- the counts as they were. The limits stay.
pub running-try_admit :
    (class other : WorkClass) (now : ℤ) (l : CapacityLimiter)
    → (running (try_admit class now l).1 other ≡ (
        if class_equality.beq class other
        then running l other + one_if (try_admit class now l).0
        else running l other))
      × ((try_admit class now l).1.limits ≡ l.limits)
unfolding try_admit
running-try_admit class other now l = ground (
  arith,
  get-insert class other (running l class) l.active,
  get-insert class other (running l class + 1) l.active,
  class_equality.beq_iff class other,
)

pub running-release :
    (class other : WorkClass) (l : CapacityLimiter)
    → (running (release class l).1 other
        ≡ (if class_equality.beq class other then running l other - 1 else running l other))
      × ((release class l).1.limits ≡ l.limits)
      × ((release class l).0 ≡ ltb 0 (running l class))
unfolding release
running-release class other l = ground (
  arith,
  get-insert class other (running l class - 1) l.active,
  class_equality.beq_iff class other,
)

admits_below :
    (class : WorkClass) (now : ℤ) (l : CapacityLimiter)
    → (try_admit class now l).0 ≡ admitted
    → running l class < allowed l class
unfolding try_admit
admits_below class now l h = ground arith

-- Where all the counts are within their limits, work is admitted only below the limit of its class,
-- and every decision keeps the counts within the limits.
pub try_admit-IsCapped :
    (class : WorkClass) (now : ℤ) (l : CapacityLimiter)
    → IsCapped l
    → IsCapped (try_admit class now l).1
      × (((try_admit class now l).0 ≢ admitted) ⊎ (running l class < allowed l class))
try_admit-IsCapped class now l capped = (
  record {
    at = λ other. ground (
      arith,
      running-try_admit class other now l,
      admits_below class now l,
      capped.at other,
      class_equality.beq_iff class other,
    );
  },
  ground (arith, admits_below class now l),
)

pub release-IsCapped :
    (class : WorkClass) (l : CapacityLimiter) → IsCapped l → IsCapped (release class l).1
release-IsCapped class l capped = record {
  at = λ other. ground (arith, running-release class other l, capped.at other);
}

-- Releasing what has just been admitted succeeds, and gives every class its count back.
pub release-try_admit :
    (class other : WorkClass) (now : ℤ) (l : CapacityLimiter)
    → (try_admit class now l).0 ≡ admitted
    → let l' = (try_admit class now l).1 in
      ((release class l').0 ≡ true) × (running (release class l').1 other ≡ running l other)
release-try_admit class other now l h = ground (
  arith,
  running-try_admit class other now l,
  running-try_admit class class now l,
  running-release class other (try_admit class now l).1,
  class_equality.beq_iff class class,
)
