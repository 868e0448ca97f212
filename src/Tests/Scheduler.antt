-- ===== src/Tests/Scheduler.antt =====
-- crates/workflowd/src/scheduler and crates/workflowd/src/resources on small inputs.
use google_antigravity_cycle.Prelude.{
  List, ℕ, ◌<◌, ◌≡◌, ◌≢◌, ◌⊎◌, Bool, false, none, some, [], ◌∷◌, arith, refl, if◌then◌else◌, ltb,
}
use google_antigravity_cycle.Prelude.Int.{pos}
use google_antigravity_cycle.Prelude.Maps.{get, nat_equality, nat_beq}
use google_antigravity_cycle.Daemon.Queue.{
  FairQueue, Entry, ScheduledTask, ready, paused, pop, discard, remove_at,
}
use google_antigravity_cycle.Daemon.Queue.Fairness.{IsBest, behind, remaining, pop_first}
use google_antigravity_cycle.Daemon.Classes
use google_antigravity_cycle.Daemon.Classes.{
  CapacityLimiter, WorkClass, build, browser, admitted, try_admit, release, class_equality,
}
use google_antigravity_cycle.Daemon.Classes.Laws.{
  IsCapped, running, allowed, new-IsCapped, try_admit-IsCapped,
}
use google_antigravity_cycle.Daemon.Admission
use google_antigravity_cycle.Daemon.Admission.{
  ResourceDemand, ResourceSample, ResourcePolicy, AdmissionController, WorkKind,
}

abbrev task : ℕ → ℕ → ScheduledTask
task id project = record { priority = pos 1; project_id = project; task_id = id; workflow_id = 0 }

abbrev entry : ℕ → ℕ → Entry
entry id project = record { sequence = id; state = ready; task = task id project }

abbrev asleep : Entry
asleep = record { sequence = 1; state = paused; task = task 1 10 }

-- Project 10 has a paused task only, project 20 two that are ready.
abbrev queue : FairQueue
queue = record {
  projects = (10, asleep ∷ []) ∷ (20, entry 2 20 ∷ entry 3 20 ∷ []) ∷ [];
  rotation = 10 ∷ 20 ∷ [];
  sequence = 4;
  tasks = 1 ∷ 2 ∷ 3 ∷ [];
}

pop_first_example :
    (i : ℕ) × (e : Entry) × IsBest (entry 2 20 ∷ entry 3 20 ∷ []) i e
    × ((pop queue).0 ≡ some e.task)
    × ((pop queue).1.rotation ≡ 10 ∷ behind 20 (remove_at i (entry 2 20 ∷ entry 3 20 ∷ [])))
    × ((j : ℕ)
        → get j (pop queue).1.projects ≡ (
            if nat_equality.beq 20 j
            then remaining (remove_at i (entry 2 20 ∷ entry 3 20 ∷ []))
            else get j queue.projects))
    × ((pop queue).1.tasks ≡ discard e.task.task_id queue.tasks)
unfolding get nat_beq
pop_first_example =
    pop_first queue (10 ∷ []) [] 20 (entry 2 20 ∷ entry 3 20 ∷ []) refl
      ((asleep ∷ [], refl, (refl, tt)), tt) refl (λ n. ground arith)

abbrev limiter : CapacityLimiter
limiter = Classes.new ((build, 2) ∷ (browser, 1) ∷ [])

try_admit-IsCapped_example :
    IsCapped (try_admit build (pos 5) limiter).1
    × (((try_admit build (pos 5) limiter).0 ≢ admitted)
        ⊎ (running limiter build < allowed limiter build))
try_admit-IsCapped_example =
    try_admit-IsCapped build (pos 5) limiter (new-IsCapped ((build, 2) ∷ (browser, 1) ∷ []))

abbrev policy : ResourcePolicy ℕ
policy = record {
  disk_reserve_bytes = 100;
  max_cpu_percent = 80;
  memory_reserve_bytes = 50;
  recovery_admissions_per_tick = 1;
}

abbrev demand : ResourceDemand
demand = record { disk_bytes = 10; kind = WorkKind.build; memory_bytes = 20 }

abbrev sample : ResourceSample ℕ
sample = record {
  available_disk_bytes = some 500;
  available_memory_bytes = some 70;
  cpu_usage_percent = some 40;
  owned_processes = none;
}

abbrev above : ℕ → ℕ → Bool
above a b = ltb b a

-- A tick in which the second of two requests finds too little memory.
abbrev squeezed : List (ResourceSample ℕ × ResourceDemand × Bool)
squeezed =
    (sample, demand, false)
    ∷ (record sample { available_memory_bytes = some 60 }, demand, false)
    ∷ []
