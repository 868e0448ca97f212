-- ===== src/Daemon/Queue.antt =====
-- crates/workflowd/src/scheduler/queue.rs: tasks by project, popped in rotation.
-- Identifiers, UUIDs in the source, are numbers; a priority, an `i16`, is an integer. The map of the
-- projects is only looked up and updated, and the set of tasks is a list.
pub mod Fairness
use google_antigravity_cycle.Prelude.{
  ℕ, zero, suc, ◌+◌, Bool, true, false, ◌&&◌, ◌||◌, not, Option, none, some, List, [], ◌∷◌, ◌++◌,
  ◌==◌, ltb, leb, if◌then◌else◌, saturating_add, length, any, is_some,
}
use google_antigravity_cycle.Prelude.Int.{ℤ, ltb_ℤ, leb_ℤ}
use google_antigravity_cycle.Prelude.Maps.{get, insert, remove, nat_equality}

pub data SchedulingState : Type 0 where
  ready paused blocked : SchedulingState

pub record ScheduledTask : Type 0 where
  pub priority : ℤ
  pub project_id : ℕ
  pub task_id : ℕ
  pub workflow_id : ℕ

pub record Entry : Type 0 where
  pub sequence : ℕ
  pub state : SchedulingState
  pub task : ScheduledTask

pub record FairQueue : Type 0 where
  pub projects : List (ℕ × List Entry)
  pub rotation : List ℕ
  -- a `u64`
  pub sequence : ℕ
  pub tasks : List ℕ

unfoldable pub new : FairQueue
new = record { projects = []; rotation = []; sequence = 0; tasks = [] }

abbrev pub max_u64 : ℕ
max_u64 = 18446744073709551615

-- `BTreeSet::contains` and `BTreeSet::remove`
abbrev pub contains : ℕ → List ℕ → Bool
contains x = any (λ y. y == x)

unfoldable pub discard : ℕ → List ℕ → List ℕ
discard x [] = []
discard x (y ∷ ys) = let rest = discard x ys in if y == x then rest else y ∷ rest

-- The entries of a project, none where it has no key.
abbrev pub entries_of : Option (List Entry) → List Entry
entries_of none = []
entries_of (some es) = es

unfoldable pub enqueue : ScheduledTask → SchedulingState → FairQueue → Bool × FairQueue
enqueue task state q =
    if contains task.task_id q.tasks
    then (false, q)
    else let found = get task.project_id q.projects in
      let entry : Entry = record { sequence = q.sequence; state = state; task = task } in
      (
        true,
        record {
          projects = insert task.project_id (entries_of found ++ entry ∷ []) q.projects;
          rotation = if is_some found then q.rotation else q.rotation ++ task.project_id ∷ [];
          sequence = saturating_add max_u64 q.sequence 1;
          tasks = task.task_id ∷ q.tasks;
        },
      )

-- The loop of `set_workflow_state` over the entries of a project, and over the projects.
set_entries : ℕ → SchedulingState → List Entry → List Entry
set_entries workflow_id state [] = []
set_entries workflow_id state (e ∷ es) =
    (if e.task.workflow_id == workflow_id then record e { state = state } else e)
    ∷ set_entries workflow_id state es

set_projects : ℕ → SchedulingState → List (ℕ × List Entry) → List (ℕ × List Entry)
unfolding set_entries
set_projects workflow_id state [] = []
set_projects workflow_id state ((p, es) ∷ ps) =
    (p, set_entries workflow_id state es) ∷ set_projects workflow_id state ps

unfoldable pub set_workflow_state : ℕ → SchedulingState → FairQueue → FairQueue
unfolding set_projects
set_workflow_state workflow_id state q = record q {
  projects = set_projects workflow_id state q.projects;
}

abbrev pub is_ready : SchedulingState → Bool
is_ready ready = true
is_ready _ = false

-- The key `(priority, Reverse(sequence))` of `b` is at least that of `a`.
abbrev pub at_least : Entry → Entry → Bool
at_least a b =
    ltb_ℤ a.task.priority b.task.priority
    || (leb_ℤ a.task.priority b.task.priority && leb b.sequence a.sequence)

-- One round of `filter` and `max_by_key`, which keeps the later of two entries that are equal.
abbrev keep_better : Option (ℕ × Entry) → ℕ → Entry → Option (ℕ × Entry)
keep_better none index e = some (index, e)
keep_better (some (i, best)) index e = if at_least best e then some (index, e) else some (i, best)

-- The selected entry with its index, over the entries from `index` on.
select_from : ℕ → Option (ℕ × Entry) → List Entry → Option (ℕ × Entry)
select_from index best [] = best
select_from index best (e ∷ es) =
    select_from (suc index) (if is_ready e.state then keep_better best index e else best) es

unfoldable pub select : List Entry → Option (ℕ × Entry)
unfolding select_from
select = select_from 0 none

-- `Vec::remove`
abbrev pub remove_at : ℕ → List Entry → List Entry
remove_at i [] = []
remove_at zero (e ∷ es) = es
remove_at (suc i) (e ∷ es) = e ∷ remove_at i es

-- The queue after the entry `e` of the project `p` is taken, with the entries `left` in the project
-- and the projects `rest` behind it in the rotation.
taken : ℕ → Entry → List Entry → List ℕ → FairQueue → FairQueue
taken p e [] rest q = record q {
  projects = remove p q.projects;
  rotation = rest;
  tasks = discard e.task.task_id q.tasks;
}
taken p e (l ∷ left) rest q = record q {
  projects = insert p (l ∷ left) q.projects;
  rotation = rest ++ p ∷ [];
  tasks = discard e.task.task_id q.tasks;
}

-- What a round of the loop of `pop` does with the project `p` that it has taken off the rotation:
-- `later` is the rest of the loop.
abbrev visit :
    ℕ
    → List ℕ
    → Option (List Entry)
    → FairQueue
    → (FairQueue → Option ScheduledTask × FairQueue)
    → Option ScheduledTask × FairQueue
visit p rest none q later = (none, record q { rotation = rest })
visit p rest (some es) q later = elim (select es) [
  | some (i, e) ↦ (some e.task, taken p e (remove_at i es) rest q)
  | none ↦ later (record q { rotation = rest ++ p ∷ [] })
]

pop_rounds : ℕ → List ℕ → FairQueue → Option ScheduledTask × FairQueue
pop_rounds zero rotation q = (none, q)
pop_rounds (suc n) [] q = (none, q)
pop_rounds (suc n) (p ∷ rest) q =
    visit p rest (get p q.projects) q (λ q'. pop_rounds n (rest ++ p ∷ []) q')

-- The loop runs once for each project of the rotation.
unfoldable pub pop : FairQueue → Option ScheduledTask × FairQueue
unfolding pop_rounds taken select
pop q = pop_rounds (length q.rotation) q.rotation q

-- `len` and `is_empty`
unfoldable pub size : FairQueue → ℕ
size q = length q.tasks
