-- ===== src/Core/Architecture/Coverage.antt =====
-- crates/workflow-core/src/architecture.rs: the index from requirements to whether they are covered.
use google_antigravity_cycle.Prelude.{
  ◌≡◌, inl, inr, Bool, Bool-cases, true, false, ◌||◌, Option, none, some, List, [], ◌∷◌,
  if◌then◌else◌, all, any, is_some, All, All-map, Result, ok, err, arith, refl,
}
use google_antigravity_cycle.Prelude.Text.{Text, text_eq, text_eq_iff}
use google_antigravity_cycle.Prelude.Maps.{get, insert, get-insert, text_equality}
use google_antigravity_cycle.Prelude.Checks.{has_text}
use google_antigravity_cycle.Core.Architecture.{
  Requirement, PlannedTask, ArchitectureError, Index, insert_key, check_requirement, after,
  index_requirements, check_task, link_requirements, then_link, link_tasks, uncovered,
}

abbrev pub requirement_ids : List Requirement → List Text
requirement_ids [] = []
requirement_ids (r ∷ rs) = r.id ∷ requirement_ids rs

-- Whether one of the tasks is linked to the requirement.
abbrev pub is_covered : Text → List PlannedTask → Bool
is_covered i ts = any (λ t. has_text i t.requirement_ids) ts

-- No identifier stands twice.
abbrev pub Distinct : List Text → Type 0
Distinct [] = Unit {0}
Distinct (x ∷ xs) = (has_text x xs ≡ false) × Distinct xs

get-insert_key :
    (k j : Text) (b : Bool) (m : Index)
    → get j (insert_key k b m) ≡ (if text_eq k j then some b else get j m)
unfolding get insert_key
get-insert_key k j b [] = ground arith
get-insert_key k j b ((i, c) ∷ m) =
    ground (arith, get-insert_key k j b m, text_eq_iff k i, text_eq_iff i j, text_eq_iff k j)

pub All-has_text :
    (P : Text → Type 0) (xs : List Text) (x : Text) → All P xs → has_text x xs ≡ true → P x
All-has_text P [] x a h = absurd (ground arith)
All-has_text P (y ∷ ys) x a h = elim (Bool-cases (text_eq y x)) [
  | inl e ↦ rw (← (text_eq_iff y x).0 e) a.0
  | inr n ↦ All-has_text P ys x a.1 (ground arith)
]

is_some-insert :
    (i k : Text) (m : Index)
    → is_some (get i m) ≡ true
    → is_some (get k (insert i true m)) ≡ true
    → is_some (get k m) ≡ true
is_some-insert i k m h p = elim (Bool-cases (text_eq i k)) [
  | inl e ↦ rw (← (text_eq_iff i k).0 e) h
  | inr n ↦ ground (arith, get-insert i k true m)
]

-- What the loop over the requirements leaves.
pub record Indexed (rs : List Requirement) (before index : Index) : Type 0 where
  pub entries :
      (j : Text)
      → get j index ≡ (if has_text j (requirement_ids rs) then some false else get j before)
  pub distinct : Distinct (requirement_ids rs)
  pub new : All (λ i. get i before ≡ none) (requirement_ids rs)

new_key :
    (index : Index) (r : Requirement) → check_requirement index r ≡ none → get r.id index ≡ none
unfolding check_requirement
new_key index r h = ground arith

pub index_requirements-Indexed :
    (rs : List Requirement) (before index : Index)
    → index_requirements rs before ≡ ok index
    → Indexed rs before index
unfolding index_requirements
index_requirements-Indexed [] before index h = record {
  entries = λ j. ground arith;
  distinct = tt;
  new = tt;
}
index_requirements-Indexed (r ∷ rs) before index h =
    let ih = index_requirements-Indexed rs (insert_key r.id false before) index (ground arith) in
    let absent : get r.id before ≡ none = new_key before r (ground arith) in
    record {
      entries = λ j. ground (arith, ih.entries j, get-insert_key r.id j false before);
      distinct = (
        elim (Bool-cases (has_text r.id (requirement_ids rs))) [
          | inr n ↦ n
          | inl y ↦
              let twice : get r.id (insert_key r.id false before) ≡ none =
                All-has_text (λ i. get i (insert_key r.id false before) ≡ none) (requirement_ids rs)
                  r.id ih.new y in
              absurd (ground (arith, get-insert_key r.id r.id false before, text_eq_iff r.id r.id))
        ],
        ih.distinct,
      );
      new = (
        absent,
        All-map (λ i k. ground (arith, get-insert_key r.id i false before)) (requirement_ids rs)
            ih.new,
      );
    }

-- What the loop over the requirements of a task leaves.
link_requirements-ok :
    (is linked : List Text) (before index : Index)
    → link_requirements is linked before ≡ ok index
    → ((j : Text) → get j index ≡ (if has_text j is then some true else get j before))
      × All (λ i. is_some (get i before) ≡ true) is
unfolding link_requirements
link_requirements-ok [] linked before index h = (λ j. ground arith, tt)
link_requirements-ok (i ∷ is) linked before index h =
    let (entries, known) =
      link_requirements-ok is (i ∷ linked) (insert i true before) index (ground arith) in
    (
      λ j. ground (arith, entries j, get-insert i j true before),
      (ground arith, All-map (λ k p. is_some-insert i k before (ground arith) p) is known),
    )

-- What is known after a task was known before it.
known_before :
    (is : List Text) (before middle : Index) (i : Text)
    → ((j : Text) → get j middle ≡ (if has_text j is then some true else get j before))
    → All (λ i. is_some (get i before) ≡ true) is
    → is_some (get i middle) ≡ true
    → is_some (get i before) ≡ true
known_before is before middle i linked known k = elim (Bool-cases (has_text i is)) [
  | inl y ↦ All-has_text (λ i. is_some (get i before) ≡ true) is i known y
  | inr n ↦ ground (arith, linked i)
]

all_known_before :
    (is : List Text) (before middle : Index) (ts : List PlannedTask)
    → ((j : Text) → get j middle ≡ (if has_text j is then some true else get j before))
    → All (λ i. is_some (get i before) ≡ true) is
    → All (λ t. All (λ i. is_some (get i middle) ≡ true) t.requirement_ids) ts
    → All (λ t. All (λ i. is_some (get i before) ≡ true) t.requirement_ids) ts
all_known_before is before middle [] linked known h = tt
all_known_before is before middle (t ∷ ts) linked known h = (
  All-map (λ i k. known_before is before middle i linked known k) t.requirement_ids h.0,
  all_known_before is before middle ts linked known h.1,
)

link_first :
    (c : Option ArchitectureError) (r : Result Index ArchitectureError) (ts : List PlannedTask)
    (index : Index)
    → after c (then_link r (link_tasks ts)) ≡ ok index
    → (middle : Index) × (r ≡ ok middle) × (link_tasks ts middle ≡ ok index)
link_first (some e) r ts index h = absurd (ground arith)
link_first none (err e) ts index h = absurd (ground arith)
link_first none (ok middle) ts index h = (middle, refl, h)

covered_entry :
    (j : Text) (ids : List Text) (ts : List PlannedTask) (before middle index : Index)
    → get j middle ≡ (if has_text j ids then some true else get j before)
    → get j index ≡ (if is_covered j ts then some true else get j middle)
    → get j index ≡ (if has_text j ids || is_covered j ts then some true else get j before)
covered_entry j ids ts before middle index h k = ground (arith, h, k)

-- What the loop over the tasks leaves.
pub link_tasks-ok :
    (ts : List PlannedTask) (before index : Index)
    → link_tasks ts before ≡ ok index
    → ((j : Text) → get j index ≡ (if is_covered j ts then some true else get j before))
      × All (λ t. All (λ i. is_some (get i before) ≡ true) t.requirement_ids) ts
unfolding link_tasks
link_tasks-ok [] before index h = (λ j. ground arith, tt)
link_tasks-ok (t ∷ ts) before index h =
    let (middle, p, rest) =
      link_first (check_task t) (link_requirements t.requirement_ids [] before) ts index h in
    let (linked, known) = link_requirements-ok t.requirement_ids [] before middle p in
    let (entries, others) = link_tasks-ok ts middle index rest in
    (
      λ j. covered_entry j t.requirement_ids ts before middle index (linked j) (entries j),
      (known, all_known_before t.requirement_ids before middle ts linked known others),
    )

-- Where no requirement is left, each entry says that it is covered.
uncovered-none :
    (m : Index) (i : Text) (b : Bool) → uncovered m ≡ none → get i m ≡ some b → b ≡ true
unfolding uncovered get
uncovered-none [] i b h g = absurd (ground arith)
uncovered-none ((j, c) ∷ m) i b h g = ground (arith, uncovered-none m i b)

pub all_covered :
    (rs all : List Requirement) (ts : List PlannedTask) (index final : Index)
    → ((j : Text) → get j index ≡ (if has_text j (requirement_ids all) then some false else none))
    → ((j : Text) → get j final ≡ (if is_covered j ts then some true else get j index))
    → uncovered final ≡ none
    → All (λ r. has_text r.id (requirement_ids all) ≡ true) rs
    → All (λ r. is_covered r.id ts ≡ true) rs
all_covered rs all ts index final entries links left known =
    All-map (λ r k. ground (arith, entries r.id, links r.id, uncovered-none final r.id false left))
      rs known

pub known_requirements :
    (all : List Requirement) (ts : List PlannedTask) (index : Index)
    → ((j : Text) → get j index ≡ (if has_text j (requirement_ids all) then some false else none))
    → All (λ t. All (λ i. is_some (get i index) ≡ true) t.requirement_ids) ts
    → All (λ t. All (λ i. has_text i (requirement_ids all) ≡ true) t.requirement_ids) ts
known_requirements all ts index entries known =
    All-map (λ t. All-map (λ i k. ground (arith, entries i)) t.requirement_ids) ts known

pub own_ids :
    (rs all : List Requirement)
    → ((i : Text)
        → has_text i (requirement_ids rs) ≡ true
        → has_text i (requirement_ids all) ≡ true)
    → All (λ r. has_text r.id (requirement_ids all) ≡ true) rs
own_ids [] all h = tt
own_ids (r ∷ rs) all h =
    (h r.id (ground (arith, text_eq_iff r.id r.id)), own_ids rs all (λ i k. h i (ground arith)))
