-- ===== src/Core/Architecture.antt =====
-- crates/workflow-core/src/architecture.rs: a plan of requirements and tasks, and its validation.
-- Task identifiers are numbers, digests are texts. The `BTreeMap` from requirements to whether they are
-- covered is the list of its entries in the order of the keys. `none` stands for a panic.
pub mod Coverage
pub mod Texts
pub mod Judged
use google_antigravity_cycle.Prelude.{
  ℕ, Bool, true, false, not, ◌&&◌, ◌||◌, Option, none, some, List, [], ◌∷◌, ◌==◌, ltb, leb,
  if◌then◌else◌, length, all, any, is_some, map, Result, ok, err,
}
use google_antigravity_cycle.Prelude.Text.{Text, text_eq, text_ltb, is_blank, byte_length, as_bytes}
use google_antigravity_cycle.Prelude.Maps.{get, insert, text_equality}
use google_antigravity_cycle.Prelude.Checks.{◌and_then◌, reject_if, has_text}
use google_antigravity_cycle.Core.Role.{executor}
use google_antigravity_cycle.Core.Dag.{TaskNode, TaskDag, DagError, validate}

abbrev pub max_items : ℕ
max_items = 256

abbrev pub max_text_bytes : ℕ
max_text_bytes = 4096

pub record Requirement : Type 0 where
  pub acceptance_criteria : List Text
  pub id : Text
  pub statement : Text

pub record PlannedTask : Type 0 where
  pub acceptance_criteria : List Text
  pub dependencies : List ℕ
  pub id : ℕ
  pub objective : Text
  pub requirement_ids : List Text
  pub title : Text
  pub verification_commands : List Text
  pub write_scopes : List Text

pub record ArchitecturePlan : Type 0 where
  pub assumptions : List Text
  pub integration_checks : List Text
  pub request_digest : Text
  pub requirements : List Requirement
  pub risks : List Text
  pub tasks : List PlannedTask

pub data ArchitectureError : Type 0 where
  dag : DagError → ArchitectureError
  empty_acceptance_criteria empty_integration_checks invalid_requirement invalid_task
        limit_exceeded :
      ArchitectureError
  missing_requirement_coverage unknown_requirement : Text → ArchitectureError

unfoldable pub valid_text : Text → Bool
unfolding is_blank byte_length
valid_text value =
    not (is_blank value) && leb (byte_length value) max_text_bytes && not (any (λ c. c == 0) value)

abbrev is_ascii_alphanumeric : ℕ → Bool
is_ascii_alphanumeric b =
    (leb 48 b && leb b 57) || (leb 65 b && leb b 90) || (leb 97 b && leb b 122)

abbrev pub is_empty : {A : Type 0} → List A → Bool
is_empty [] = true
is_empty (c ∷ cs) = false

unfoldable pub valid_key : Text → Bool
unfolding byte_length as_bytes
valid_key value =
    not (is_empty value)
    && leb (byte_length value) 64
    && all (λ b. is_ascii_alphanumeric b || b == 45 || b == 95 || b == 46) (as_bytes value)

abbrev pub validate_texts : List Text → Option ArchitectureError
unfolding valid_text
validate_texts values = reject_if (any (λ v. not (valid_text v)) values) invalid_task

abbrev pub Index : Type 0
Index = List (Text × Bool)

-- `BTreeMap::insert`
pub insert_key : Text → Bool → Index → Index
unfolding text_ltb
insert_key k b [] = (k, b) ∷ []
insert_key k b ((j, c) ∷ m) =
    let rest = insert_key k b m in
    if text_eq k j then (j, b) ∷ m else if text_ltb k j then (k, b) ∷ (j, c) ∷ m else (j, c) ∷ rest

pub check_requirement : Index → Requirement → Option ArchitectureError
unfolding valid_key valid_text validate_texts
check_requirement index r =
    reject_if (not (valid_key r.id) || not (valid_text r.statement)) invalid_requirement
    and_then reject_if (is_empty r.acceptance_criteria) empty_acceptance_criteria
    and_then validate_texts r.acceptance_criteria
    and_then reject_if (is_some (get r.id index)) invalid_requirement

-- `?` on a check, before what comes next.
abbrev pub after :
    {A : Type 0}
    → Option ArchitectureError
    → Result A ArchitectureError
    → Result A ArchitectureError
after none r = r
after (some e) r = err e

-- The loop over the requirements.
pub index_requirements : List Requirement → Index → Result Index ArchitectureError
unfolding check_requirement insert_key
index_requirements [] index = ok index
index_requirements (r ∷ rs) index =
    after (check_requirement index r) (index_requirements rs (insert_key r.id false index))

pub check_task : PlannedTask → Option ArchitectureError
unfolding valid_text validate_texts
check_task t =
    reject_if
      (not (valid_text t.title)
        || not (valid_text t.objective)
        || is_empty t.requirement_ids
        || is_empty t.verification_commands)
      invalid_task
    and_then reject_if (is_empty t.acceptance_criteria) empty_acceptance_criteria
    and_then validate_texts t.acceptance_criteria
    and_then validate_texts t.verification_commands

-- The loop over the requirements of a task; `linked` are those before.
pub link_requirements : List Text → List Text → Index → Result Index ArchitectureError
link_requirements [] linked index = ok index
link_requirements (i ∷ is) linked index =
    let rest = link_requirements is (i ∷ linked) (insert i true index) in
    if has_text i linked
    then err invalid_task
    else if not (is_some (get i index))
    then err (unknown_requirement i)
    else rest

abbrev pub then_link :
    Result Index ArchitectureError
    → (Index → Result Index ArchitectureError)
    → Result Index ArchitectureError
then_link (err e) f = err e
then_link (ok index) f = f index

-- The loop over the tasks.
pub link_tasks : List PlannedTask → Index → Result Index ArchitectureError
unfolding check_task link_requirements
link_tasks [] index = ok index
link_tasks (t ∷ ts) index =
    after (check_task t) (then_link (link_requirements t.requirement_ids [] index) (link_tasks ts))

abbrev pub node_of : PlannedTask → TaskNode
node_of t = record {
  id = t.id;
  owner = executor;
  write_scopes = t.write_scopes;
  dependencies = t.dependencies;
}

-- `dag_nodes`
abbrev pub nodes_of : List PlannedTask → List TaskNode
nodes_of [] = []
nodes_of (t ∷ ts) = node_of t ∷ nodes_of ts

-- The first requirement, in the order of the keys, that no task covers.
pub uncovered : Index → Option Text
uncovered [] = none
uncovered ((i, covered) ∷ m) = if covered then uncovered m else some i

abbrev pub check_limits : ArchitecturePlan → Option ArchitectureError
check_limits p =
    reject_if
      (is_empty p.requirements
        || ltb max_items (length p.requirements)
        || is_empty p.tasks
        || ltb max_items (length p.tasks)
        || ltb max_items (length p.assumptions)
        || ltb max_items (length p.risks)
        || ltb max_items (length p.integration_checks))
      limit_exceeded

abbrev pub check_lists : ArchitecturePlan → Option ArchitectureError
unfolding validate_texts
check_lists p =
    check_limits p
    and_then validate_texts p.assumptions
    and_then validate_texts p.risks
    and_then reject_if (is_empty p.integration_checks) empty_integration_checks
    and_then validate_texts p.integration_checks

abbrev pub Outcome : Type 0
Outcome = Option (Result ArchitecturePlan ArchitectureError)

abbrev pub finish : ArchitecturePlan → Option Text → Outcome
finish p none = some (ok p)
finish p (some id) = some (err (missing_requirement_coverage id))

abbrev pub after_graph : ArchitecturePlan → Index → Option (Result TaskDag DagError) → Outcome
unfolding uncovered
after_graph p index none = none
after_graph p index (some (err e)) = some (err (dag e))
after_graph p index (some (ok d)) = finish p (uncovered index)

abbrev pub after_links : ArchitecturePlan → Result Index ArchitectureError → Outcome
unfolding after_graph validate
after_links p (err e) = some (err e)
after_links p (ok index) = after_graph p index (validate (nodes_of p.tasks))

abbrev pub after_requirements : ArchitecturePlan → Result Index ArchitectureError → Outcome
unfolding after_links link_tasks
after_requirements p (err e) = some (err e)
after_requirements p (ok index) = after_links p (link_tasks p.tasks index)

abbrev pub after_lists : ArchitecturePlan → Option ArchitectureError → Outcome
unfolding after_requirements index_requirements
after_lists p (some e) = some (err e)
after_lists p none = after_requirements p (index_requirements p.requirements [])

-- The argument holds what `ArchitecturePlan::validate` is given.
unfoldable pub validate_plan : ArchitecturePlan → Outcome
unfolding after_lists check_lists
validate_plan p = after_lists p (check_lists p)
