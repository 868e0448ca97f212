-- ===== src/Core/Dag.antt =====
-- crates/workflow-core/src/dag.rs: the graph of the tasks of a plan, its validation and its order.
-- A task identifier, a UUID in the source, is a number. A `BTreeMap` of nodes is the list of its
-- values in the order of their keys, which are their own identifiers; a `BTreeSet` is the list of its
-- elements in order. `none` stands for a panic, or for the fuel of a loop that ran out.
pub mod Reach
pub mod Counts
pub mod Kahn
pub mod Sorted
pub mod Indexed
pub mod Scopes
pub mod Sound
use google_antigravity_cycle.Prelude.{
  ℕ, zero, suc, ◌+◌, Bool, true, false, not, ◌&&◌, ◌||◌, Option, none, some, List, [], ◌∷◌, ◌++◌,
  ◌==◌, ltb, if◌then◌else◌, length, all, is_some, Result, ok, err,
}
use google_antigravity_cycle.Prelude.Text.{Text}
use google_antigravity_cycle.Prelude.Maps.{get, insert, nat_equality}
use google_antigravity_cycle.Prelude.Checks.{◌and_then◌, reject_if, check_all, has_id}
use google_antigravity_cycle.Core.Path.{is_safe_relative, overlaps}
use google_antigravity_cycle.Core.Role.{WorkflowRole, executor}

pub record TaskNode : Type 0 where
  pub id : ℕ
  pub owner : WorkflowRole
  pub write_scopes : List Text
  pub dependencies : List ℕ

pub data DagError : Type 0 where
  empty : DagError
  duplicate_task : ℕ → DagError
  invalid_owner : ℕ → DagError
  invalid_scope : ℕ → Text → DagError
  -- first task, second task, first scope, second scope
  overlapping_scope : ℕ → ℕ → Text → Text → DagError
  -- the task, the dependency
  duplicate_dependency missing_dependency : ℕ → ℕ → DagError
  cycle : DagError

pub record TaskDag : Type 0 where
  pub nodes : List TaskNode
  pub topological_order : List ℕ

abbrev pub Nodes : Type 0
Nodes = List TaskNode

-- `nodes.get(id)`
unfoldable pub find : ℕ → Nodes → Option TaskNode
find i [] = none
find i (n ∷ ns) = if n.id == i then some n else find i ns

-- Insertion in the order of the keys, and the first loop of `validate`.
pub put_node : TaskNode → Nodes → Nodes
put_node n [] = n ∷ []
put_node n (m ∷ ms) = let rest = put_node n ms in if ltb n.id m.id then n ∷ m ∷ ms else m ∷ rest

pub index_nodes : Nodes → Nodes → Result Nodes DagError
unfolding put_node find
index_nodes indexed [] = ok indexed
index_nodes indexed (n ∷ ns) =
    let rest = index_nodes (put_node n indexed) ns in
    if is_some (find n.id indexed) then err (duplicate_task n.id) else rest

abbrev is_executor : WorkflowRole → Bool
is_executor executor = true
is_executor _ = false

-- The loop over the dependencies of a task; `seen` holds those before.
pub check_dependencies : Nodes → ℕ → List ℕ → List ℕ → Option DagError
unfolding find
check_dependencies nodes task seen [] = none
check_dependencies nodes task seen (d ∷ ds) =
    reject_if (has_id d seen) (duplicate_dependency task d)
    and_then reject_if (not (is_some (find d nodes))) (missing_dependency task d)
    and_then check_dependencies nodes task (d ∷ seen) ds

abbrev no_scopes : List Text → Bool
no_scopes [] = true
no_scopes (s ∷ ss) = false

-- A round of the first loop of `validate_nodes`.
pub check_node : Nodes → TaskNode → Option DagError
unfolding check_dependencies
check_node nodes n =
    reject_if (not (is_executor n.owner)) (invalid_owner n.id)
    and_then reject_if (no_scopes n.write_scopes) (invalid_scope n.id [])
    and_then check_all (λ s. reject_if (not (is_safe_relative s)) (invalid_scope n.id s))
        n.write_scopes
    and_then check_dependencies nodes n.id [] n.dependencies

abbrev pub dependencies_of : Option TaskNode → List ℕ
dependencies_of none = []
dependencies_of (some n) = n.dependencies

-- The inner loop of `depends_on`: the stack with the dependencies pushed, or `none` where one of them
-- is the target.
pub pushed : ℕ → List ℕ → List ℕ → Option (List ℕ)
pushed target [] pending = some pending
pushed target (d ∷ ds) pending =
    let rest = pushed target ds (d ∷ pending) in if d == target then none else rest

-- The loop of `depends_on`; the head of `pending` is the top of the stack.
pub walk : ℕ → Nodes → ℕ → List ℕ → List ℕ → Option Bool
unfolding pushed find
walk fuel nodes target [] visited = some false
walk zero nodes target (c ∷ cs) visited = none
walk (suc fuel) nodes target (c ∷ cs) visited = elim (has_id c visited) [
  | true ↦ walk fuel nodes target cs visited
  | false ↦ elim (pushed target (dependencies_of (find c nodes)) cs) [
    | none ↦ some true
    | some pending ↦ walk fuel nodes target pending (c ∷ visited)
  ]
]

-- How many dependencies the nodes have together.
abbrev pub total : Nodes → ℕ
total [] = 0
total (n ∷ ns) = length n.dependencies + total ns

-- Each node pushes its dependencies once.
unfoldable pub depends_on : Nodes → ℕ → ℕ → Option Bool
unfolding walk
depends_on nodes task target = walk (suc (total nodes)) nodes target (task ∷ []) []

-- `a || b`, where `b` is evaluated only if it is needed.
abbrev or_else : Option Bool → Option Bool → Option Bool
or_else none later = none
or_else (some true) later = some true
or_else (some false) later = later

unfoldable pub dependency_ordered : Nodes → ℕ → ℕ → Option Bool
unfolding depends_on
dependency_ordered nodes first second =
    or_else (depends_on nodes first second) (depends_on nodes second first)

abbrev pub Check : Type 0
Check = Option (Option DagError)

abbrev pub Scope : Type 0
Scope = ℕ × Text

abbrev next : Check → Check → Check
next none later = none
next (some none) later = later
next (some (some e)) later = some (some e)

abbrev unless_ordered : Option Bool → DagError → Check
unless_ordered none e = none
unless_ordered (some true) e = some none
unless_ordered (some false) e = some (some e)

-- A scope against one before it.
pub check_pair : Nodes → Scope → Scope → Check
unfolding dependency_ordered
check_pair nodes (task, scope) (other_task, other_scope) =
    if overlaps scope other_scope
    then unless_ordered (dependency_ordered nodes task other_task)
        (overlapping_scope other_task task other_scope scope)
    else some none

-- The scopes before it, in turn.
pub check_against : Nodes → Scope → List Scope → Check
unfolding check_pair
check_against nodes s [] = some none
check_against nodes s (o ∷ os) = next (check_pair nodes s o) (check_against nodes s os)

-- The second loop of `validate_nodes`; `scopes` are those before.
pub check_scopes : Nodes → List Scope → List Scope → Check
unfolding check_against
check_scopes nodes scopes [] = some none
check_scopes nodes scopes (s ∷ ss) =
    next (check_against nodes s scopes) (check_scopes nodes (scopes ++ s ∷ []) ss)

abbrev pub tagged : ℕ → List Text → List Scope
tagged id [] = []
tagged id (s ∷ ss) = (id, s) ∷ tagged id ss

-- The scopes in the order in which the loop takes them.
abbrev pub scopes_of : Nodes → List Scope
scopes_of [] = []
scopes_of (n ∷ ns) = tagged n.id n.write_scopes ++ scopes_of ns

pub validate_nodes : Nodes → Check
unfolding check_node check_scopes
validate_nodes nodes =
    next (some (check_all (check_node nodes) nodes)) (check_scopes nodes [] (scopes_of nodes))

abbrev pub Degrees : Type 0
Degrees = List (ℕ × ℕ)

unfoldable pub indegrees_of : Nodes → Degrees
indegrees_of [] = []
indegrees_of (n ∷ ns) = (n.id, length n.dependencies) ∷ indegrees_of ns

abbrev pub or_nil : Option (List ℕ) → List ℕ
or_nil none = []
or_nil (some ids) = ids

-- The loops that fill `dependents`.
pub add_dependent : ℕ → List ℕ → List (ℕ × List ℕ) → List (ℕ × List ℕ)
add_dependent id [] m = m
add_dependent id (d ∷ ds) m = add_dependent id ds (insert d (or_nil (get d m) ++ id ∷ []) m)

pub dependents_from : List (ℕ × List ℕ) → Nodes → List (ℕ × List ℕ)
unfolding add_dependent
dependents_from m [] = m
dependents_from m (n ∷ ns) = dependents_from (add_dependent n.id n.dependencies m) ns

-- `BTreeSet::insert`
pub set_insert : ℕ → List ℕ → List ℕ
set_insert x [] = x ∷ []
set_insert x (y ∷ ys) =
    let rest = set_insert x ys in
    if x == y then y ∷ ys else if ltb x y then x ∷ y ∷ ys else y ∷ rest

pub zero_degrees : Degrees → List ℕ
unfolding set_insert
zero_degrees [] = []
zero_degrees ((id, degree) ∷ m) =
    let rest = zero_degrees m in if degree == 0 then set_insert id rest else rest

-- The loop over the dependents of a task that is placed. A dependent with no degree, or with the
-- degree zero already, is a panic.
pub release : List ℕ → Degrees → List ℕ → Option (Degrees × List ℕ)
unfolding set_insert
release [] degrees ready = some (degrees, ready)
release (d ∷ ds) degrees ready = elim (get d degrees) [
  | none ↦ none
  | some zero ↦ none
  | some (suc degree) ↦
      release ds (insert d degree degrees) (if degree == 0 then set_insert d ready else ready)
]

pub place : ℕ → List (ℕ × List ℕ) → Degrees → List ℕ → List ℕ → Option (List ℕ)
unfolding release
place fuel dependents degrees [] order = some order
place zero dependents degrees (t ∷ ready) order = none
place (suc fuel) dependents degrees (t ∷ ready) order =
    elim (release (or_nil (get t dependents)) degrees ready) [
      | none ↦ none
      | some (degrees', ready') ↦ place fuel dependents degrees' ready' (order ++ t ∷ [])
    ]

-- The test at the end of `sort`.
abbrev all_placed : Nodes → Option (List ℕ) → Option (Result (List ℕ) DagError)
all_placed nodes none = none
all_placed nodes (some order) = some (if length order == length nodes then ok order else err cycle)

-- Each node is placed at most once.
unfoldable pub sort : Nodes → Option (Result (List ℕ) DagError)
unfolding place indegrees_of dependents_from zero_degrees
sort nodes =
    let degrees = indegrees_of nodes in
    all_placed nodes
      (place (length nodes) (dependents_from [] nodes) degrees (zero_degrees degrees) [])

abbrev make : Nodes → Option (Result (List ℕ) DagError) → Option (Result TaskDag DagError)
make nodes none = none
make nodes (some (err e)) = some (err e)
make nodes (some (ok order)) = some (ok (record { nodes = nodes; topological_order = order }))

pub after_check : Nodes → Check → Option (Result TaskDag DagError)
unfolding sort
after_check nodes none = none
after_check nodes (some (some e)) = some (err e)
after_check nodes (some none) = make nodes (sort nodes)

pub after_index : Result Nodes DagError → Option (Result TaskDag DagError)
unfolding after_check validate_nodes
after_index (err e) = some (err e)
after_index (ok indexed) = after_check indexed (validate_nodes indexed)

abbrev no_nodes : Nodes → Bool
no_nodes [] = true
no_nodes (n ∷ ns) = false

unfoldable pub validate : Nodes → Option (Result TaskDag DagError)
unfolding after_index index_nodes
validate nodes = if no_nodes nodes then some (err empty) else after_index (index_nodes [] nodes)

-- The tasks that are not completed and whose dependencies are.
unfoldable pub ready_tasks : List ℕ → Nodes → List ℕ
ready_tasks completed [] = []
ready_tasks completed (n ∷ ns) =
    let rest = ready_tasks completed ns in
    if not (has_id n.id completed) && all (λ d. has_id d completed) n.dependencies
    then n.id ∷ rest
    else rest

abbrev dependencies_done : List ℕ → Option TaskNode → Bool
dependencies_done completed none = false
dependencies_done completed (some n) = all (λ d. has_id d completed) n.dependencies

unfoldable pub can_complete : TaskDag → ℕ → List ℕ → Bool
unfolding find
can_complete dag task completed =
    not (has_id task completed) && dependencies_done completed (find task dag.nodes)
