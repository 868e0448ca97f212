-- ===== src/Tests/Plans.antt =====
-- crates/workflow-core/src/path.rs and dag.rs on small inputs.
use google_antigravity_cycle.Prelude.{
  ℕ, ◌≡◌, Bool, true, false, ◌||◌, ◌↔◌, some, List, [], ◌∷◌, ok, err, refl,
}
use google_antigravity_cycle.Prelude.Text.{Text}
use google_antigravity_cycle.Prelude.Maps.{get, insert, nat_beq}
use google_antigravity_cycle.Core.Role.{executor}
use google_antigravity_cycle.Core.Path.{split, is_safe_relative, overlaps}
use google_antigravity_cycle.Core.Path.Segments.{leads, overlaps-split}
use google_antigravity_cycle.Core.Dag.{
  TaskNode, Nodes, cycle, overlapping_scope, depends_on, sort, validate, ready_tasks,
}
use google_antigravity_cycle.Core.Dag.Reach.{Needs, depends_on_decides}
use google_antigravity_cycle.Core.Dag.Kahn.{IsGraph}
use google_antigravity_cycle.Core.Dag.Sorted.{Sorted, sort-Sorted}
use google_antigravity_cycle.Core.Dag.Sound.{Validated, validate-Validated}

abbrev node : ℕ → List Text → List ℕ → TaskNode
node i scopes ds = record { id = i; owner = executor; write_scopes = scopes; dependencies = ds }

-- `src`, and `src/a` below it.
abbrev src : Text
src = 115 ∷ 114 ∷ 99 ∷ []

abbrev below : Text
below = 115 ∷ 114 ∷ 99 ∷ 47 ∷ 97 ∷ []

-- The second task needs the first, whose scope overlaps its own.
abbrev two_tasks : Nodes
two_tasks = node 2 (below ∷ []) (1 ∷ []) ∷ node 1 (src ∷ []) [] ∷ []

abbrev by_id : Nodes
by_id = node 1 (src ∷ []) [] ∷ node 2 (below ∷ []) (1 ∷ []) ∷ []

two_tasks_pass :
    validate two_tasks ≡ some (ok (record { nodes = by_id; topological_order = 1 ∷ 2 ∷ [] }))
unfolding validate is_safe_relative overlaps get insert nat_beq
two_tasks_pass = refl

unrelated :
    validate (node 2 (below ∷ []) [] ∷ node 1 (src ∷ []) [] ∷ [])
    ≡ some (err (overlapping_scope 1 2 src below))
unfolding validate is_safe_relative overlaps
unrelated = refl

loop : validate (node 1 (src ∷ []) (2 ∷ []) ∷ node 2 (below ∷ []) (1 ∷ []) ∷ []) ≡ some (err cycle)
unfolding validate is_safe_relative overlaps
loop = refl

first_ready : ready_tasks (1 ∷ []) by_id ≡ 2 ∷ []
unfolding ready_tasks
first_ready = refl

dots_refused : is_safe_relative (97 ∷ 47 ∷ 46 ∷ 46 ∷ []) ≡ false
unfolding is_safe_relative
dots_refused = refl

validate-Validated_example : Validated two_tasks (validate two_tasks)
validate-Validated_example = validate-Validated two_tasks

depends_on_decides_example :
    (b : Bool) × (depends_on by_id 2 1 ≡ some b) × ((b ≡ true) ↔ Needs by_id 2 1)
depends_on_decides_example = depends_on_decides by_id (refl, (refl, tt)) 2 1

by_id-IsGraph : IsGraph by_id
by_id-IsGraph = record {
  unique = (refl, (refl, tt));
  once = (tt, ((refl, tt), tt));
  known = (tt, ((refl, tt), tt));
}

sort-Sorted_example : Sorted by_id (sort by_id)
sort-Sorted_example = sort-Sorted by_id by_id-IsGraph

overlaps-split_example :
    overlaps src below ≡ (leads (split below) (split src) || leads (split src) (split below))
overlaps-split_example = overlaps-split src below
