-- ===== src/Core/Dag/Indexed.antt =====
-- crates/workflow-core/src/dag.rs: the nodes by their identifiers, and their dependencies.
use google_antigravity_cycle.Prelude.{
  is_some, ℕ, ◌≡◌, ◌≢◌, true, false, not, ◌||◌, Option, none, some, List, [], ◌∷◌, ◌==◌, ==_iff,
  if◌then◌else◌, All, All-map, ok, arith, refl, ap,
}
use google_antigravity_cycle.Prelude.Checks.{has_id}
use google_antigravity_cycle.Prelude.Checks.{
  reject_if, ◌and_then◌, and_then-eq-none, reject_if-eq-none, check_all,
}
use google_antigravity_cycle.Core.Dag.{
  TaskNode, Nodes, duplicate_dependency, missing_dependency, invalid_owner, invalid_scope, find,
  put_node, index_nodes, check_dependencies, check_node, is_executor, no_scopes,
}
use google_antigravity_cycle.Core.Path.{is_safe_relative}
use google_antigravity_cycle.Prelude.Text.{Text}
use google_antigravity_cycle.Core.Role.{executor}
use google_antigravity_cycle.Core.Dag.Reach.{NoDup, ids, find_absent}

ids-put_node :
    (i : ℕ) (n : TaskNode) (ms : Nodes)
    → has_id i (ids (put_node n ms)) ≡ (n.id == i || has_id i (ids ms))
unfolding put_node
ids-put_node i n [] = refl
ids-put_node i n (m ∷ ms) = ground (arith, ids-put_node i n ms)

put_node-NoDup :
    (n : TaskNode) (ms : Nodes)
    → has_id n.id (ids ms) ≡ false
    → NoDup (ids ms)
    → NoDup (ids (put_node n ms))
unfolding put_node
put_node-NoDup n [] h u = (refl, tt)
put_node-NoDup n (m ∷ ms) h u =
    ground (arith, put_node-NoDup n ms, ids-put_node m.id n ms, ==_iff n.id m.id, ==_iff m.id n.id)

find-put_node :
    (i : ℕ) (n : TaskNode) (ms : Nodes)
    → has_id n.id (ids ms) ≡ false
    → find i (put_node n ms) ≡ (if n.id == i then some n else find i ms)
unfolding put_node find
find-put_node i n [] h = refl
find-put_node i n (m ∷ ms) h =
    ground (arith, find-put_node i n ms, ==_iff n.id i, ==_iff m.id i, ==_iff m.id n.id)

pub is_some-find : (i : ℕ) (ns : Nodes) → is_some (find i ns) ≡ has_id i (ids ns)
unfolding find
is_some-find i [] = refl
is_some-find i (n ∷ ns) = ground (arith, is_some-find i ns)

abbrev or_find : Option TaskNode → Option TaskNode → Option TaskNode
or_find none o = o
or_find (some n) o = some n

index_nodes_lem :
    (indexed ns result : Nodes)
    → NoDup (ids indexed)
    → index_nodes indexed ns ≡ ok result
    → NoDup (ids result) × ((i : ℕ) → find i result ≡ or_find (find i indexed) (find i ns))
unfolding index_nodes find
index_nodes_lem indexed [] result u h =
    let same : indexed ≡ result = ground arith in
    (rw (← same) u, λ i. rw (← same) (or_nothing (find i indexed)))
  where
    or_nothing : (o : Option TaskNode) → o ≡ or_find o none
    or_nothing none = refl
    or_nothing (some n) = refl
index_nodes_lem indexed (n ∷ ns) result u h =
    let fresh : has_id n.id (ids indexed) ≡ false = ground (arith, is_some-find n.id indexed) in
    let (u', same) =
      index_nodes_lem (put_node n indexed) ns result (put_node-NoDup n indexed fresh u)
        (ground arith) in
    (
      u',
      λ i. ground (
        arith,
        same i,
        find-put_node i n indexed fresh,
        find_absent n.id indexed fresh,
        λ (e : n.id ≡ i). ap (λ x. find x indexed) e,
        ==_iff n.id i,
      ),
    )

-- The identifiers of the indexed nodes are unique, and they are the nodes that were given.
pub index_nodes-NoDup :
    (ns result : Nodes)
    → index_nodes [] ns ≡ ok result
    → NoDup (ids result) × ((i : ℕ) → find i result ≡ find i ns)
unfolding find
index_nodes-NoDup ns result h = index_nodes_lem [] ns result tt h

absent :
    (d : ℕ) (seen ds : List ℕ) → All (λ x. has_id x (d ∷ seen) ≡ false) ds → has_id d ds ≡ false
absent d seen [] h = refl
absent d seen (x ∷ ds) h = ground (arith, absent d seen ds h.1, ==_iff d x, ==_iff x d)

-- Dependencies that are named once, and known.
pub check_dependencies-NoDup :
    (nodes : Nodes) (task : ℕ) (seen ds : List ℕ)
    → check_dependencies nodes task seen ds ≡ none
    → NoDup ds × All (λ d. has_id d seen ≡ false) ds × All (λ d. has_id d (ids nodes) ≡ true) ds
unfolding check_dependencies
check_dependencies-NoDup nodes task seen [] h = (tt, tt, tt)
check_dependencies-NoDup nodes task seen (d ∷ ds) h =
    let (a, h1) =
      and_then-eq-none (reject_if (has_id d seen) (duplicate_dependency task d))
        (reject_if (not (is_some (find d nodes))) (missing_dependency task d)
          and_then check_dependencies nodes task (d ∷ seen) ds)
        h in
    let (b, h2) =
      and_then-eq-none (reject_if (not (is_some (find d nodes))) (missing_dependency task d))
        (check_dependencies nodes task (d ∷ seen) ds) h1 in
    let (u, new, known) = check_dependencies-NoDup nodes task (d ∷ seen) ds h2 in
    (
      (absent d seen ds new, u),
      (
        reject_if-eq-none (has_id d seen) (duplicate_dependency task d) a,
        All-map (λ x k. ground arith) ds new,
      ),
      (ground (arith, b, is_some-find d nodes), known),
    )

-- What the first loop of `validate_nodes` has shown of a node.
pub record IsChecked (nodes : Nodes) (n : TaskNode) : Type 0 where
  pub by_executor : n.owner ≡ executor
  pub has_scope : n.write_scopes ≢ []
  pub safe : All (λ s. is_safe_relative s ≡ true) n.write_scopes
  pub once : NoDup n.dependencies
  pub known : All (λ d. has_id d (ids nodes) ≡ true) n.dependencies

safe_scopes :
    (id : ℕ) (ss : List Text)
    → check_all (λ s. reject_if (not (is_safe_relative s)) (invalid_scope id s)) ss ≡ none
    → All (λ s. is_safe_relative s ≡ true) ss
safe_scopes id [] h = tt
safe_scopes id (s ∷ ss) h = (ground arith, safe_scopes id ss (ground arith))

pub check_node-IsChecked :
    (nodes : Nodes) (n : TaskNode) → check_node nodes n ≡ none → IsChecked nodes n
unfolding check_node
check_node-IsChecked nodes n h =
    let scopes =
      check_all (λ s. reject_if (not (is_safe_relative s)) (invalid_scope n.id s)) n.write_scopes in
    let (a, h1) =
      and_then-eq-none (reject_if (not (is_executor n.owner)) (invalid_owner n.id))
        (reject_if (no_scopes n.write_scopes) (invalid_scope n.id [])
          and_then scopes
          and_then check_dependencies nodes n.id [] n.dependencies)
        h in
    let (b, h2) =
      and_then-eq-none (reject_if (no_scopes n.write_scopes) (invalid_scope n.id []))
        (scopes and_then check_dependencies nodes n.id [] n.dependencies) h1 in
    let (c, d) = and_then-eq-none scopes (check_dependencies nodes n.id [] n.dependencies) h2 in
    let (once, _, known) = check_dependencies-NoDup nodes n.id [] n.dependencies d in
    record {
      by_executor = ground (arith, a);
      has_scope = λ e. ground (arith, b);
      safe = safe_scopes n.id n.write_scopes c;
      once = once;
      known = known;
    }
