-- ===== src/Core/Dag/Sound.antt =====
-- crates/workflow-core/src/dag.rs: what `TaskDag::validate` has shown of a plan that it accepts.
use google_antigravity_cycle.Prelude.{
  is_some, ℕ, ◌≡◌, ◌≢◌, true, not, Option, none, some, List, [], ◌∷◌, ==_iff, length, All, All-map,
  Result, ok, err, arith, refl, ap, sym, ◌∙◌,
}
use google_antigravity_cycle.Prelude.Checks.{reject_if, has_id, check_all, check_all-eq-none}
use google_antigravity_cycle.Core.Dag.{
  TaskNode, Nodes, TaskDag, DagError, Check, cycle, invalid_scope, find, put_node,
  check_dependencies, index_nodes, check_node, check_scopes, scopes_of, next, validate_nodes, make,
  after_check, after_index, validate,
}
use google_antigravity_cycle.Core.Path.{is_safe_relative}
use google_antigravity_cycle.Core.Dag.Reach.{NoDup, ids}
use google_antigravity_cycle.Core.Dag.Kahn.{IsGraph, IsOrder, Before}
use google_antigravity_cycle.Core.Dag.Sorted.{Sorted, sorted, cyclic, sort-Sorted, All-has}
use google_antigravity_cycle.Core.Dag.Indexed.{
  IsChecked, is_some-find, index_nodes-NoDup, check_node-IsChecked,
}
use google_antigravity_cycle.Core.Dag.Scopes.{Separated, Returns, check_scopes-Returns}

-- A graph of tasks that can be worked on: its nodes are those that were given, each is checked, no two
-- tasks write the same path at the same time, and the order has every task once, after all that it needs.
pub record IsPlan (nodes : Nodes) (dag : TaskDag) : Type 0 where
  pub unique : NoDup (ids dag.nodes)
  pub same_nodes : (i : ℕ) → find i dag.nodes ≡ find i nodes
  pub checked : All (IsChecked dag.nodes) dag.nodes
  pub separated : Separated dag.nodes (scopes_of dag.nodes)
  pub order : IsOrder dag.nodes dag.topological_order
  pub as_long : length dag.topological_order ≡ length dag.nodes

-- What `validate` may return. An error for a cycle is returned only where no order exists.
pub data Validated (nodes : Nodes) : Option (Result TaskDag DagError) → Type 0 where
  accepted : {dag : TaskDag} → IsPlan nodes dag → Validated nodes (some (ok dag))
  no_order : ((order : List ℕ) → ¬ IsOrder nodes order) → Validated nodes (some (err cycle))
  refused : {e : DagError} → e ≢ cycle → Validated nodes (some (err e))

check_all_error :
    {A : Type 0} (f : A → Option DagError) (xs : List A) (e : DagError)
    → ((x : A) (e : DagError) → f x ≡ some e → e ≢ cycle)
    → check_all f xs ≡ some e
    → e ≢ cycle
check_all_error f [] e k h = absurd (ground arith)
check_all_error f (x ∷ xs) e k h = ground (arith, k x e, check_all_error f xs e k)

check_dependencies_error :
    (nodes : Nodes) (task : ℕ) (seen ds : List ℕ) (e : DagError)
    → check_dependencies nodes task seen ds ≡ some e
    → e ≢ cycle
unfolding check_dependencies
check_dependencies_error nodes task seen [] e h = absurd (ground arith)
check_dependencies_error nodes task seen (d ∷ ds) e h =
    ground (arith, check_dependencies_error nodes task (d ∷ seen) ds e)

check_node_error :
    (nodes : Nodes) (n : TaskNode) (e : DagError) → check_node nodes n ≡ some e → e ≢ cycle
unfolding check_node
check_node_error nodes n e h = ground (
  arith,
  check_dependencies_error nodes n.id [] n.dependencies e,
  check_all_error (λ s. reject_if (not (is_safe_relative s)) (invalid_scope n.id s)) n.write_scopes
      e (λ s e' h'. ground arith),
)

index_nodes_error : (indexed ns : Nodes) (e : DagError) → index_nodes indexed ns ≡ err e → e ≢ cycle
unfolding index_nodes
index_nodes_error indexed [] e h = absurd (ground arith)
index_nodes_error indexed (n ∷ ns) e h = ground (arith, index_nodes_error (put_node n indexed) ns e)

Before-same :
    (a b : Nodes) (seen order : List ℕ)
    → ((i : ℕ) → find i a ≡ find i b)
    → Before a seen order
    → Before b seen order
Before-same a b seen [] same h = tt
Before-same a b seen (t ∷ ts) same h = (rw (← same t) h.0, Before-same a b (t ∷ seen) ts same h.1)

complete_by_ids :
    (order : List ℕ) (ns : Nodes)
    → ((i : ℕ) → has_id i (ids ns) ≡ true → has_id i order ≡ true)
    → All (λ n. has_id n.id order ≡ true) ns
complete_by_ids order [] h = tt
complete_by_ids order (n ∷ ns) h = (
  h n.id (ground (arith, ==_iff n.id n.id)),
  complete_by_ids order ns (λ i k. h i (ground arith)),
)

-- An order of the one list of nodes is one of the other.
IsOrder-same :
    (a b : Nodes) (order : List ℕ)
    → ((i : ℕ) → find i b ≡ find i a)
    → IsOrder a order
    → IsOrder b order
IsOrder-same a b order same o = record {
  complete = complete_by_ids order b (λ i k.
      All-has order a i o.complete
        (sym (is_some-find i a) ∙ sym (ap is_some (same i)) ∙ is_some-find i b ∙ k));
  respects = Before-same a b [] order (λ i. sym (same i)) o.respects;
}

checked-IsGraph : (nodes : Nodes) → NoDup (ids nodes) → All (IsChecked nodes) nodes → IsGraph nodes
checked-IsGraph nodes u c = record {
  unique = u;
  once = All-map (λ n k. k.once) nodes c;
  known = All-map (λ n k. k.known) nodes c;
}

make-Validated :
    (given nodes : Nodes) {o : Option (Result (List ℕ) DagError)}
    → NoDup (ids nodes)
    → ((i : ℕ) → find i nodes ≡ find i given)
    → All (IsChecked nodes) nodes
    → Separated nodes (scopes_of nodes)
    → Sorted nodes o
    → Validated given (make nodes o)
make-Validated given nodes u same c p (sorted is_order size) = accepted (record {
  unique = u;
  same_nodes = same;
  checked = c;
  separated = p;
  order = is_order;
  as_long = size;
})
make-Validated given nodes u same c p (cyclic none_at_all) =
    no_order (λ order h. none_at_all order (IsOrder-same given nodes order same h))

module _ (given nodes : Nodes) (unique : NoDup (ids nodes))
    (same : (i : ℕ) → find i nodes ≡ find i given) where
  after_scopes :
      (c : Check)
      → All (IsChecked nodes) nodes
      → Returns nodes unique c
          (All (λ s. Unit {0}) (scopes_of nodes) × Separated nodes (scopes_of nodes))
      → Validated given (after_check nodes c)
  unfolding after_check
  after_scopes none checked r = absurd r
  after_scopes (some (some e)) checked r = refused r
  after_scopes (some none) checked r =
      make-Validated given nodes unique same checked r.1
        (sort-Sorted nodes (checked-IsGraph nodes unique checked))

  after_nodes :
      (o : Option DagError)
      → check_all (check_node nodes) nodes ≡ o
      → Validated given
          (after_check nodes (next (some o) (check_scopes nodes [] (scopes_of nodes))))
  unfolding after_check
  after_nodes none h =
      after_scopes (check_scopes nodes [] (scopes_of nodes))
        (All-map (check_node-IsChecked nodes) nodes (check_all-eq-none (check_node nodes) nodes h))
        (check_scopes-Returns nodes unique [] (scopes_of nodes))
  after_nodes (some e) h =
      refused (check_all_error (check_node nodes) nodes e (check_node_error nodes) h)

after_index-Validated :
    (given : Nodes) (o : Result Nodes DagError)
    → index_nodes [] given ≡ o
    → Validated given (after_index o)
unfolding after_index validate_nodes
after_index-Validated given (err e) h = refused (index_nodes_error [] given e h)
after_index-Validated given (ok nodes) h =
    let (unique, same) = index_nodes-NoDup given nodes h in
    after_nodes given nodes unique same (check_all (check_node nodes) nodes) refl

-- `validate` returns for every list of nodes. What it accepts is a plan: the identifiers are unique,
-- the nodes are those given, each has a scope, safe paths only, the executor as its owner and known
-- dependencies, once each, no two scopes overlap unless one task needs the other, and the order has
-- all the tasks, each after its dependencies, and no more entries than tasks. It returns the error for
-- a cycle only where no order of all the tasks has each after its dependencies.
pub validate-Validated : (nodes : Nodes) → Validated nodes (validate nodes)
unfolding validate
validate-Validated [] = refused (λ e. cc)
validate-Validated (n ∷ ns) = after_index-Validated (n ∷ ns) (index_nodes [] (n ∷ ns)) refl
