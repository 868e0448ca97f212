-- ===== src/Core/Dag/Sorted.antt =====
-- crates/workflow-core/src/dag.rs: what `sort` returns.
use google_antigravity_cycle.Prelude.{
  ℕ, ◌<◌, ◌≡◌, ◌⊎◌, inl, inr, Bool-cases, true, false, Option, some, List, [], ◌∷◌, ◌==◌, ==_iff,
  length, All, Result, ok, err, arith, refl, ap, sym, ◌∙◌,
}
use google_antigravity_cycle.Prelude.Checks.{has_id}
use google_antigravity_cycle.Core.Dag.{
  Nodes, DagError, cycle, sort, all_placed, indegrees_of, zero_degrees,
}
use google_antigravity_cycle.Core.Dag.Reach.{ids, find_absent}
use google_antigravity_cycle.Core.Dag.Counts.{
  missing-nil, unplaced, indegrees-Ascending, get-indegrees_of, has-zero_degrees, no_dependencies,
}
use google_antigravity_cycle.Core.Dag.Kahn.{IsGraph, IsOrder, Inv, place_ends, all_of_order}

unplaced-nil : (nodes : Nodes) → unplaced [] nodes ≡ length nodes
unplaced-nil [] = refl
unplaced-nil (n ∷ ns) = omega (arith, unplaced-nil ns)

-- All the nodes are in the order, or one is not.
placed_cases :
    (order : List ℕ) (ns : Nodes)
    → All (λ n. has_id n.id order ≡ true) ns × (unplaced order ns ≡ 0)
      ⊎ ((i : ℕ) × (has_id i (ids ns) ≡ true) × (has_id i order ≡ false) × (0 < unplaced order ns))
placed_cases order [] = inl (tt, refl)
placed_cases order (n ∷ ns) = elim (Bool-cases (has_id n.id order)) [
  | inr new ↦ inr (n.id, ground (arith, ==_iff n.id n.id), new, ground arith)
  | inl old ↦ elim (placed_cases order ns) [
    | inl (a, z) ↦ inl ((old, a), ground arith)
    | inr (i, k, o, z) ↦ inr (i, ground arith, o, ground arith)
  ]
]

pub All-has :
    (order : List ℕ) (ns : Nodes) (i : ℕ)
    → All (λ n. has_id n.id order ≡ true) ns
    → has_id i (ids ns) ≡ true
    → has_id i order ≡ true
All-has order [] i a h = absurd (ground arith)
All-has order (n ∷ ns) i a h = elim (Bool-cases (n.id == i)) [
  | inl e ↦ rw (← (==_iff n.id i).0 e) a.0
  | inr o ↦ All-has order ns i a.1 (ground arith)
]

-- What `sort` may return: an order of all the tasks, as long as the list of the nodes, or the error
-- for a cycle where there is no such order.
pub data Sorted (nodes : Nodes) : Option (Result (List ℕ) DagError) → Type 0 where
  sorted :
      {order : List ℕ}
      → IsOrder nodes order
      → length order ≡ length nodes
      → Sorted nodes (some (ok order))
  cyclic : ((order : List ℕ) → ¬ IsOrder nodes order) → Sorted nodes (some (err cycle))

module _ (nodes : Nodes) (graph : IsGraph nodes) where
  Inv-start : Inv nodes graph (indegrees_of nodes) (zero_degrees (indegrees_of nodes)) []
  Inv-start = record {
    degree = λ j n f. get-indegrees_of j nodes f ∙ ap some (sym (missing-nil n.dependencies));
    front = λ j n f. ground (
      arith,
      has-zero_degrees j nodes graph.unique,
      missing-nil n.dependencies,
      ap no_dependencies f,
    );
    apart = λ j. ground arith;
    known = λ j h. elim (Bool-cases (has_id j (ids nodes))) [
      | inl y ↦ y
      | inr o ↦ absurd (
          ground (
            arith,
            has-zero_degrees j nodes graph.unique,
            ap no_dependencies (find_absent j nodes o),
          ))
    ];
    ascending = indegrees-Ascending nodes;
    counted = omega (arith, unplaced-nil nodes);
    respects = tt;
  }

  -- In a graph whose identifiers are unique, with dependencies that are in it and named once, `sort`
  -- returns: an order of all the tasks, each after its dependencies, or the error for a cycle, and then
  -- no such order exists.
  pub sort-Sorted : Sorted nodes (sort nodes)
  unfolding sort
  sort-Sorted =
      let (final, last, e, inv) =
        place_ends nodes graph (length nodes) (indegrees_of nodes)
          (zero_degrees (indegrees_of nodes)) [] (omega (arith, unplaced-nil nodes)) Inv-start in
      elim (placed_cases final nodes) [
        | inl (a, z) ↦
            let size : length final ≡ length nodes = omega (arith, inv.counted) in
            let test : (length final == length nodes) ≡ true = ground arith in
            rw (e, all_placed, test)
              (sorted (record { complete = a; respects = inv.respects }) size)
        | inr (i, k, o, z) ↦
            let test : (length final == length nodes) ≡ false = ground (arith, inv.counted) in
            rw (e, all_placed, test)
              (cyclic (λ order h. cc (
                o,
                all_of_order nodes graph last final [] order inv (λ x s. absurd (ground arith))
                    h.respects i (All-has order nodes i h.complete k) k,
              )))
      ]
