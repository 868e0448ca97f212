-- ===== src/Core/Dag/Kahn.antt =====
-- crates/workflow-core/src/dag.rs: `sort` returns, with an order of the tasks or where there is none.
use google_antigravity_cycle.Prelude.{
  ℕ, zero, suc, ◌+◌, ◌≤◌, ◌≡◌, inl, inr, Bool-cases, true, false, ◌&&◌, ◌||◌, some, List, [], ◌∷◌,
  ◌++◌, ◌==◌, ==_iff, length, length-append, All, All-map, arith, refl, ap, sym, ◌∙◌,
}
use google_antigravity_cycle.Prelude.Checks.{has_id}
use google_antigravity_cycle.Prelude.Maps.{get, nat_equality}
use google_antigravity_cycle.Core.Dag.{
  TaskNode, Nodes, Degrees, find, or_nil, dependencies_of, release, place, dependents_from,
}
use google_antigravity_cycle.Core.Dag.Reach.{NoDup, ids, needs, find_absent}
use google_antigravity_cycle.Core.Dag.Counts.{
  has-snoc, missing, missing-snoc, none_missing, all_missing, unplaced, unplaced-snoc, Ascending,
  below_absent, Releases, release-Releases, dependents, get-dependents, has-dependents,
  dependents-NoDup,
}

-- What the checks before `sort` have shown of the nodes.
pub record IsGraph (nodes : Nodes) : Type 0 where
  pub unique : NoDup (ids nodes)
  pub once : All (λ n. NoDup n.dependencies) nodes
  pub known : All (λ n. All (λ d. has_id d (ids nodes) ≡ true) n.dependencies) nodes

-- Each task of the list comes after all that it needs; `seen` are those before.
abbrev pub Before : Nodes → List ℕ → List ℕ → Type 0
Before nodes seen [] = Unit {0}
Before nodes seen (t ∷ ts) =
    All (λ d. has_id d seen ≡ true) (needs nodes t) × Before nodes (t ∷ seen) ts

-- An order of all the tasks in which each comes after its dependencies.
pub record IsOrder (nodes : Nodes) (order : List ℕ) : Type 0 where
  pub complete : All (λ n. has_id n.id order ≡ true) nodes
  pub respects : Before nodes [] order

Before-snoc :
    (nodes : Nodes) (seen ts : List ℕ) (t : ℕ)
    → Before nodes seen ts
    → All (λ d. (has_id d seen || has_id d ts) ≡ true) (needs nodes t)
    → Before nodes seen (ts ++ t ∷ [])
Before-snoc nodes seen [] t b h = (All-map (λ d k. ground arith) (needs nodes t) h, tt)
Before-snoc nodes seen (x ∷ ts) t b h =
    (b.0, Before-snoc nodes (x ∷ seen) ts t b.1 (All-map (λ d k. ground arith) (needs nodes t) h))

pub All-find :
    (P : TaskNode → Type 0) (nodes : Nodes) (j : ℕ) {n : TaskNode}
    → All P nodes
    → find j nodes ≡ some n
    → P n
unfolding find
All-find P [] j a h = absurd (ground arith)
All-find P (m ∷ ms) j {n} a h = elim (Bool-cases (m.id == j)) [
  | inl e ↦ let same : m ≡ n = ground arith in rw (← same) a.0
  | inr e ↦ All-find P ms j a.1 (ground arith)
]

pub found :
    (nodes : Nodes) (j : ℕ) → has_id j (ids nodes) ≡ true → (n : TaskNode) × (find j nodes ≡ some n)
unfolding find
found [] j h = absurd (ground arith)
found (m ∷ ms) j h = elim (Bool-cases (m.id == j)) [
  | inl e ↦ (m, ground arith)
  | inr e ↦ let (n, f) = found ms j (ground arith) in (n, ground arith)
]

is_known : (nodes : Nodes) (t j : ℕ) → has_id t (needs nodes j) ≡ true → has_id j (ids nodes) ≡ true
is_known nodes t j h = elim (Bool-cases (has_id j (ids nodes))) [
  | inl y ↦ y
  | inr n ↦ absurd (ground (arith, ap (λ o. has_id t (dependencies_of o)) (find_absent j nodes n)))
]

module _ (nodes : Nodes) (graph : IsGraph nodes) where
  pub record Inv (degrees : Degrees) (ready order : List ℕ) : Type 0 where
    pub degree :
        (j : ℕ) (n : TaskNode)
        → find j nodes ≡ some n
        → get j degrees ≡ some (missing order n.dependencies)
    pub front :
        (j : ℕ) (n : TaskNode)
        → find j nodes ≡ some n
        → (has_id j ready || has_id j order) ≡ missing order n.dependencies == 0
    pub apart : (j : ℕ) → (has_id j ready && has_id j order) ≡ false
    pub known : (j : ℕ) → (has_id j ready || has_id j order) ≡ true → has_id j (ids nodes) ≡ true
    pub ascending : Ascending ready
    pub counted : length order + unplaced order nodes ≡ length nodes
    pub respects : Before nodes [] order

  step :
      (t : ℕ) (degrees : Degrees) (ready order : List ℕ) (degrees' : Degrees) (ready' : List ℕ)
      → Inv degrees (t ∷ ready) order
      → Releases (dependents t nodes) degrees ready degrees' ready'
      → Inv degrees' ready' (order ++ t ∷ [])
  step t degrees ready order degrees' ready' inv r =
      let fresh : has_id t order ≡ false = ground (arith, inv.apart t, ==_iff t t) in
      let (n_t, f_t) = found nodes t (ground (arith, inv.known t)) in
      let dep = λ (j : ℕ) (n : TaskNode) (f : find j nodes ≡ some n).
        has-dependents t j nodes graph.unique ∙ ap (λ o. has_id t (dependencies_of o)) f in
      let less = λ (j : ℕ) (n : TaskNode) (f : find j nodes ≡ some n).
        missing-snoc t order n.dependencies
          (All-find (λ n. NoDup n.dependencies) nodes j graph.once f) fresh in
      record {
        degree = λ j n f. ground (
          arith,
          dep j n f,
          less j n f,
          r.lowered j (missing order n.dependencies) (inv.degree j n f),
        );
        front = λ j n f. ground (
          arith,
          dep j n f,
          less j n f,
          r.readied j (missing order n.dependencies) (inv.degree j n f),
          inv.front j n f,
          has-snoc j t order,
        );
        apart = λ j. elim (Bool-cases (has_id j (dependents t nodes))) [
          | inl y ↦
              let (n, f) =
                found nodes j
                  (is_known nodes t j (sym (has-dependents t j nodes graph.unique) ∙ y)) in
              ground (arith, dep j n f, less j n f, inv.front j n f, has-snoc j t order)
          | inr free ↦ ground (
            arith,
            r.unknown j free,
            inv.apart j,
            has-snoc j t order,
            below_absent t ready inv.ascending.0,
            λ (e : t ≡ j). ap (λ x. has_id x ready) e,
            ==_iff t j,
          )
        ];
        known = λ j h. elim (Bool-cases (has_id j (dependents t nodes))) [
          | inl y ↦ is_known nodes t j (sym (has-dependents t j nodes graph.unique) ∙ y)
          | inr free ↦ ground (arith, r.unknown j free, inv.known j, has-snoc j t order)
        ];
        ascending = r.ascending;
        counted = ground (
          arith,
          unplaced-snoc t order nodes graph.unique fresh,
          inv.known t,
          inv.counted,
          length-append order (t ∷ []),
        );
        respects =
            Before-snoc nodes [] order t inv.respects
              (rw f_t (none_missing order n_t.dependencies (ground (arith, inv.front t n_t f_t))));
      }

  place_step :
      (fuel t : ℕ) (degrees : Degrees) (ready order : List ℕ)
      → Inv degrees (t ∷ ready) order
      → (degrees' : Degrees) × (ready' : List ℕ) × (release
            (or_nil (get t (dependents_from [] nodes)))
            degrees
            ready
          ≡ some (degrees', ready'))
        × Inv degrees' ready' (order ++ t ∷ [])
  place_step fuel t degrees ready order inv =
      let fresh : has_id t order ≡ false = ground (arith, inv.apart t, ==_iff t t) in
      let (degrees', ready', e, r) =
        release-Releases (dependents t nodes) degrees ready (dependents-NoDup t nodes graph.unique)
          inv.ascending.1
          (λ j h.
            let y = sym (has-dependents t j nodes graph.unique) ∙ h in
            let (n, f) = found nodes j (is_known nodes t j y) in
            let less =
              missing-snoc t order n.dependencies
                (All-find (λ n. NoDup n.dependencies) nodes j graph.once f) fresh in
            let hit : has_id t n.dependencies ≡ true =
              sym (ap (λ o. has_id t (dependencies_of o)) f) ∙ y in
            (
              missing (order ++ t ∷ []) n.dependencies,
              inv.degree j n f ∙ ap some (ground arith),
            )) in
      (
        degrees',
        ready',
        rw (get-dependents t nodes graph.once) e,
        step t degrees ready order degrees' ready' inv r,
      )

  -- With fuel for the nodes that are not placed the loop ends, with nothing ready.
  pub place_ends :
      (fuel : ℕ) (degrees : Degrees) (ready order : List ℕ)
      → unplaced order nodes ≤ fuel
      → Inv degrees ready order
      → (final : List ℕ) × (last : Degrees) × (place fuel
            (dependents_from [] nodes)
            degrees
            ready
            order
          ≡ some final)
        × Inv last [] final
  unfolding place
  place_ends fuel degrees [] order enough inv = (order, degrees, refl, inv)
  place_ends zero degrees (t ∷ ready) order enough inv = absurd (
      ground
        (arith, unplaced-snoc t order nodes graph.unique, inv.known t, inv.apart t, ==_iff t t))
  place_ends (suc fuel) degrees (t ∷ ready) order enough inv =
      let (degrees', ready', e, inv') = place_step fuel t degrees ready order inv in
      rw (e, place)
        (place_ends fuel degrees' ready' (order ++ t ∷ [])
          (ground
            (arith, unplaced-snoc t order nodes graph.unique, inv.known t, inv.apart t, ==_iff t t))
          inv')

  -- Where nothing is ready, an order of all the tasks has only placed ones, from its start on.
  pub all_of_order :
      (degrees : Degrees) (final seen order : List ℕ)
      → Inv degrees [] final
      → ((x : ℕ) → has_id x seen ≡ true → has_id x (ids nodes) ≡ true → has_id x final ≡ true)
      → Before nodes seen order
      → (x : ℕ) → has_id x order ≡ true
      → has_id x (ids nodes) ≡ true
      → has_id x final ≡ true
  all_of_order degrees final seen [] inv placed b x h k = absurd (ground arith)
  all_of_order degrees final seen (t ∷ ts) inv placed b x h k =
      let now : has_id t (ids nodes) ≡ true → has_id t final ≡ true = λ kt.
        let (n, f) = found nodes t kt in
        let deps = rw (f) at b.0 in
        let known =
          All-find (λ n. All (λ d. has_id d (ids nodes) ≡ true) n.dependencies) nodes t graph.known
            f in
        let gone = all_missing final n.dependencies (both n.dependencies deps known) in
        ground (arith, inv.front t n f) in
      elim (Bool-cases (t == x)) [
        | inl e ↦ let same = (==_iff t x).0 e in rw (← same) (now (rw same k))
        | inr other ↦
            all_of_order degrees final (t ∷ seen) ts inv
              (λ y s ky. elim (Bool-cases (t == y)) [
                | inl e ↦ let same = (==_iff t y).0 e in rw (← same) (now (rw same ky))
                | inr new ↦ placed y (ground arith) ky
              ])
              b.1 x (ground arith) k
      ]
    where
      both :
          (ds : List ℕ)
          → All (λ d. has_id d seen ≡ true) ds
          → All (λ d. has_id d (ids nodes) ≡ true) ds
          → All (λ d. has_id d final ≡ true) ds
      both [] a c = tt
      both (d ∷ ds) a c = (placed d a.0 c.0, both ds a.1 c.1)
