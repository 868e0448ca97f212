-- ===== src/Core/Dag/Reach.antt =====
-- crates/workflow-core/src/dag.rs: `depends_on` returns, and decides whether a task needs another.
use google_antigravity_cycle.Prelude.{
  ℕ, zero, suc, ◌+◌, ◌≤◌, ◌≡◌, ◌⊎◌, ◌↔◌, inl, inr, Bool, Bool-cases, true, false, ◌||◌, Option,
  none, some, List, [], ◌∷◌, ◌==◌, ==_iff, if◌then◌else◌, length, arith, refl, ap, sym, ◌∙◌,
}
use google_antigravity_cycle.Prelude.Checks.{has_id}
use google_antigravity_cycle.Core.Dag.{
  Nodes, find, dependencies_of, pushed, walk, total, depends_on,
}

-- No identifier stands twice.
abbrev pub NoDup : List ℕ → Type 0
NoDup [] = Unit {0}
NoDup (x ∷ xs) = (has_id x xs ≡ false) × NoDup xs

abbrev pub ids : Nodes → List ℕ
ids [] = []
ids (n ∷ ns) = n.id ∷ ids ns

abbrev pub needs : Nodes → ℕ → List ℕ
needs nodes i = dependencies_of (find i nodes)

-- The first task needs the second, directly or through others.
pub data Needs (nodes : Nodes) : ℕ → ℕ → Type 0 where
  direct : {a b : ℕ} → has_id b (needs nodes a) ≡ true → Needs nodes a b
  through : {a b c : ℕ} → has_id b (needs nodes a) ≡ true → Needs nodes b c → Needs nodes a c

Needs-snoc :
    (nodes : Nodes) {a b c : ℕ}
    → Needs nodes a b
    → has_id c (needs nodes b) ≡ true
    → Needs nodes a c
Needs-snoc nodes (direct h) k = through h (direct k)
Needs-snoc nodes (through h n) k = through h (Needs-snoc nodes n k)

-- The dependencies that are still to be pushed.
abbrev work : List ℕ → Nodes → ℕ
work visited [] = 0
work visited (n ∷ ns) = (if has_id n.id visited then 0 else length n.dependencies) + work visited ns

work-nil : (nodes : Nodes) → work [] nodes ≡ total nodes
work-nil [] = refl
work-nil (n ∷ ns) = omega (arith, work-nil ns)

work_absent :
    (c : ℕ) (visited : List ℕ) (nodes : Nodes)
    → has_id c (ids nodes) ≡ false
    → work (c ∷ visited) nodes ≡ work visited nodes
work_absent c visited [] h = refl
work_absent c visited (n ∷ ns) h = ground (arith, work_absent c visited ns)

pub find_absent : (c : ℕ) (nodes : Nodes) → has_id c (ids nodes) ≡ false → find c nodes ≡ none
unfolding find
find_absent c [] h = refl
find_absent c (n ∷ ns) h = ground (arith, find_absent c ns)

work-visit :
    (c : ℕ) (visited : List ℕ) (nodes : Nodes)
    → NoDup (ids nodes)
    → has_id c visited ≡ false
    → work (c ∷ visited) nodes + length (needs nodes c) ≡ work visited nodes
unfolding find
work-visit c visited [] u h = refl
work-visit c visited (n ∷ ns) u h =
    ground (arith, work-visit c visited ns, work_absent c visited ns, find_absent c ns)

-- What pushing does: the target is among the dependencies, or all of them are on the stack.
pushed_cases :
    (target : ℕ) (ds pending : List ℕ)
    → ((pushed target ds pending ≡ none) × (has_id target ds ≡ true))
      ⊎ ((p : List ℕ) × (pushed target ds pending ≡ some p)
          × (has_id target ds ≡ false)
          × (length p ≡ length ds + length pending)
          × ((x : ℕ) → has_id x p ≡ (has_id x ds || has_id x pending)))
unfolding pushed
pushed_cases target [] pending = inr (pending, refl, refl, omega arith, λ x. refl)
pushed_cases target (d ∷ ds) pending = elim (Bool-cases (d == target)) [
  | inl hit ↦ inl (ground arith, ground arith)
  | inr miss ↦ elim (pushed_cases target ds (d ∷ pending)) [
    | inl (e, h) ↦ inl (ground arith, ground arith)
    | inr (p, e, h, size, on) ↦
        inr (p, ground arith, ground arith, ground arith, λ x. ground (arith, on x))
  ]
]

module _ (nodes : Nodes) (unique : NoDup (ids nodes)) (task target : ℕ) where
  -- The stack and the visited tasks: all are the task or needed by it, none visited needs the target
  -- directly, and what a visited task needs is visited or waits.
  record Inv (pending visited : List ℕ) : Type 0 where
    waits : (x : ℕ) → has_id x pending ≡ true → (x ≡ task) ⊎ Needs nodes task x
    begun : (has_id task pending || has_id task visited) ≡ true
    closed :
        (x y : ℕ)
        → has_id x visited ≡ true
        → has_id y (needs nodes x) ≡ true
        → (has_id y pending || has_id y visited) ≡ true
    missed : (x : ℕ) → has_id x visited ≡ true → has_id target (needs nodes x) ≡ false

  unreached :
      (visited : List ℕ)
      → Inv [] visited
      → (x : ℕ) → has_id x visited ≡ true
      → ¬ Needs nodes x target
  unreached visited inv x v (direct h) = cc (inv.missed x v)
  unreached visited inv x v (through {b} h n) = unreached visited inv b (inv.closed x b v h) n

  again :
      (c : ℕ) (cs visited : List ℕ)
      → has_id c visited ≡ true
      → Inv (c ∷ cs) visited
      → Inv cs visited
  again c cs visited seen inv = record {
    waits = λ x h. inv.waits x (ground arith);
    begun = ground (arith, inv.begun);
    closed = λ x y v h. ground (arith, inv.closed x y v h);
    missed = inv.missed;
  }

  visit :
      (c : ℕ) (cs visited p : List ℕ)
      → Inv (c ∷ cs) visited
      → has_id target (needs nodes c) ≡ false
      → ((x : ℕ) → has_id x p ≡ (has_id x (needs nodes c) || has_id x cs))
      → Inv p (c ∷ visited)
  visit c cs visited p inv miss on = record {
    waits = λ x h. elim (Bool-cases (has_id x cs)) [
      | inl old ↦ inv.waits x (ground arith)
      | inr new ↦ elim (inv.waits c (ground arith)) [
        | inl e ↦ inr (direct (rw (← e) (ground (arith, on x))))
        | inr n ↦ inr (Needs-snoc nodes n (ground (arith, on x)))
      ]
    ];
    begun = ground (arith, inv.begun, on task);
    closed = λ x y v h. elim (Bool-cases (c == x)) [
      | inl e ↦ ground (arith, on y, ap (λ t. has_id y (needs nodes t)) ((==_iff c x).0 e))
      | inr other ↦ ground (arith, on y, inv.closed x y)
    ];
    missed = λ x v. elim (Bool-cases (c == x)) [
      | inl e ↦ ap (λ t. has_id target (needs nodes t)) (sym ((==_iff c x).0 e)) ∙ miss
      | inr other ↦ inv.missed x (ground arith)
    ];
  }

  abbrev Decided : Option Bool → Type 0
  Decided o = (b : Bool) × (o ≡ some b) × ((b ≡ true) ↔ Needs nodes task target)

  -- With fuel for the stack and the dependencies that are still to be pushed, the walk decides.
  walk-Decided :
      (fuel : ℕ) (pending visited : List ℕ)
      → length pending + work visited nodes ≤ fuel
      → Inv pending visited
      → Decided (walk fuel nodes target pending visited)
  unfolding walk
  walk-Decided fuel [] visited enough inv = (
    false,
    refl,
    (
      λ h. absurd (ground arith),
      λ n. elim (Bool-cases (has_id task visited)) [
        | inl v ↦ absurd (unreached visited inv task v n)
        | inr v ↦ absurd (ground (arith, inv.begun))
      ],
    ),
  )
  walk-Decided zero (c ∷ cs) visited enough inv = absurd (omega arith)
  walk-Decided (suc fuel) (c ∷ cs) visited enough inv = elim (Bool-cases (has_id c visited)) [
    | inl seen ↦
        rw (seen, walk) (walk-Decided fuel cs visited (omega arith) (again c cs visited seen inv))
    | inr new ↦ elim (pushed_cases target (needs nodes c) cs) [
      | inl (e, hit) ↦
          rw (new, walk, e) (true, refl, (λ _. found c (inv.waits c (ground arith)) hit, λ _. refl))
      | inr (p, e, miss, size, on) ↦
          rw (new, walk, e)
            (walk-Decided fuel p (c ∷ visited)
              (omega (arith, size, work-visit c visited nodes unique new))
              (visit c cs visited p inv miss on))
    ]
  ]
    where
      found :
          (c : ℕ)
          → (c ≡ task) ⊎ Needs nodes task c
          → has_id target (needs nodes c) ≡ true
          → Needs nodes task target
      found c (inl e) hit = direct (rw (← e) hit)
      found c (inr n) hit = Needs-snoc nodes n hit

  -- In a graph with no identifier twice `depends_on` returns, with `true` exactly if the task needs
  -- the target, directly or through others.
  pub depends_on_decides :
      (b : Bool) × (depends_on nodes task target ≡ some b) × ((b ≡ true) ↔ Needs nodes task target)
  unfolding depends_on
  depends_on_decides =
      walk-Decided (suc (total nodes)) (task ∷ []) [] (omega (arith, work-nil nodes)) (record {
        waits = λ x h. inl (ground (arith, ==_iff task x));
        begun = ground arith;
        closed = λ x y v h. absurd (ground arith);
        missed = λ x v. absurd (ground arith);
      })
