-- ===== src/Core/Dag/Counts.antt =====
-- crates/workflow-core/src/dag.rs: the counts and the tables of `sort`.
use google_antigravity_cycle.Prelude.{
  ℕ, zero, suc, ◌+◌, ◌-◌, ◌<◌, ◌≡◌, inl, inr, Bool, Bool-cases, true, false, ◌&&◌, ◌||◌, Option,
  none, some, List, [], ◌∷◌, ◌++◌, ◌==◌, ==_iff, if◌then◌else◌, length, All, arith, refl, ap, sym,
}
use mathlib.Core.List.{append_assoc, append-nil}
use google_antigravity_cycle.Prelude.Checks.{has_id}
use google_antigravity_cycle.Prelude.Maps.{get, insert, nat_equality, nat_beq, get-insert}
use google_antigravity_cycle.Core.Dag.{
  TaskNode, Nodes, Degrees, find, set_insert, zero_degrees, release, indegrees_of, add_dependent,
  dependents_from, or_nil,
}
use google_antigravity_cycle.Core.Dag.Reach.{NoDup, ids, needs}

-- The map law, with the test on numbers.
get-put {ℓ} :
    {V : Type ℓ} (k j : ℕ) (v : V) (m : List (ℕ × V))
    → get j (insert k v m) ≡ (if k == j then some v else get j m)
unfolding nat_beq
get-put k j v m = get-insert k j v m

pub has-snoc : (x t : ℕ) (xs : List ℕ) → has_id x (xs ++ t ∷ []) ≡ (has_id x xs || (t == x))
has-snoc x t [] = ground arith
has-snoc x t (y ∷ ys) = ground (arith, has-snoc x t ys)

-- How many of the dependencies are not in the order yet.
abbrev pub missing : List ℕ → List ℕ → ℕ
missing order [] = 0
missing order (d ∷ ds) = (if has_id d order then 0 else 1) + missing order ds

pub missing-nil : (ds : List ℕ) → missing [] ds ≡ length ds
missing-nil [] = refl
missing-nil (d ∷ ds) = omega (arith, missing-nil ds)

missing_other :
    (t : ℕ) (order ds : List ℕ)
    → has_id t ds ≡ false
    → missing (order ++ t ∷ []) ds ≡ missing order ds
missing_other t order [] h = refl
missing_other t order (d ∷ ds) h = ground (arith, has-snoc d t order, missing_other t order ds)

pub missing-snoc :
    (t : ℕ) (order ds : List ℕ)
    → NoDup ds
    → has_id t order ≡ false
    → missing (order ++ t ∷ []) ds + (if has_id t ds then 1 else 0) ≡ missing order ds
missing-snoc t order [] u h = refl
missing-snoc t order (d ∷ ds) u h =
    ground
      (arith, has-snoc d t order, missing_other t order ds, missing-snoc t order ds, ==_iff d t)

pub none_missing : (order ds : List ℕ) → missing order ds ≡ 0 → All (λ d. has_id d order ≡ true) ds
none_missing order [] h = tt
none_missing order (d ∷ ds) h = (ground arith, none_missing order ds (ground arith))

pub all_missing : (order ds : List ℕ) → All (λ d. has_id d order ≡ true) ds → missing order ds ≡ 0
all_missing order [] h = refl
all_missing order (d ∷ ds) h = ground (arith, all_missing order ds h.1)

-- How many nodes are not in the order yet.
abbrev pub unplaced : List ℕ → Nodes → ℕ
unplaced order [] = 0
unplaced order (n ∷ ns) = (if has_id n.id order then 0 else 1) + unplaced order ns

unplaced_other :
    (t : ℕ) (order : List ℕ) (ns : Nodes)
    → has_id t (ids ns) ≡ false
    → unplaced (order ++ t ∷ []) ns ≡ unplaced order ns
unplaced_other t order [] h = refl
unplaced_other t order (n ∷ ns) h = ground (arith, has-snoc n.id t order, unplaced_other t order ns)

pub unplaced-snoc :
    (t : ℕ) (order : List ℕ) (ns : Nodes)
    → NoDup (ids ns)
    → has_id t order ≡ false
    → unplaced (order ++ t ∷ []) ns + (if has_id t (ids ns) then 1 else 0) ≡ unplaced order ns
unplaced-snoc t order [] u h = refl
unplaced-snoc t order (n ∷ ns) u h = ground (
  arith,
  has-snoc n.id t order,
  unplaced_other t order ns,
  unplaced-snoc t order ns,
  ==_iff n.id t,
)

-- Each element is below those after it.
abbrev pub Ascending : List ℕ → Type 0
Ascending [] = Unit {0}
Ascending (x ∷ xs) = All (λ y. x < y) xs × Ascending xs

below : (x y : ℕ) (ys : List ℕ) → x < y → All (λ z. y < z) ys → All (λ z. x < z) ys
below x y [] h a = tt
below x y (z ∷ ys) h a = (omega arith, below x y ys h a.1)

pub below_absent : (x : ℕ) (ys : List ℕ) → All (λ z. x < z) ys → has_id x ys ≡ false
below_absent x [] a = refl
below_absent x (y ∷ ys) a = ground (arith, below_absent x ys a.1)

set_insert_below :
    (b x : ℕ) (ys : List ℕ) → b < x → All (λ z. b < z) ys → All (λ z. b < z) (set_insert x ys)
unfolding set_insert
set_insert_below b x [] h a = (h, tt)
set_insert_below b x (y ∷ ys) h a = ground (arith, set_insert_below b x ys)

pub set_insert-Ascending : (x : ℕ) (ys : List ℕ) → Ascending ys → Ascending (set_insert x ys)
unfolding set_insert
set_insert-Ascending x [] a = (tt, tt)
set_insert-Ascending x (y ∷ ys) a =
    ground (arith, set_insert-Ascending x ys, set_insert_below y x ys, below x y ys)

pub has-set_insert : (b x : ℕ) (ys : List ℕ) → has_id b (set_insert x ys) ≡ (x == b || has_id b ys)
unfolding set_insert
has-set_insert b x [] = refl
has-set_insert b x (y ∷ ys) = ground (arith, has-set_insert b x ys)

-- A degree that is zero.
abbrev pub is_zero : Option ℕ → Bool
is_zero none = false
is_zero (some zero) = true
is_zero (some (suc n)) = false

zero_degrees-Ascending : (m : Degrees) → Ascending (zero_degrees m)
unfolding zero_degrees
zero_degrees-Ascending [] = tt
zero_degrees-Ascending ((id, degree) ∷ m) =
    ground (arith, zero_degrees-Ascending m, set_insert-Ascending id (zero_degrees m))

pub indegrees-Ascending : (ns : Nodes) → Ascending (zero_degrees (indegrees_of ns))
indegrees-Ascending ns = zero_degrees-Ascending (indegrees_of ns)

pub get-indegrees_of :
    (i : ℕ) (ns : Nodes) {n : TaskNode}
    → find i ns ≡ some n
    → get i (indegrees_of ns) ≡ some (length n.dependencies)
unfolding find indegrees_of get nat_beq
get-indegrees_of i [] {n} h = absurd (ground arith)
get-indegrees_of i (m ∷ ms) {n} h = ground (arith, get-indegrees_of i ms {n = n})

has-zero_absent :
    (i : ℕ) (ns : Nodes)
    → has_id i (ids ns) ≡ false
    → has_id i (zero_degrees (indegrees_of ns)) ≡ false
unfolding indegrees_of zero_degrees
has-zero_absent i [] h = refl
has-zero_absent i (n ∷ ns) h =
    ground (arith, has-zero_absent i ns, has-set_insert i n.id (zero_degrees (indegrees_of ns)))

abbrev pub no_dependencies : Option TaskNode → Bool
no_dependencies none = false
no_dependencies (some n) = length n.dependencies == 0

-- The tasks that are ready at first: those with no dependencies.
pub has-zero_degrees :
    (i : ℕ) (ns : Nodes)
    → NoDup (ids ns)
    → has_id i (zero_degrees (indegrees_of ns)) ≡ no_dependencies (find i ns)
unfolding find indegrees_of zero_degrees
has-zero_degrees i [] u = refl
has-zero_degrees i (n ∷ ns) u = ground (
  arith,
  has-zero_degrees i ns,
  has-set_insert i n.id (zero_degrees (indegrees_of ns)),
  has-zero_absent i ns,
  ==_iff n.id i,
)

-- `release` lowers the degree of each dependent by one, and adds to the ready tasks those of them
-- that come to zero.
pub record Releases (ds : List ℕ) (degrees : Degrees) (ready : List ℕ) (degrees' : Degrees)
    (ready' : List ℕ) : Type 0 where
  pub lowered :
      (j k : ℕ) → get j degrees ≡ some k → get j degrees' ≡ some (if has_id j ds then k - 1 else k)
  pub readied :
      (j k : ℕ)
      → get j degrees ≡ some k
      → has_id j ready' ≡ (has_id j ready || (has_id j ds && k == 1))
  pub unknown : (j : ℕ) → has_id j ds ≡ false → has_id j ready' ≡ has_id j ready
  pub ascending : Ascending ready'

Releases-cons :
    (d degree : ℕ) (ds : List ℕ) (degrees : Degrees) (ready : List ℕ) (degrees' : Degrees)
    (ready' : List ℕ)
    → get d degrees ≡ some (suc degree)
    → has_id d ds ≡ false
    → Releases ds
        (insert d degree degrees)
        (if degree == 0 then set_insert d ready else ready)
        degrees'
        ready'
    → Releases (d ∷ ds) degrees ready degrees' ready'
Releases-cons d degree ds degrees ready degrees' ready' g new r =
    let ready1 = if degree == 0 then set_insert d ready else ready in
    let has1 : (j : ℕ) → has_id j ready1 ≡ (has_id j ready || (d == j && degree == 0)) =
      λ j. ground (arith, has-set_insert j d ready) in
    let known : (j k : ℕ) → (d == j) ≡ true → get j degrees ≡ some k → k ≡ suc degree =
      λ j k e gj. cc (g, gj, ap (λ t. get t degrees) ((==_iff d j).0 e)) in
    record {
      lowered = λ j k gj. elim (Bool-cases (d == j)) [
        | inl e ↦ ground (
          arith,
          known j k e gj,
          get-put d j degree degrees,
          r.lowered j degree,
          ap (λ t. has_id t ds) ((==_iff d j).0 e),
        )
        | inr e ↦ ground (arith, get-put d j degree degrees, r.lowered j k)
      ];
      readied = λ j k gj. elim (Bool-cases (d == j)) [
        | inl e ↦ ground (
          arith,
          known j k e gj,
          get-put d j degree degrees,
          r.readied j degree,
          has1 j,
          ap (λ t. has_id t ds) ((==_iff d j).0 e),
        )
        | inr e ↦ ground (arith, get-put d j degree degrees, r.readied j k, has1 j)
      ];
      unknown = λ j h. ground (arith, r.unknown j, has1 j);
      ascending = r.ascending;
    }

pub release-Releases :
    (ds : List ℕ) (degrees : Degrees) (ready : List ℕ)
    → NoDup ds
    → Ascending ready
    → ((j : ℕ) → has_id j ds ≡ true → (k : ℕ) × (get j degrees ≡ some (suc k)))
    → (degrees' : Degrees) × (ready' : List ℕ) × (release ds degrees ready
        ≡ some (degrees', ready'))
      × Releases ds degrees ready degrees' ready'
unfolding release
release-Releases [] degrees ready u a known = (
  degrees,
  ready,
  refl,
  record {
    lowered = λ j k g. g;
    readied = λ j k g. ground arith;
    unknown = λ j h. refl;
    ascending = a;
  },
)
release-Releases (d ∷ ds) degrees ready u a known =
    let (degree, g) = known d (ground arith) in
    let (degrees', ready', e, r) =
      release-Releases ds (insert d degree degrees)
        (if degree == 0 then set_insert d ready else ready) u.1
        (ground (arith, set_insert-Ascending d ready))
        (λ j h.
          let (k, gk) = known j (ground arith) in
          (k, ground (arith, get-put d j degree degrees, ==_iff d j, ap (λ t. has_id t ds)))) in
    (
      degrees',
      ready',
      rw (g, release) e,
      Releases-cons d degree ds degrees ready degrees' ready' g u.0 r,
    )

-- Which tasks stand under a dependency in the table: those that name it, each once.
pub dependents : ℕ → Nodes → List ℕ
dependents t [] = []
dependents t (n ∷ ns) =
    let rest = dependents t ns in if has_id t n.dependencies then n.id ∷ rest else rest

add_dependent_lem :
    (t id : ℕ) (ds : List ℕ) (m : List (ℕ × List ℕ))
    → NoDup ds
    → or_nil (get t (add_dependent id ds m))
      ≡ (if has_id t ds then or_nil (get t m) ++ id ∷ [] else or_nil (get t m))
unfolding add_dependent
add_dependent_lem t id [] m u = refl
add_dependent_lem t id (d ∷ ds) m u = elim (Bool-cases (d == t)) [
  | inl e ↦ ground (
    arith,
    add_dependent_lem t id ds (insert d (or_nil (get d m) ++ id ∷ []) m),
    get-put d t (or_nil (get d m) ++ id ∷ []) m,
    ap (λ x. has_id x ds) ((==_iff d t).0 e),
    ap (λ x. or_nil (get x m)) ((==_iff d t).0 e),
  )
  | inr e ↦ ground (
    arith,
    add_dependent_lem t id ds (insert d (or_nil (get d m) ++ id ∷ []) m),
    get-put d t (or_nil (get d m) ++ id ∷ []) m,
  )
]

dependents_from_lem :
    (t : ℕ) (ns : Nodes) (m : List (ℕ × List ℕ))
    → All (λ n. NoDup n.dependencies) ns
    → or_nil (get t (dependents_from m ns)) ≡ or_nil (get t m) ++ dependents t ns
unfolding dependents_from dependents
dependents_from_lem t [] m u = sym (append-nil (or_nil (get t m)))
dependents_from_lem t (n ∷ ns) m u =
    let ih = dependents_from_lem t ns (add_dependent n.id n.dependencies m) u.1 in
    let one = add_dependent_lem t n.id n.dependencies m u.0 in
    elim (Bool-cases (has_id t n.dependencies)) [
      | inl e ↦
          ground (arith, ih, one, append_assoc (or_nil (get t m)) (n.id ∷ []) (dependents t ns))
      | inr e ↦ ground (arith, ih, one)
    ]

pub get-dependents :
    (t : ℕ) (ns : Nodes)
    → All (λ n. NoDup n.dependencies) ns
    → or_nil (get t (dependents_from [] ns)) ≡ dependents t ns
unfolding get
get-dependents t ns u = dependents_from_lem t ns [] u

dependents_absent :
    (t j : ℕ) (ns : Nodes) → has_id j (ids ns) ≡ false → has_id j (dependents t ns) ≡ false
unfolding dependents
dependents_absent t j [] h = refl
dependents_absent t j (n ∷ ns) h = ground (arith, dependents_absent t j ns)

pub has-dependents :
    (t j : ℕ) (ns : Nodes) → NoDup (ids ns) → has_id j (dependents t ns) ≡ has_id t (needs ns j)
unfolding dependents find
has-dependents t j [] u = refl
has-dependents t j (n ∷ ns) u =
    ground (arith, has-dependents t j ns, dependents_absent t j ns, ==_iff n.id j)

pub dependents-NoDup : (t : ℕ) (ns : Nodes) → NoDup (ids ns) → NoDup (dependents t ns)
unfolding dependents
dependents-NoDup t [] u = tt
dependents-NoDup t (n ∷ ns) u =
    ground (arith, dependents-NoDup t ns u.1, dependents_absent t n.id ns u.0)
