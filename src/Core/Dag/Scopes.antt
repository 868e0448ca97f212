-- ===== src/Core/Dag/Scopes.antt =====
-- crates/workflow-core/src/dag.rs: the write scopes of a plan, against one another.
use google_antigravity_cycle.Prelude.{
  ℕ, ◌≡◌, ◌≢◌, ◌⊎◌, ◌↔◌, inl, inr, Bool, Bool-cases, true, false, none, some, List, [], ◌∷◌, ◌++◌,
  All, arith, refl,
}
use google_antigravity_cycle.Core.Path.{overlaps}
use google_antigravity_cycle.Core.Dag.{
  Nodes, DagError, Check, Scope, dependency_ordered, next, check_pair, check_against, check_scopes,
}
use google_antigravity_cycle.Core.Dag.Reach.{NoDup, ids, Needs, depends_on_decides}

-- Two scopes that no two tasks write at the same time: they do not overlap, or one of the tasks needs
-- the other.
abbrev pub Clear : Nodes → Scope → Scope → Type 0
Clear nodes (task, scope) (other_task, other_scope) =
    (overlaps scope other_scope ≡ false) ⊎ Needs nodes task other_task ⊎ Needs nodes other_task task

-- Each scope is clear of those before it.
abbrev pub Separated : Nodes → List Scope → Type 0
Separated nodes [] = Unit {0}
Separated nodes (s ∷ ss) = All (λ t. Clear nodes t s) ss × Separated nodes ss

module _ (nodes : Nodes) (unique : NoDup (ids nodes)) where
  ordered_decides :
      (a b : ℕ)
      → (r : Bool) × (dependency_ordered nodes a b ≡ some r)
        × ((r ≡ true) ↔ (Needs nodes a b ⊎ Needs nodes b a))
  unfolding dependency_ordered
  ordered_decides a b =
      let (l, el, il) = depends_on_decides nodes unique a b in
      let (m, em, im) = depends_on_decides nodes unique b a in
      elim (Bool-cases l) [
        | inl y ↦ (true, ground arith, (λ _. inl (il.0 y), λ _. refl))
        | inr n ↦ (
          m,
          ground arith,
          (λ h. inr (im.0 h), λ o. elim o [ inl p ↦ absurd (cc (n, il.1 p)) | inr p ↦ im.1 p ]),
        )
      ]

  -- A check of scopes returns, and accepts only what it should.
  abbrev pub Returns : Check → Type 0 → Type 0
  Returns none P = ⊥
  Returns (some none) P = P
  Returns (some (some e)) P = e ≢ DagError.cycle

  next-Returns :
      (P Q : Type 0) (a b : Check) → Returns a P → Returns b Q → Returns (next a b) (P × Q)
  next-Returns P Q (some none) (some none) p q = (p, q)
  next-Returns P Q (some none) (some (some e)) p q = q
  next-Returns P Q (some (some e)) b p q = p
  next-Returns P Q none b p q = absurd p
  next-Returns P Q (some none) none p q = absurd q

  Returns-map : (P Q : Type 0) (a : Check) → (P → Q) → Returns a P → Returns a Q
  Returns-map P Q (some none) f p = f p
  Returns-map P Q (some (some e)) f p = p
  Returns-map P Q none f p = absurd p

  check_pair-Returns : (s o : Scope) → Returns (check_pair nodes s o) (Clear nodes s o)
  unfolding check_pair
  check_pair-Returns (task, scope) (other_task, other_scope) =
      let (r, e, i) = ordered_decides task other_task in
      elim (Bool-cases (overlaps scope other_scope)) [
        | inr apart ↦ rw apart (inl refl)
        | inl over ↦ elim (Bool-cases r) [
          | inl y ↦ rw (over, e, y) (inr (i.0 y))
          | inr n ↦ rw (over, e, n) (λ h. cc)
        ]
      ]

  check_against-Returns :
      (s : Scope) (os : List Scope)
      → Returns (check_against nodes s os) (All (λ o. Clear nodes s o) os)
  unfolding check_against
  check_against-Returns s [] = tt
  check_against-Returns s (o ∷ os) =
      next-Returns (Clear nodes s o) (All (λ o. Clear nodes s o) os) (check_pair nodes s o)
        (check_against nodes s os) (check_pair-Returns s o) (check_against-Returns s os)

  split :
      (s : Scope) (before ss : List Scope)
      → All (λ t. All (λ b. Clear nodes t b) (before ++ s ∷ [])) ss
      → All (λ t. All (λ b. Clear nodes t b) before) ss × All (λ t. Clear nodes t s) ss
  split s before [] h = (tt, tt)
  split s before (t ∷ ss) h =
      let (a, b) = split s before ss h.1 in ((left before h.0, a), (last before h.0, b))
    where
      left :
          (bs : List Scope)
          → All (λ b. Clear nodes t b) (bs ++ s ∷ [])
          → All (λ b. Clear nodes t b) bs
      left [] a = tt
      left (b ∷ bs) a = (a.0, left bs a.1)

      last : (bs : List Scope) → All (λ b. Clear nodes t b) (bs ++ s ∷ []) → Clear nodes t s
      last [] a = a.0
      last (b ∷ bs) a = last bs a.1

  pub check_scopes-Returns :
      (before ss : List Scope)
      → Returns
          (check_scopes nodes before ss)
          (All (λ s. All (λ b. Clear nodes s b) before) ss × Separated nodes ss)
  unfolding check_scopes
  check_scopes-Returns before [] = (tt, tt)
  check_scopes-Returns before (s ∷ ss) =
      let now = All (λ b. Clear nodes s b) before in
      let later =
        All (λ t. All (λ b. Clear nodes t b) (before ++ s ∷ [])) ss × Separated nodes ss in
      let goal = All (λ s. All (λ b. Clear nodes s b) before) (s ∷ ss) × Separated nodes (s ∷ ss) in
      Returns-map (now × later) goal
        (next (check_against nodes s before) (check_scopes nodes (before ++ s ∷ []) ss))
        (λ p. let (old, new) = split s before ss p.1.0 in ((p.0, old), (new, p.1.1)))
        (next-Returns now later (check_against nodes s before)
          (check_scopes nodes (before ++ s ∷ []) ss) (check_against-Returns s before)
          (check_scopes-Returns (before ++ s ∷ []) ss))
