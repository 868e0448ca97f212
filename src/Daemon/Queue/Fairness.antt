-- ===== src/Daemon/Queue/Fairness.antt =====
-- crates/workflowd/src/scheduler/queue.rs: which task `pop` returns, and how the rotation moves.
use google_antigravity_cycle.Prelude.{
  ℕ, zero, suc, ◌<◌, ◌≡◌, inl, inr, true, false, Option, none, some, List, [], ◌∷◌, ◌++◌, length,
  length-append, All, get_elem?, arith, refl, ap, sym, ◌∙◌, Bool-cases, if◌then◌else◌,
}
use mathlib.Core.List.{append_assoc, append-nil}
use google_antigravity_cycle.Prelude.Maps.{get, get-insert, get-remove, nat_equality}
use google_antigravity_cycle.Daemon.Queue.{
  Entry, FairQueue, is_ready, at_least, keep_better, select_from, select, remove_at, taken, visit,
  discard, pop_rounds, pop,
}

-- No entry of the list is ready.
abbrev pub NoneReady : List Entry → Type 0
NoneReady = All (λ e. is_ready e.state ≡ false)

-- `e` stands at `i`, is ready, and no ready entry has a greater key: of the highest priority among
-- them, it is the one that was enqueued first.
pub record IsBest (es : List Entry) (i : ℕ) (e : Entry) : Type 0 where
  pub at : get_elem? es i ≡ some e
  pub ready : is_ready e.state ≡ true
  pub best : All (λ x. is_ready x.state ≡ true → at_least x e ≡ true) es

at_least_trans : (a b c : Entry) → at_least a b ≡ true → at_least b c ≡ true → at_least a c ≡ true
at_least_trans a b c h k = ground arith

at_least_total : (a b : Entry) → at_least a b ≡ false → at_least b a ≡ true
at_least_total a b h = ground arith

at_least_refl : (a : Entry) → at_least a a ≡ true
at_least_refl a = ground arith

-- The entries `seen`, of which `best` is the best, and then `es`.
abbrev pub Chosen : List Entry → Option (ℕ × Entry) → Type 0
Chosen es none = NoneReady es
Chosen es (some (i, e)) = IsBest es i e

get_elem?-append_at :
    (xs ys : List Entry) (y : Entry) → get_elem? (xs ++ y ∷ ys) (length xs) ≡ some y
get_elem?-append_at [] ys y = refl
get_elem?-append_at (x ∷ xs) ys y = get_elem?-append_at xs ys y

get_elem?-append_left :
    (xs ys : List Entry) (i : ℕ) (e : Entry)
    → get_elem? xs i ≡ some e
    → get_elem? (xs ++ ys) i ≡ some e
get_elem?-append_left [] ys i e h = cc
get_elem?-append_left (x ∷ xs) ys zero e h = h
get_elem?-append_left (x ∷ xs) ys (suc i) e h = get_elem?-append_left xs ys i e h

All-snoc :
    (P Q : Entry → Type 0) (xs : List Entry) (y : Entry)
    → ((x : Entry) → P x → Q x)
    → All P xs
    → Q y
    → All Q (xs ++ y ∷ [])
All-snoc P Q [] y f h q = (q, tt)
All-snoc P Q (x ∷ xs) y f h q = (f x h.0, All-snoc P Q xs y f h.1 q)

replaced :
    (seen : List Entry) (i : ℕ) (b e : Entry)
    → is_ready e.state ≡ true
    → at_least b e ≡ true
    → IsBest seen i b
    → IsBest (seen ++ e ∷ []) (length seen) e
replaced seen i b e r le c = record {
  at = get_elem?-append_at seen [] e;
  ready = r;
  best =
      All-snoc (λ x. is_ready x.state ≡ true → at_least x b ≡ true)
        (λ x. is_ready x.state ≡ true → at_least x e ≡ true) seen e
        (λ x h rx. at_least_trans x b e (h rx) le) c.best (λ _. at_least_refl e);
}

kept :
    (seen : List Entry) (i : ℕ) (b e : Entry)
    → (is_ready e.state ≡ true → at_least e b ≡ true)
    → IsBest seen i b
    → IsBest (seen ++ e ∷ []) i b
kept seen i b e le c = record {
  at = get_elem?-append_left seen (e ∷ []) i b c.at;
  ready = c.ready;
  best =
      All-snoc (λ x. is_ready x.state ≡ true → at_least x b ≡ true)
        (λ x. is_ready x.state ≡ true → at_least x b ≡ true) seen e (λ x h. h) c.best le;
}

Chosen-snoc :
    (seen : List Entry) (best : Option (ℕ × Entry)) (e : Entry)
    → Chosen seen best
    → Chosen (seen ++ e ∷ []) (if is_ready e.state then keep_better best (length seen) e else best)
Chosen-snoc seen none e c = elim (Bool-cases (is_ready e.state)) [
  | inl r ↦ rw r (record {
    at = get_elem?-append_at seen [] e;
    ready = r;
    best =
        All-snoc (λ x. is_ready x.state ≡ false)
          (λ x. is_ready x.state ≡ true → at_least x e ≡ true) seen e (λ x h rx. cc) c
          (λ _. at_least_refl e);
  })
  | inr r ↦ rw r (
      All-snoc (λ x. is_ready x.state ≡ false) (λ x. is_ready x.state ≡ false) seen e (λ x h. h) c
        r)
]
Chosen-snoc seen (some (i, b)) e c = elim (Bool-cases (is_ready e.state)) [
  | inr r ↦ rw r (kept seen i b e (λ h. cc) c)
  | inl r ↦ rw r (elim (Bool-cases (at_least b e)) [
    | inl le ↦ rw le (replaced seen i b e r le c)
    | inr gt ↦ rw gt (kept seen i b e (λ _. at_least_total b e gt) c)
  ])
]

select_from-Chosen :
    (es seen : List Entry) (best : Option (ℕ × Entry)) (n : ℕ)
    → n ≡ length seen
    → Chosen seen best
    → Chosen (seen ++ es) (select_from n best es)
unfolding select_from
select_from-Chosen [] seen best n h c = rw append-nil c
select_from-Chosen (e ∷ es) seen best n h c = rw (append_assoc seen (e ∷ []) es) at (
    select_from-Chosen es (seen ++ e ∷ []) (if is_ready e.state then keep_better best n e else best)
      (suc n) (omega (arith, length-append seen (e ∷ []))) (rw h (Chosen-snoc seen best e c)))

-- `select` finds the best of the ready entries, and nothing only where none is ready.
pub select-Chosen : (es : List Entry) → Chosen es (select es)
unfolding select
select-Chosen es = select_from-Chosen es [] none 0 refl tt

not_best :
    (es : List Entry) (i : ℕ) (e : Entry)
    → NoneReady es
    → get_elem? es i ≡ some e
    → is_ready e.state ≡ false
not_best [] i e n h = cc
not_best (x ∷ es) zero e n h = ground arith
not_best (x ∷ es) (suc i) e n h = not_best es i e n.1 h

select-none :
    (es : List Entry) (o : Option (ℕ × Entry))
    → select es ≡ o
    → Chosen es o
    → NoneReady es
    → select es ≡ none
select-none es none s c n = s
select-none es (some (i, e)) s c n = cc (not_best es i e n c.at, c.ready)

select-some :
    (es : List Entry) (o : Option (ℕ × Entry))
    → select es ≡ o
    → Chosen es o
    → ¬ NoneReady es
    → (i : ℕ) × (e : Entry) × (select es ≡ some (i, e)) × IsBest es i e
select-some es none s c n = absurd (n c)
select-some es (some (i, e)) s c n = (i, e, s, c)

-- The project has a key in the queue, and nothing to pop.
abbrev pub Idle : FairQueue → ℕ → Type 0
Idle q p = (es : List Entry) × (get p q.projects ≡ some es) × NoneReady es

taken_rotation :
    (p : ℕ) (e : Entry) (left : List Entry) (rest rotation : List ℕ) (q : FairQueue)
    → taken p e left rest (record q { rotation = rotation }) ≡ taken p e left rest q
unfolding taken
taken_rotation p e [] rest rotation q = refl
taken_rotation p e (l ∷ left) rest rotation q = refl

module _ (p : ℕ) (es : List Entry) (i : ℕ) (e : Entry) (chosen : select es ≡ some (i, e)) where
  pop_rounds-skipped :
      (n : ℕ) (skipped rest : List ℕ) (q : FairQueue)
      → length skipped < n
      → All (Idle q) skipped
      → get p q.projects ≡ some es
      → pop_rounds n (skipped ++ p ∷ rest) q
        ≡ (some e.task, taken p e (remove_at i es) (rest ++ skipped) q)
  unfolding pop_rounds
  pop_rounds-skipped zero skipped rest q lt idle g = absurd (omega arith)
  pop_rounds-skipped (suc n) [] rest q lt idle g = rw (g, visit, chosen, append-nil)
  pop_rounds-skipped (suc n) (s ∷ skipped) rest q lt ((fs, found, none_ready), idle) g =
      rw (found, visit, select-none fs (select fs) refl (select-Chosen fs) none_ready, append_assoc)
        (pop_rounds-skipped n skipped (rest ++ s ∷ [])
            (record q { rotation = skipped ++ p ∷ (rest ++ s ∷ []) }) (omega arith) idle g
          ∙ ap (λ t. (some e.task, t))
              (taken_rotation p e (remove_at i es) ((rest ++ s ∷ []) ++ skipped)
                  (skipped ++ p ∷ (rest ++ s ∷ [])) q
                ∙ ap (λ t. taken p e (remove_at i es) t q) (append_assoc rest (s ∷ []) skipped)))

-- Where a project stands in the rotation after its turn.
abbrev pub behind : ℕ → List Entry → List ℕ
behind p [] = []
behind p (e ∷ es) = p ∷ []

abbrev pub remaining : List Entry → Option (List Entry)
remaining [] = none
remaining (e ∷ es) = some (e ∷ es)

taken_parts :
    (p j : ℕ) (e : Entry) (left : List Entry) (rest : List ℕ) (q : FairQueue)
    → let q' = taken p e left rest q in
      (q'.rotation ≡ rest ++ behind p left)
      × (get j q'.projects ≡ (if nat_equality.beq p j then remaining left else get j q.projects))
      × (q'.tasks ≡ discard e.task.task_id q.tasks)
unfolding taken
taken_parts p j e [] rest q = (sym (append-nil rest), get-remove p j q.projects, refl)
taken_parts p j e (l ∷ left) rest q = (refl, get-insert p j (l ∷ left) q.projects, refl)

-- The first project of the rotation that has something ready is served: the task is its best one,
-- which leaves the project and the set of tasks. The projects that were behind it come first from
-- then on, then those that were skipped, then the project itself if it has entries left; a project
-- that has none left leaves the queue, and the entries of the others stay.
pub pop_first :
    (q : FairQueue) (skipped rest : List ℕ) (p : ℕ) (es : List Entry)
    → q.rotation ≡ skipped ++ p ∷ rest
    → All (Idle q) skipped
    → get p q.projects ≡ some es
    → ¬ NoneReady es
    → (i : ℕ) × (e : Entry) × IsBest es i e
      × ((pop q).0 ≡ some e.task)
      × ((pop q).1.rotation ≡ (rest ++ skipped) ++ behind p (remove_at i es))
      × ((j : ℕ)
          → get j (pop q).1.projects
            ≡ (if nat_equality.beq p j then remaining (remove_at i es) else get j q.projects))
      × ((pop q).1.tasks ≡ discard e.task.task_id q.tasks)
unfolding pop
pop_first q skipped rest p es r idle g some_ready =
    let (i, e, chosen, best) = select-some es (select es) refl (select-Chosen es) some_ready in
    let popped : pop_rounds (length q.rotation) q.rotation q
        ≡ (some e.task, taken p e (remove_at i es) (rest ++ skipped) q) =
      ap (λ t. pop_rounds (length t) t q) r
      ∙ pop_rounds-skipped p es i e chosen (length (skipped ++ p ∷ rest)) skipped rest q
          (omega (arith, length-append skipped (p ∷ rest))) idle g in
    let parts = λ (j : ℕ). taken_parts p j e (remove_at i es) (rest ++ skipped) q in
    (
      i,
      e,
      best,
      rw popped refl,
      rw popped (parts p).0,
      (λ j. rw popped (parts j).1),
      rw popped (parts p).2,
    )
