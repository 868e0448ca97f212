-- ===== src/Core/Routing/Sets.antt =====
-- crates/workflow-core/src/routing.rs: the sets of categories that are collected from the facts.
use google_antigravity_cycle.Prelude.{
  ℕ, ◌<◌, ◌≡◌, ◌≢◌, ◌↔◌, inl, inr, Bool, Bool-cases, true, false, not, ◌&&◌, ◌||◌, List, [], ◌∷◌,
  ◌==◌, leb, length, any, Any, All, arith, refl, ap, sym, ◌∙◌,
}
use google_antigravity_cycle.Core.Routing.{
  RiskCategory, RiskFact, rank, is_empty, set_insert, collect,
}

rank_inj : (c d : RiskCategory) → rank c ≡ rank d → c ≡ d
unfolding rank
rank_inj c d h = ground arith

-- Each rank is below those after it.
abbrev Ascending : List RiskCategory → Type 0
Ascending [] = Unit {0}
Ascending (c ∷ cs) = All (λ d. rank c < rank d) cs × Ascending cs

above :
    (c d : RiskCategory) (ds : List RiskCategory)
    → rank c < rank d
    → All (λ e. rank d < rank e) ds
    → All (λ e. rank c < rank e) ds
above c d [] h a = tt
above c d (e ∷ ds) h a = (omega arith, above c d ds h a.1)

set_insert_above :
    (b c : RiskCategory) (ds : List RiskCategory)
    → rank b < rank c
    → All (λ e. rank b < rank e) ds
    → All (λ e. rank b < rank e) (set_insert c ds)
unfolding set_insert
set_insert_above b c [] h a = (h, tt)
set_insert_above b c (d ∷ ds) h a = ground (arith, set_insert_above b c ds)

set_insert-Ascending :
    (c : RiskCategory) (ds : List RiskCategory) → Ascending ds → Ascending (set_insert c ds)
unfolding set_insert
set_insert-Ascending c [] a = (tt, tt)
set_insert-Ascending c (d ∷ ds) a =
    ground (arith, set_insert-Ascending c ds, set_insert_above d c ds, above c d ds)

collect-Ascending : (p : RiskFact → Bool) (fs : List RiskFact) → Ascending (collect p fs)
unfolding collect
collect-Ascending p [] = tt
collect-Ascending p (f ∷ fs) =
    ground (arith, collect-Ascending p fs, set_insert-Ascending f.category (collect p fs))

-- A category that stands in the list.
abbrev has : RiskCategory → List RiskCategory → Bool
has b = any (λ x. rank x == rank b)

has-set_insert :
    (b c : RiskCategory) (ds : List RiskCategory)
    → has b (set_insert c ds) ≡ (rank c == rank b || has b ds)
unfolding set_insert
has-set_insert b c [] = refl
has-set_insert b c (d ∷ ds) = ground (arith, has-set_insert b c ds)

has-collect :
    (b : RiskCategory) (p : RiskFact → Bool) (fs : List RiskFact)
    → has b (collect p fs) ≡ any (λ f. p f && rank f.category == rank b) fs
unfolding collect
has-collect b p [] = refl
has-collect b p (f ∷ fs) =
    ground (arith, has-collect b p fs, has-set_insert b f.category (collect p fs))

-- A fact that passes the test gives the category.
abbrev pub Gives : (RiskFact → Bool) → RiskCategory → List RiskFact → Type 0
Gives p c = Any (λ f. (p f ≡ true) × (f.category ≡ c))

both : (a : Bool) (n m : ℕ) → (a && n == m) ≡ true → (a ≡ true) × (n ≡ m)
both a n m h = ground arith

gives :
    (p : RiskFact → Bool) (c : RiskCategory) (fs : List RiskFact)
    → any (λ f. p f && rank f.category == rank c) fs ≡ true
    → Gives p c fs
gives p c [] h = absurd (ground arith)
gives p c (f ∷ fs) h = elim (Bool-cases (p f && rank f.category == rank c)) [
  | inl e ↦
      let (ok, same) = both (p f) (rank f.category) (rank c) e in
      inl (ok, rank_inj f.category c same)
  | inr e ↦ inr (gives p c fs (ground arith))
]

given :
    (p : RiskFact → Bool) (c : RiskCategory) (fs : List RiskFact)
    → Gives p c fs
    → any (λ f. p f && rank f.category == rank c) fs ≡ true
given p c [] h = absurd h
given p c (f ∷ fs) (inl (e, same)) = ground (arith, ap rank same)
given p c (f ∷ fs) (inr h) = ground (arith, given p c fs h)

-- Two categories that differ, of facts that pass the test.
abbrev pub GivesTwo : (RiskFact → Bool) → List RiskFact → Type 0
GivesTwo p fs = (c : RiskCategory) × (d : RiskCategory) × (c ≢ d) × Gives p c fs × Gives p d fs

two_in :
    (xs : List RiskCategory)
    → Ascending xs
    → leb 2 (length xs) ≡ true
    → (c : RiskCategory) × (d : RiskCategory) × (c ≢ d) × (has c xs ≡ true) × (has d xs ≡ true)
two_in [] a h = absurd (ground arith)
two_in (c ∷ []) a h = absurd (ground arith)
two_in (c ∷ d ∷ xs) a h = (c, d, (λ e. omega (arith, ap rank e, a.0.0)), ground arith, ground arith)

of_two :
    (c d : RiskCategory) (xs : List RiskCategory)
    → c ≢ d
    → has c xs ≡ true
    → has d xs ≡ true
    → leb 2 (length xs) ≡ true
of_two c d [] ne hc hd = absurd (ground arith)
of_two c d (x ∷ []) ne hc hd = absurd (ne (rank_inj c d (ground arith)))
of_two c d (x ∷ y ∷ xs) ne hc hd = ground arith

pub two_iff :
    (p : RiskFact → Bool) (fs : List RiskFact)
    → (leb 2 (length (collect p fs)) ≡ true) ↔ GivesTwo p fs
two_iff p fs = (
  λ h.
      let (c, d, ne, hc, hd) = two_in (collect p fs) (collect-Ascending p fs) h in
      (
        c,
        d,
        ne,
        gives p c fs (sym (has-collect c p fs) ∙ hc),
        gives p d fs (sym (has-collect d p fs) ∙ hd),
      ),
  λ (c, d, ne, hc, hd).
      of_two c d (collect p fs) ne (has-collect c p fs ∙ given p c fs hc)
        (has-collect d p fs ∙ given p d fs hd),
)

set_insert_some : (c : RiskCategory) (ds : List RiskCategory) → is_empty (set_insert c ds) ≡ false
unfolding set_insert
set_insert_some c [] = refl
set_insert_some c (d ∷ ds) = ground arith

pub is_empty-collect :
    (p : RiskFact → Bool) (fs : List RiskFact) → is_empty (collect p fs) ≡ not (any p fs)
unfolding collect
is_empty-collect p [] = refl
is_empty-collect p (f ∷ fs) =
    ground (arith, is_empty-collect p fs, set_insert_some f.category (collect p fs))
