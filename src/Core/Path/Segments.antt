-- ===== src/Core/Path/Segments.antt =====
-- crates/workflow-core/src/path.rs: the overlap of two paths, seen on their segments.
use google_antigravity_cycle.Prelude.{
  ◌≡◌, Bool, true, false, ◌&&◌, ◌||◌, List, [], ◌∷◌, ◌==◌, arith, refl, Bool-cases, inl, inr,
}
use google_antigravity_cycle.Prelude.Text.{Text, text_eq, text_eq_iff}
use google_antigravity_cycle.Core.Path.{split, slash, strip_prefix, has_slash, overlaps}

-- Whether the first list of segments is where the second begins.
pub leads : List Text → List Text → Bool
leads [] ts = true
leads (s ∷ ss) [] = false
leads (s ∷ ss) (t ∷ ts) = text_eq s t && leads ss ts

-- Whether the second path is the first or lies below it.
covers : Text → Text → Bool
covers above below = text_eq below above || has_slash (strip_prefix below above)

split-cons : (cs : Text) → (s : Text) × (ss : List Text) × (split cs ≡ s ∷ ss)
unfolding split
split-cons [] = ([], [], refl)
split-cons (c ∷ cs) =
    let (s, ss, e) = split-cons cs in
    elim (Bool-cases (c == slash)) [
      | inl y ↦ ([], split cs, ground arith)
      | inr n ↦ (c ∷ s, ss, ground arith)
    ]

leads-split : (above below : Text) → leads (split above) (split below) ≡ covers above below
unfolding split leads covers strip_prefix text_eq
leads-split [] [] = refl
leads-split [] (d ∷ ds) = let (t, ts, e) = split-cons ds in ground arith
leads-split (c ∷ cs) [] = let (s, ss, e) = split-cons cs in ground arith
leads-split (c ∷ cs) (d ∷ ds) =
    let (s, ss, e) = split-cons cs in
    let (t, ts, f) = split-cons ds in ground (arith, leads-split cs ds)

-- Two paths overlap exactly if the segments of one are where those of the other begin.
pub overlaps-split :
    (first second : Text)
    → overlaps first second
      ≡ (leads (split second) (split first) || leads (split first) (split second))
unfolding overlaps covers
overlaps-split first second = ground (
  arith,
  leads-split first second,
  leads-split second first,
  text_eq_iff first second,
  text_eq_iff second first,
)
