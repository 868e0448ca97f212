-- ===== src/Core/Candidate/Ordered.antt =====
-- crates/workflow-core/src/candidate.rs: the files and the evidence of a manifest that `new` accepts.
use google_antigravity_cycle.Prelude.{
  ℕ, ◌+◌, ◌≡◌, inl, inr, Bool, Bool-cases, true, false, ◌||◌, Option, none, some, List, [], ◌∷◌,
  length, any, ok, arith, refl,
}
use google_antigravity_cycle.Prelude.Text.{Text, text_eq, text_ltb, text_eq_iff}
use google_antigravity_cycle.Core.Candidate.{
  CandidateFile, CandidateDigests, CandidateManifest, place_file, sort_files, sort_ids,
  repeated_path, repeated_id, has_evidence, checked, new_manifest,
}

text_ltb_total : (a b : Text) → text_ltb b a ≡ false → text_eq a b ≡ false → text_ltb a b ≡ true
unfolding text_ltb text_eq
text_ltb_total [] [] h n = absurd (ground arith)
text_ltb_total [] (y ∷ ys) h n = refl
text_ltb_total (x ∷ xs) [] h n = absurd (ground arith)
text_ltb_total (x ∷ xs) (y ∷ ys) h n = ground (arith, text_ltb_total xs ys)

text_ltb_asym : (a b : Text) → text_ltb a b ≡ true → text_ltb b a ≡ false
unfolding text_ltb
text_ltb_asym [] [] h = refl
text_ltb_asym [] (y ∷ ys) h = refl
text_ltb_asym (x ∷ xs) [] h = absurd (ground arith)
text_ltb_asym (x ∷ xs) (y ∷ ys) h = ground (arith, text_ltb_asym xs ys)

-- No neighbours are the wrong way round.
abbrev Weakly : List CandidateFile → Type 0
Weakly (f ∷ g ∷ fs) = (text_ltb g.path f.path ≡ false) × Weakly (g ∷ fs)
Weakly _ = Unit {0}

-- Each path comes before the next, so that none stands twice.
abbrev pub Ascending : List CandidateFile → Type 0
Ascending (f ∷ g ∷ fs) = (text_ltb f.path g.path ≡ true) × Ascending (g ∷ fs)
Ascending _ = Unit {0}

place_file-Weakly :
    (f : CandidateFile) (fs : List CandidateFile) → Weakly fs → Weakly (place_file f fs)
unfolding place_file
place_file-Weakly f [] h = tt
place_file-Weakly f (g ∷ []) h = elim (Bool-cases (text_ltb g.path f.path)) [
  | inl y ↦ rw y (text_ltb_asym g.path f.path y, tt)
  | inr n ↦ rw n (n, tt)
]
place_file-Weakly f (g ∷ k ∷ fs) h =
    let rest = place_file-Weakly f (k ∷ fs) h.1 in
    elim (Bool-cases (text_ltb g.path f.path)) [
      | inr n ↦ rw n (n, h)
      | inl y ↦ rw y (elim (Bool-cases (text_ltb k.path f.path)) [
        | inl z ↦ rw z (h.0, rw z at rest)
        | inr n ↦ rw n (text_ltb_asym g.path f.path y, (n, h.1))
      ])
    ]

sort_files-Weakly : (fs : List CandidateFile) → Weakly (sort_files fs)
unfolding sort_files
sort_files-Weakly [] = tt
sort_files-Weakly (f ∷ fs) = place_file-Weakly f (sort_files fs) (sort_files-Weakly fs)

Weakly-Ascending : (fs : List CandidateFile) → Weakly fs → repeated_path fs ≡ none → Ascending fs
unfolding repeated_path
Weakly-Ascending [] h n = tt
Weakly-Ascending (f ∷ []) h n = tt
Weakly-Ascending (f ∷ g ∷ fs) h n =
    (text_ltb_total f.path g.path h.0 (ground arith), Weakly-Ascending (g ∷ fs) h.1 (ground arith))

any-place_file :
    (p : CandidateFile → Bool) (f : CandidateFile) (fs : List CandidateFile)
    → any p (place_file f fs) ≡ (p f || any p fs)
unfolding place_file
any-place_file p f [] = refl
any-place_file p f (g ∷ gs) = ground (arith, any-place_file p f gs)

any-sort_files :
    (p : CandidateFile → Bool) (fs : List CandidateFile) → any p (sort_files fs) ≡ any p fs
unfolding sort_files
any-sort_files p [] = refl
any-sort_files p (f ∷ fs) = ground (arith, any-place_file p f (sort_files fs), any-sort_files p fs)

length-place_file :
    (f : CandidateFile) (fs : List CandidateFile) → length (place_file f fs) ≡ 1 + length fs
unfolding place_file
length-place_file f [] = refl
length-place_file f (g ∷ gs) = ground (arith, length-place_file f gs)

length-sort_files : (fs : List CandidateFile) → length (sort_files fs) ≡ length fs
unfolding sort_files
length-sort_files [] = refl
length-sort_files (f ∷ fs) =
    omega (arith, length-place_file f (sort_files fs), length-sort_files fs)

-- No identifier stands twice.
abbrev pub Distinct : List (List ℕ) → Type 0
Distinct [] = Unit {0}
Distinct (i ∷ is) = (has_evidence i is ≡ false) × Distinct is

repeated_id-none :
    (seen is : List (List ℕ))
    → repeated_id seen is ≡ none
    → ((x : List ℕ) → has_evidence x is ≡ true → has_evidence x seen ≡ false) × Distinct is
unfolding repeated_id
repeated_id-none seen [] h = (λ x k. absurd (ground arith), tt)
repeated_id-none seen (i ∷ is) h =
    let new : has_evidence i seen ≡ false = ground arith in
    let (apart, distinct) = repeated_id-none (i ∷ seen) is (ground arith) in
    (
      λ x k. elim (Bool-cases (text_eq i x)) [
        | inl e ↦ rw (← (text_eq_iff i x).0 e) new
        | inr n ↦ ground (arith, apart x)
      ],
      (
        elim (Bool-cases (has_evidence i is)) [
          | inr n ↦ n
          | inl y ↦ absurd (ground (arith, apart i y, text_eq_iff i i))
        ],
        distinct,
      ),
    )

checked_inv :
    (path : Option Text) (id : Option (List ℕ)) {m n : CandidateManifest}
    → checked path id m ≡ ok n
    → (path ≡ none) × (id ≡ none) × (m ≡ n)
checked_inv (some path) id h = absurd (ground arith)
checked_inv none (some id) h = absurd (ground arith)
checked_inv none none h = (refl, refl, ground arith)

-- The files that were given, in the order of their paths.
pub record IsOrdered (files : List CandidateFile) (m : CandidateManifest) : Type 0 where
  pub ascending : Ascending m.files
  pub as_many : length m.files ≡ length files
  pub same_files : (p : CandidateFile → Bool) → any p m.files ≡ any p files
  pub distinct_evidence : Distinct m.evidence_ids

-- A manifest that `CandidateManifest::new` accepts has the files that were given, as many, each path
-- before the next and so no path twice, and no evidence twice.
pub new_manifest-IsOrdered :
    (candidate_id : ℕ) (base_revision : Option Text) (files : List CandidateFile)
    (digests : CandidateDigests) (evidence_ids : List (List ℕ)) (m : CandidateManifest)
    → new_manifest candidate_id base_revision files digests evidence_ids ≡ ok m
    → IsOrdered files m
unfolding new_manifest
new_manifest-IsOrdered candidate_id base_revision files digests evidence_ids m h =
    let (paths, ids, same) =
      checked_inv (repeated_path (sort_files files)) (repeated_id [] (sort_ids evidence_ids)) h in
    rw (← same) (record {
      ascending = Weakly-Ascending (sort_files files) (sort_files-Weakly files) paths;
      as_many = length-sort_files files;
      same_files = λ p. any-sort_files p files;
      distinct_evidence = (repeated_id-none [] (sort_ids evidence_ids) ids).1;
    })
