-- ===== src/Ledger/Chain/Linked.antt =====
-- crates/workflow-ledger/src/chain.rs: what `verify` accepts, and that `append` keeps it so.
use google_antigravity_cycle.Prelude.{
  ℕ, ◌+◌, ◌<◌, ◌≡◌, ◌≢◌, ◌∙◌, ap, Option-cases, ◌⊎◌, ◌↔◌, inl, inr, Bool, true, Option, none, some,
  List, [], ◌∷◌, ◌++◌, Result, ok, err, length, arith, refl, ltb, ltb→lt, not, if◌then◌else◌, ◌==◌,
  ==_iff,
}
use google_antigravity_cycle.Prelude.Text.{text_eq_iff}
use google_antigravity_cycle.Ledger.Chain.{
  Digest, Hashing, LedgerEntry, LedgerError, ChainVerification, valid, calculate_hash, head,
  verify_from, verify, hash_matches, check_entry, u64_bound, digest_eq,
}

-- The entries from the last to the first.
abbrev pub rev_onto {ℓ} : {A : Type ℓ} → List A → List A → List A
rev_onto [] old = old
rev_onto (x ∷ xs) old = rev_onto xs (x ∷ old)

pub rev_onto-snoc {ℓ} :
    {A : Type ℓ} (xs old : List A) (x : A) → rev_onto (xs ++ x ∷ []) old ≡ x ∷ rev_onto xs old
rev_onto-snoc [] old x = refl
rev_onto-snoc (y ∷ ys) old x = rev_onto-snoc ys (y ∷ old) x

pub length-rev_onto {ℓ} :
    {A : Type ℓ} (xs old : List A) → length (rev_onto xs old) ≡ length xs + length old
length-rev_onto [] old = omega arith
length-rev_onto (x ∷ xs) old = omega (arith, length-rev_onto xs (x ∷ old))

digest_eq_sound : (a b : Option Digest) → digest_eq a b ≡ true → a ≡ b
digest_eq_sound none none h = refl
digest_eq_sound (some a) (some b) h = ground (arith, text_eq_iff a b)
digest_eq_sound none (some b) h = cc
digest_eq_sound (some a) none h = cc

digest_eq_refl : (a : Option Digest) → digest_eq a a ≡ true
digest_eq_refl none = refl
digest_eq_refl (some a) = (text_eq_iff a a).1 refl

all_pass :
    (a b c d : Bool) (v w x y : ChainVerification)
    → (if not a
        then some v
        else if not b
        then some w
        else if not c
        then some x
        else if d
        then none
        else some y)
      ≡ none
    → (a ≡ true) × (b ≡ true) × (c ≡ true) × (d ≡ true)
all_pass a b c d v w x y h = ground arith

module _ {Event : Type 0} (hashing : Hashing Event) where
  abbrev pub newest : List (LedgerEntry Event) → Option Digest
  newest [] = none
  newest (e ∷ es) = some e.hash

  -- Each entry, from the last to the first, has the number of the entries before it, the hash of
  -- the last of these, and the hash that its contents have.
  abbrev pub Linked : List (LedgerEntry Event) → Type 0
  Linked [] = Unit {0}
  Linked (e ∷ es) =
      (e.sequence ≡ length es)
      × (length es < u64_bound)
      × (e.previous_hash ≡ newest es)
      × (calculate_hash hashing (length es) (newest es) e.event ≡ ok e.hash)
      × Linked es

  hash_matches_sound :
      (r : Result Digest LedgerError) (d : Digest) → hash_matches hashing r d ≡ true → r ≡ ok d
  unfolding hash_matches
  hash_matches_sound (ok h) d e = ground (arith, text_eq_iff h d)
  hash_matches_sound (err x) d e = cc

  hash_matches_refl :
      (r : Result Digest LedgerError) (d : Digest) → r ≡ ok d → hash_matches hashing r d ≡ true
  unfolding hash_matches
  hash_matches_refl r d e = rw (e, hash_matches) ((text_eq_iff d d).1 refl)

  check_entry-Linked :
      (e : LedgerEntry Event) (old : List (LedgerEntry Event))
      → Linked old
      → check_entry hashing (length old) (newest old) e ≡ none
      → Linked (e ∷ old)
  unfolding check_entry
  check_entry-Linked e old l v =
      let (small, number, previous, hash) =
        all_pass (ltb (length old) u64_bound) (e.sequence == length old)
          (digest_eq e.previous_hash (newest old))
          (hash_matches hashing (calculate_hash hashing (length old) (newest old) e.event) e.hash) _
          _ _ _ v in
      (
        (==_iff _ _).0 number,
        ltb→lt _ _ small,
        digest_eq_sound e.previous_hash (newest old) previous,
        hash_matches_sound _ e.hash hash,
        l,
      )

  check_entry_invalid :
      (index : ℕ) (previous : Option Digest) (e : LedgerEntry Event) (n : ℕ) (h : Option Digest)
      → check_entry hashing index previous e ≢ some (valid n h)
  unfolding check_entry
  check_entry_invalid index previous e n h = ground arith

  Linked-check_entry :
      (e : LedgerEntry Event) (old : List (LedgerEntry Event))
      → Linked (e ∷ old)
      → check_entry hashing (length old) (newest old) e ≡ none
  unfolding check_entry
  Linked-check_entry e old (number, small, previous, hash, l) =
      rw (previous, digest_eq_refl (newest old), hash_matches_refl _ e.hash hash) (ground arith)

  verify_from-Linked :
      (es old : List (LedgerEntry Event)) (expected : Option Digest) (total n : ℕ)
      (h : Option Digest)
      → Linked old
      → verify_from hashing (length old) (newest old) expected total es ≡ valid n h
      → Linked (rev_onto es old)
        × (n ≡ total)
        × (h ≡ newest (rev_onto es old))
        × ((expected ≡ none) ⊎ (expected ≡ h))
  unfolding verify_from
  verify_from-Linked [] old expected total n h l v =
      ground (arith, digest_eq_sound expected (newest old))
  verify_from-Linked (e ∷ es) old expected total n h l v =
      elim (Option-cases (check_entry hashing (length old) (newest old) e)) [
        | inl goes_on ↦
            verify_from-Linked es (e ∷ old) expected total n h (check_entry-Linked e old l goes_on)
              (rw (goes_on, verify_from) at v)
        | inr (verdict, stops) ↦ absurd (
            check_entry_invalid (length old) (newest old) e n h
              (stops ∙ ap some (rw (stops, verify_from) at v)))
      ]

  Linked-drop : (es old : List (LedgerEntry Event)) → Linked (rev_onto es old) → Linked old
  Linked-drop [] old l = l
  Linked-drop (e ∷ es) old l = (Linked-drop es (e ∷ old) l).4

  verify_from_lem :
      (es old : List (LedgerEntry Event)) (expected : Option Digest) (total : ℕ)
      → Linked (rev_onto es old)
      → (expected ≡ none) ⊎ (expected ≡ newest (rev_onto es old))
      → verify_from hashing (length old) (newest old) expected total es
        ≡ valid total (newest (rev_onto es old))
  unfolding verify_from
  verify_from_lem [] old expected total l m = ground (arith, digest_eq_refl (newest old))
  verify_from_lem (e ∷ es) old expected total l m =
      rw (Linked-check_entry e old (Linked-drop es (e ∷ old) l), verify_from)
        (verify_from_lem es (e ∷ old) expected total l m)

  -- `verify` accepts a chain, with `n` entries and the head `h`, exactly when its entries are linked,
  -- `n` and `h` are their number and the hash of the last, and no other head was expected.
  pub verify_iff :
      (entries : List (LedgerEntry Event)) (expected : Option Digest) (n : ℕ) (h : Option Digest)
      → (verify hashing entries expected ≡ valid n h) ↔ (
          Linked (rev_onto entries [])
          × (n ≡ length entries)
          × (h ≡ newest (rev_onto entries []))
          × ((expected ≡ none) ⊎ (expected ≡ h)))
  unfolding verify
  verify_iff entries expected n h = (
    verify_from-Linked entries [] expected (length entries) n h tt,
    λ (l, en, eh, m).
        rw (en, eh) (verify_from_lem entries [] expected (length entries) l (rw eh at m)),
  )

  head_lem :
      (e : LedgerEntry Event) (es old : List (LedgerEntry Event))
      → head hashing (e ∷ es) ≡ newest (rev_onto (e ∷ es) old)
  unfolding head
  head_lem e [] old = refl
  head_lem e (f ∷ es) old = head_lem f es (e ∷ old)

  pub head-newest : (es : List (LedgerEntry Event)) → head hashing es ≡ newest (rev_onto es [])
  unfolding head
  head-newest [] = refl
  head-newest (e ∷ es) = head_lem e es []
