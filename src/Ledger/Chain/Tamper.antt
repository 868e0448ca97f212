-- ===== src/Ledger/Chain/Tamper.antt =====
-- crates/workflow-ledger/src/chain.rs: what the head of a chain pins down.
use google_antigravity_cycle.Prelude.{
  ℕ, suc, ◌<◌, ◌≡◌, ◌≢◌, ◌⊎◌, ◌∙◌, ap, sym, inl, inr, Bool-cases, Option, none, some, List, [], ◌∷◌,
  ◌++◌, Result, ok, err, length, length-append, arith, refl, append_inj,
}
use google_antigravity_cycle.Prelude.Text.{text_eq, text_eq_iff, Text}
use mathlib.Core.List.{tail}
use google_antigravity_cycle.Prelude.Bytes.{u64_bound, to_be_bytes, to_be_bytes_inj}
use google_antigravity_cycle.Ledger.Chain.{
  Digest, Hashing, LedgerEntry, LedgerError, valid, calculate_hash, hash_bytes, hash_input, head,
  append, new_entry, verify, previous_bytes, entry_hash_domain,
}
use google_antigravity_cycle.Ledger.Chain.Linked.{
  Linked, newest, rev_onto, rev_onto-snoc, length-rev_onto, verify_iff, head-newest,
}

abbrev IsDigest : Option Digest → Type 0
IsDigest none = Unit {0}
IsDigest (some d) = length d ≡ 32

previous_bytes_inj :
    (p q : Option Digest) {x y : List ℕ}
    → IsDigest p
    → IsDigest q
    → previous_bytes p ++ x ≡ previous_bytes q ++ y
    → (p ≡ q) × (x ≡ y)
previous_bytes_inj none none hp hq e = let (_, r) = append_inj (0 ∷ []) (0 ∷ []) refl e in (refl, r)
previous_bytes_inj none (some d) hp hq e = absurd (ground arith)
previous_bytes_inj (some d) none hp hq e = absurd (ground arith)
previous_bytes_inj (some c) (some d) hp hq e =
    let (b, r) = append_inj (1 ∷ c) (1 ∷ d) (omega arith) e in (ap some (ap tail b), r)

-- What is hashed determines the number, the hash before and the bytes of the event.
hash_input_inj :
    (n m : ℕ) (p q : Option Digest) (x y : List ℕ)
    → n < u64_bound
    → m < u64_bound
    → IsDigest p
    → IsDigest q
    → hash_input n p x ≡ hash_input m q y
    → (n ≡ m) × (p ≡ q) × (x ≡ y)
unfolding hash_input
hash_input_inj n m p q x y hn hm hp hq e =
    let (_, e1) = append_inj entry_hash_domain entry_hash_domain refl e in
    let (number, e2) = append_inj (to_be_bytes n) (to_be_bytes m) refl e1 in
    let (previous, e3) = previous_bytes_inj p q hp hq e2 in
    let (_, event) = append_inj (to_be_bytes (length x)) (to_be_bytes (length y)) refl e3 in
    (to_be_bytes_inj n m hn hm number, previous, event)

module _ {Event : Type 0} (hashing : Hashing Event) where
  open hashing use {canonical_bytes, sha256}

  hash_bytes_inv :
      (n : ℕ) (p : Option Digest) (r : Result (List ℕ) Text) {h : Digest}
      → hash_bytes hashing n p r ≡ ok h
      → (bytes : List ℕ) × (r ≡ ok bytes) × (h ≡ sha256 (hash_input n p bytes))
  unfolding hash_bytes
  hash_bytes_inv n p (ok bytes) e = (bytes, refl, ground arith)
  hash_bytes_inv n p (err m) e = cc

  calculate_hash_inv :
      (n : ℕ) (p : Option Digest) (event : Event) {h : Digest}
      → calculate_hash hashing n p event ≡ ok h
      → (bytes : List ℕ) × (canonical_bytes event ≡ ok bytes) × (h ≡ sha256 (hash_input n p bytes))
  unfolding calculate_hash
  calculate_hash_inv n p event e = hash_bytes_inv n p (canonical_bytes event) e

  appended :
      (entries : List (LedgerEntry Event)) (event : Event) (entry : LedgerEntry Event)
      → (append hashing entries event).0 ≡ ok entry
      → (length entries < u64_bound)
        × ((append hashing entries event).1 ≡ entries ++ entry ∷ [])
        × (entry.event ≡ event)
        × (entry.sequence ≡ length entries)
        × (entry.previous_hash ≡ head hashing entries)
        × (calculate_hash hashing (length entries) (head hashing entries) event ≡ ok entry.hash)
  unfolding append new_entry
  appended entries event entry h = ground arith

  append_error_unchanged :
      (entries : List (LedgerEntry Event)) (event : Event) (e : LedgerError)
      → (append hashing entries event).0 ≡ err e
      → (append hashing entries event).1 ≡ entries
  unfolding append new_entry
  append_error_unchanged entries event e h = ground arith

  Linked-append :
      (entries : List (LedgerEntry Event)) (entry : LedgerEntry Event)
      → Linked hashing (rev_onto entries [])
      → length entries < u64_bound
      → entry.sequence ≡ length entries
      → entry.previous_hash ≡ head hashing entries
      → calculate_hash hashing (length entries) (head hashing entries) entry.event ≡ ok entry.hash
      → Linked hashing (rev_onto (entries ++ entry ∷ []) [])
  Linked-append entries entry l small number previous hash =
      let size : length entries ≡ length (rev_onto entries []) =
        omega (arith, length-rev_onto entries []) in
      rw rev_onto-snoc (
        number ∙ size,
        omega arith,
        previous ∙ head-newest hashing entries,
        rw (← size, ← head-newest hashing entries) hash,
        l,
      )

  -- An entry that is appended to a chain that `verify` accepts gives one that `verify` accepts, with
  -- one entry more and the hash of the new one as its head.
  pub verify-append :
      (entries : List (LedgerEntry Event)) (event : Event) (n : ℕ) (h : Option Digest)
      (entry : LedgerEntry Event)
      → verify hashing entries none ≡ valid n h
      → (append hashing entries event).0 ≡ ok entry
      → verify hashing (append hashing entries event).1 (some entry.hash)
        ≡ valid (suc n) (some entry.hash)
  verify-append entries event n h entry v done =
      let (l, size, _, _) = (verify_iff hashing entries none n h).0 v in
      let (small, after, same, number, previous, hash) = appended entries event entry done in
      let whole = entries ++ entry ∷ [] in
      rw after (
        (verify_iff hashing whole (some entry.hash) (suc n) (some entry.hash)).1 (
          Linked-append entries entry l small number previous (rw same hash),
          omega (arith, length-append entries (entry ∷ [])),
          rw rev_onto-snoc,
          inr refl,
        ))

  -- Two different inputs of the hash function with one hash.
  abbrev pub Collision : Type 0
  Collision = (x : List ℕ) × (y : List ℕ) × (x ≢ y) × (sha256 x ≡ sha256 y)

  -- The same entries, as far as their bytes tell.
  abbrev pub SameContents : List (LedgerEntry Event) → List (LedgerEntry Event) → Type 0
  SameContents [] [] = Unit {0}
  SameContents (e ∷ es) (f ∷ fs) =
      (canonical_bytes e.event ≡ canonical_bytes f.event)
      × (e.hash ≡ f.hash)
      × (e.previous_hash ≡ f.previous_hash)
      × (e.sequence ≡ f.sequence)
      × SameContents es fs
  SameContents _ _ = ⊥

  module _ (sized : (x : List ℕ) → length (sha256 x) ≡ 32) where
    newest-IsDigest :
        (es : List (LedgerEntry Event)) → Linked hashing es → IsDigest (newest hashing es)
    newest-IsDigest [] l = tt
    newest-IsDigest (e ∷ es) l =
        let (bytes, _, hash) = calculate_hash_inv (length es) (newest hashing es) e.event l.3 in
        ap length hash ∙ sized _

    pinned :
        (es fs : List (LedgerEntry Event))
        → Linked hashing es
        → Linked hashing fs
        → newest hashing es ≡ newest hashing fs
        → SameContents es fs ⊎ Collision
    pinned [] [] le lf h = inl tt
    pinned [] (f ∷ fs) le lf h = cc
    pinned (e ∷ es) [] le lf h = cc
    pinned (e ∷ es) (f ∷ fs) le lf h =
        let (x, cx, hx) = calculate_hash_inv (length es) (newest hashing es) e.event le.3 in
        let (y, cy, hy) = calculate_hash_inv (length fs) (newest hashing fs) f.event lf.3 in
        let a = hash_input (length es) (newest hashing es) x in
        let b = hash_input (length fs) (newest hashing fs) y in
        let hashes : e.hash ≡ f.hash = cc in
        elim (Bool-cases (text_eq a b)) [
          | inr differ ↦ inr (a, b, (λ same. cc ((text_eq_iff a b).1 same)), sym hx ∙ hashes ∙ hy)
          | inl equal ↦
              let (number, previous, bytes) =
                hash_input_inj (length es) (length fs) (newest hashing es) (newest hashing fs) x y
                  le.1 lf.1 (newest-IsDigest es le.4) (newest-IsDigest fs lf.4)
                  ((text_eq_iff a b).0 equal) in
              elim (pinned es fs le.4 lf.4 previous) [
                | inl rest ↦ inl (
                  cx ∙ ap ok bytes ∙ sym cy,
                  hashes,
                  le.2 ∙ previous ∙ sym lf.2,
                  le.0 ∙ number ∙ sym lf.0,
                  rest,
                )
                | inr collision ↦ inr collision
              ]
        ]

    -- Where every digest has 32 bytes, two chains that `verify` accepts with the same head have the same entries, as far as their
    -- bytes tell, or they show a collision of the hash function.
    pub head_pins_chain :
        (left right : List (LedgerEntry Event)) (n m : ℕ) (h : Option Digest)
        → verify hashing left none ≡ valid n h
        → verify hashing right none ≡ valid m h
        → SameContents (rev_onto left []) (rev_onto right []) ⊎ Collision
    head_pins_chain left right n m h va vb =
        let (la, _, ha, _) = (verify_iff hashing left none n h).0 va in
        let (lb, _, hb, _) = (verify_iff hashing right none m h).0 vb in
        pinned (rev_onto left []) (rev_onto right []) la lb (sym ha ∙ hb)
