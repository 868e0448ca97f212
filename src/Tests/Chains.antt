-- ===== src/Tests/Chains.antt =====
-- crates/workflow-ledger/src/chain.rs on chains of one and two entries. The hash of the tests tells
-- only the length of its input, so that two chains with the same head show a collision.
use google_antigravity_cycle.Prelude.{
  ℕ, zero, suc, ◌≡◌, ◌⊎◌, ◌↔◌, Option, none, some, [], ◌∷◌, ok, refl, length, replicate,
}
use google_antigravity_cycle.Prelude.Text.{text_eq}
use google_antigravity_cycle.Ledger.Chain.{
  Hashing, LedgerEntry, Digest, valid, append, verify, new_entry, calculate_hash, hash_input, head,
}
use google_antigravity_cycle.Ledger.Chain.Linked.{Linked, newest, verify_iff}
use google_antigravity_cycle.Ledger.Chain.Tamper.{
  verify-append, head_pins_chain, SameContents, Collision,
}

abbrev hashing : Hashing ℕ
hashing = record { canonical_bytes = λ n. ok (n ∷ []); sha256 = λ x. length x ∷ replicate 31 0 }

abbrev digest : Digest
digest = 51 ∷ replicate 31 0

abbrev first : ℕ → LedgerEntry ℕ
first n = record { event = n; hash = digest; previous_hash = none; sequence = 0 }

abbrev second : LedgerEntry ℕ
second = record { event = 6; hash = 83 ∷ replicate 31 0; previous_hash = some digest; sequence = 1 }

append_test : append hashing (first 5 ∷ []) 6 ≡ (ok second, first 5 ∷ second ∷ [])
unfolding append new_entry calculate_hash hash_input head
append_test = refl

verify_iff_example :
    let expected : Option Digest = none in
    (verify hashing (first 5 ∷ []) none ≡ valid 1 (some digest)) ↔ (
      Linked hashing (first 5 ∷ [])
      × (suc zero ≡ length (first 5 ∷ []))
      × (some digest ≡ newest hashing (first 5 ∷ []))
      × ((expected ≡ none) ⊎ (expected ≡ some digest)))
verify_iff_example = verify_iff hashing (first 5 ∷ []) none 1 (some digest)

verify-append_example :
    verify hashing (append hashing (first 5 ∷ []) 6).1 (some second.hash)
    ≡ valid 2 (some second.hash)
unfolding append verify calculate_hash text_eq hash_input new_entry head
verify-append_example = verify-append hashing (first 5 ∷ []) 6 1 (some digest) second refl refl

head_pins_chain_example : SameContents hashing (first 5 ∷ []) (first 6 ∷ []) ⊎ Collision hashing
unfolding verify calculate_hash text_eq hash_input
head_pins_chain_example =
    head_pins_chain hashing (λ x. refl) (first 5 ∷ []) (first 6 ∷ []) 1 1 (some digest) refl refl
