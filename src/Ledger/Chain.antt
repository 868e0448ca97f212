-- ===== src/Ledger/Chain.antt =====
-- crates/workflow-ledger/src/chain.rs: entries that carry the hash of the entry before them.
-- The events, their canonical bytes (serde_json) and the hash (SHA-256) are parameters; a digest is
-- the list of its bytes, and the error of serde_json is its message.
pub mod Linked
pub mod Tamper
use google_antigravity_cycle.Prelude.{
  ℕ, suc, ◌+◌, ◌/◌, ◌%◌, ◌^◌, ◌≡◌, Bool, true, false, not, ◌&&◌, Option, none, some, List, [], ◌∷◌,
  ◌++◌, ◌==◌, ltb, is_some, if◌then◌else◌, Result, ok, err, length,
}
use google_antigravity_cycle.Prelude.Bytes.{u64_bound, to_be_bytes}
use google_antigravity_cycle.Prelude.Text.{Text, text_eq, codes}

abbrev pub Digest : Type 0
Digest = List ℕ

-- "opencode-workflow-ledger-entry-v1"
abbrev pub entry_hash_domain : List ℕ
entry_hash_domain = codes "opencode-workflow-ledger-entry-v1"

-- Equality of optional digests.
abbrev pub digest_eq : Option Digest → Option Digest → Bool
digest_eq none none = true
digest_eq (some a) (some b) = text_eq a b
digest_eq _ _ = false

pub data LedgerError : Type 0 where
  capacity lock_poisoned : LedgerError
  serialization : Text → LedgerError

pub data ChainFailure : Type 0 where
  entry_hash previous_hash sequence : ChainFailure

pub data ChainVerification : Type 0 where
  -- the number of entries, the head
  valid : ℕ → Option Digest → ChainVerification
  broken : ChainFailure → ℕ → ChainVerification
  -- actual, expected
  head_mismatch : Option Digest → Option Digest → ChainVerification

pub record LedgerEntry (Event : Type 0) : Type 0 where
  pub event : Event
  pub hash : Digest
  pub previous_hash : Option Digest
  pub sequence : ℕ

-- What the ledger uses of serde_json and of SHA-256.
pub record Hashing (Event : Type 0) : Type 0 where
  pub canonical_bytes : Event → Result (List ℕ) Text
  pub sha256 : List ℕ → Digest

abbrev pub previous_bytes : Option Digest → List ℕ
previous_bytes none = 0 ∷ []
previous_bytes (some hash) = 1 ∷ hash

unfoldable pub hash_input : ℕ → Option Digest → List ℕ → List ℕ
hash_input number previous event =
    entry_hash_domain
    ++ (to_be_bytes number ++ (previous_bytes previous ++ (to_be_bytes (length event) ++ event)))

module _ {Event : Type 0} (hashing : Hashing Event) where
  open hashing use {canonical_bytes, sha256}

  hash_bytes : ℕ → Option Digest → Result (List ℕ) Text → Result Digest LedgerError
  hash_bytes number previous (err e) = err (serialization e)
  hash_bytes number previous (ok event) =
      if ltb (length event) u64_bound
      then ok (sha256 (hash_input number previous event))
      else err capacity

  unfoldable pub calculate_hash : ℕ → Option Digest → Event → Result Digest LedgerError
  unfolding hash_bytes
  calculate_hash number previous event = hash_bytes number previous (canonical_bytes event)

  unfoldable pub new_entry : ℕ → Option Digest → Event → Result (LedgerEntry Event) LedgerError
  new_entry number previous event = elim (calculate_hash number previous event) [
    | ok hash ↦
        ok (record { event = event; hash = hash; previous_hash = previous; sequence = number })
    | err e ↦ err e
  ]

  unfoldable pub head : List (LedgerEntry Event) → Option Digest
  head [] = none
  head (e ∷ []) = some e.hash
  head (e ∷ f ∷ es) = head (f ∷ es)

  push :
      List (LedgerEntry Event)
      → Result (LedgerEntry Event) LedgerError
      → Result (LedgerEntry Event) LedgerError × List (LedgerEntry Event)
  push entries (ok entry) = (ok entry, entries ++ entry ∷ [])
  push entries (err e) = (err e, entries)

  -- `append`: the entry that is returned, and the entries of the chain after it.
  unfoldable pub append :
      List (LedgerEntry Event)
      → Event
      → Result (LedgerEntry Event) LedgerError × List (LedgerEntry Event)
  unfolding push
  append entries event =
      if ltb (length entries) u64_bound
      then push entries (new_entry (length entries) (head entries) event)
      else (err capacity, entries)

  hash_matches : Result Digest LedgerError → Digest → Bool
  hash_matches (ok hash) h = text_eq hash h
  hash_matches (err _) h = false

  -- One round of the loop of `verify`: the verdict that it returns, if it returns one.
  check_entry : ℕ → Option Digest → LedgerEntry Event → Option ChainVerification
  unfolding hash_matches
  check_entry index previous entry =
      if not (ltb index u64_bound)
      then some (broken ChainFailure.sequence 18446744073709551615)
      else if not (entry.sequence == index)
      then some (broken ChainFailure.sequence index)
      else if not (digest_eq entry.previous_hash previous)
      then some (broken ChainFailure.previous_hash index)
      else if hash_matches (calculate_hash index previous entry.event) entry.hash
      then none
      else some (broken entry_hash index)

  -- The loop of `verify` from an index on, and what follows it: `total` is the number of entries.
  -- A round that goes on has found the hash of its entry to be the one calculated.
  unfoldable pub verify_from :
      ℕ → Option Digest → Option Digest → ℕ → List (LedgerEntry Event) → ChainVerification
  unfolding check_entry
  verify_from index previous expected_head total [] =
      if is_some expected_head && not (digest_eq expected_head previous)
      then head_mismatch previous expected_head
      else valid total previous
  verify_from index previous expected_head total (entry ∷ entries) =
      elim (check_entry index previous entry) [
        | none ↦ verify_from (suc index) (some entry.hash) expected_head total entries
        | some verdict ↦ verdict
      ]

  unfoldable pub verify : List (LedgerEntry Event) → Option Digest → ChainVerification
  unfolding verify_from
  verify entries expected_head = verify_from 0 none expected_head (length entries) entries
