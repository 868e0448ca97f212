-- ===== src/Core/Request.antt =====
-- crates/workflow-core/src/request.rs: a request and its numbered amendments.
-- A timestamp is only kept: it is a number. A digest is the list of its bytes.
pub mod Laws
use google_antigravity_cycle.Prelude.{
  ℕ, suc, ◌+◌, ◌≤◌, ◌<◌, ◌≡◌, Bool, true, false, Option, none, some, List, [], ◌∷◌, ◌++◌, ◌==◌, ltb,
  leb, if◌then◌else◌, length, length-append, Result, ok, err, arith, refl, Bool-cases, inl, inr,
}
use google_antigravity_cycle.Prelude.Exec.{Exec, pure, gets, modify, ok_or, ◌>>=◌, ◌>>◌}
use google_antigravity_cycle.Prelude.Text.{Text}

abbrev pub Timestamp : Type 0
Timestamp = ℕ

abbrev pub ContentDigest : Type 0
ContentDigest = List ℕ

pub record RequestAmendment : Type 0 where
  pub sequence : ℕ
  pub text : Text
  pub received_at : Timestamp

pub record RequestRecord : Type 0 where
  pub original_text : Text
  pub attachment_hashes : List ContentDigest
  pub amendments : List RequestAmendment

pub data RequestError : Type 0 where
  invalid_amendment_sequence too_many_amendments : RequestError

unfoldable pub new : Text → List ContentDigest → RequestRecord
new original_text attachment_hashes = record {
  original_text = original_text;
  attachment_hashes = attachment_hashes;
  amendments = [];
}

-- `u32::try_from(n)` and `checked_add(1)`: the number of the amendment at an index.
unfoldable pub sequence_at : ℕ → Option ℕ
sequence_at index = if ltb index 4294967295 then some (index + 1) else none

unfoldable pub append_amendment : Text → Timestamp → Exec RequestRecord RequestError (Unit {0})
unfolding sequence_at
append_amendment text received_at = do
  count ← gets (λ r. length r.amendments)
  sequence ← ok_or too_many_amendments (sequence_at count)
  modify (λ r. record r {
    amendments =
        r.amendments ++ record { sequence = sequence; text = text; received_at = received_at } ∷ [];
  })

-- The loop of `try_from` from an index on.
check_sequence : ℕ → List RequestAmendment → Option RequestError
unfolding sequence_at
check_sequence index [] = none
check_sequence index (a ∷ rest) =
    let later = check_sequence (index + 1) rest in
    elim (sequence_at index) [
      | none ↦ some too_many_amendments
      | some expected ↦ if a.sequence == expected then later else some invalid_amendment_sequence
    ]

-- What deserialisation makes of an unchecked record.
unfoldable pub try_from : RequestRecord → Result RequestRecord RequestError
unfolding check_sequence
try_from r = elim (check_sequence 0 r.amendments) [ none ↦ ok r | some e ↦ err e ]
