-- ===== src/Core/Request/Laws.antt =====
-- crates/workflow-core/src/request.rs: appended amendments are read back by deserialisation.
use google_antigravity_cycle.Prelude.{
  ℕ, ◌+◌, ◌≤◌, ◌≡◌, ◌⊎◌, none, some, List, [], ◌∷◌, ◌++◌, length, ok, err, arith, refl,
}
use google_antigravity_cycle.Prelude.Text.{Text}
use google_antigravity_cycle.Core.Request.{
  RequestRecord, RequestAmendment, Timestamp, ContentDigest, new, append_amendment, sequence_at,
  check_sequence, try_from, too_many_amendments,
}

check_sequence-append :
    (index : ℕ) (l : List RequestAmendment) (a : RequestAmendment)
    → check_sequence index l ≡ none
    → sequence_at (index + length l) ≡ some a.sequence
    → check_sequence index (l ++ a ∷ []) ≡ none
unfolding check_sequence
check_sequence-append index [] a h s = ground arith
check_sequence-append index (b ∷ bs) a h s = ground (arith, check_sequence-append (index + 1) bs a)

accepted : (r : RequestRecord) → try_from r ≡ ok r → check_sequence 0 r.amendments ≡ none
unfolding try_from
accepted r h = ground arith

-- A new record is read back.
pub try_from-new :
    (text : Text) (hashes : List ContentDigest) → try_from (new text hashes) ≡ ok (new text hashes)
unfolding try_from new
try_from-new text hashes = refl

-- A record that is read back unchanged is still so with an amendment appended, which carries the
-- next number of the sequence; only the full sequence of numbers refuses one.
pub try_from-append_amendment :
    (r : RequestRecord) (text : Text) (at : Timestamp)
    → try_from r ≡ ok r
    → let (result, after) = append_amendment text at r in
      (try_from after ≡ ok after)
      × (((result ≡ ok tt)
            × (after.amendments
                ≡ r.amendments
                  ++ record { sequence = length r.amendments + 1; text = text; received_at = at }
                    ∷ []))
          ⊎ ((result ≡ err too_many_amendments) × (4294967295 ≤ length r.amendments) × (after ≡ r)))
unfolding append_amendment try_from
try_from-append_amendment r text at h =
    let next : RequestAmendment = record {
      sequence = length r.amendments + 1;
      text = text;
      received_at = at;
    } in
    ground (arith, accepted r h, check_sequence-append 0 r.amendments next)

-- Deserialisation changes no record that it accepts.
pub try_from-unchanged : (r s : RequestRecord) → try_from r ≡ ok s → s ≡ r
unfolding try_from
try_from-unchanged r s h = ground arith
