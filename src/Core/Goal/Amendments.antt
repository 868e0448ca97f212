-- ===== src/Core/Goal/Amendments.antt =====
-- crates/workflow-core/src/goal.rs: amendments of the request that a goal owns.
use google_antigravity_cycle.Prelude.{
  ◌+◌, ◌≤◌, ◌<◌, Bool, ◌≡◌, ◌⊎◌, ◌||◌, inl, inr, true, false, Bool-cases, Result-cases, [], ◌∷◌,
  ◌++◌, length, ltb, ok, err, arith, refl,
}
use google_antigravity_cycle.Prelude.Text.{Text, is_blank, byte_length}
use google_antigravity_cycle.Core.Request
use google_antigravity_cycle.Core.Request.{RequestRecord, Timestamp, too_many_amendments}
use google_antigravity_cycle.Core.Request.Laws.{try_from-append_amendment, try_from-unchanged}
use google_antigravity_cycle.Core.Goal.{
  Goal, append_amendment, deserialize, try_from, is_terminal, invalid_transition, request_error,
  max_objective_bytes,
}

-- What refuses every amendment: the goal has ended, or the text is blank or too long.
abbrev pub is_refused : Goal → Text → Bool
is_refused g text =
    is_terminal g.state || is_blank text || ltb max_objective_bytes (byte_length text)

-- The request with one amendment more, under the next number.
abbrev pub amended : RequestRecord → Text → Timestamp → RequestRecord
amended r text at = record r {
  amendments =
      r.amendments
      ++ record { sequence = length r.amendments + 1; text = text; received_at = at } ∷ [];
}

append_amendment-room :
    (r : RequestRecord) (text : Text) (at : Timestamp)
    → ltb (length r.amendments) 4294967295 ≡ true
    → Request.append_amendment text at r ≡ (ok tt, amended r text at)
unfolding Request.append_amendment
append_amendment-room r text at room = rw room refl

append_amendment-full :
    (r : RequestRecord) (text : Text) (at : Timestamp)
    → ltb (length r.amendments) 4294967295 ≡ false
    → Request.append_amendment text at r ≡ (err too_many_amendments, r)
unfolding Request.append_amendment
append_amendment-full r text at full = rw full refl

-- The request of a goal that is read back unchanged is itself read back unchanged.
request_read_back : (g : Goal) → deserialize g ≡ ok g → Request.try_from g.request ≡ ok g.request
unfolding deserialize
request_read_back g h = elim (Result-cases (Request.try_from g.request)) [
  | inr (e, p) ↦ absurd (ground (arith, p))
  | inl (r, p) ↦ ground (arith, p, try_from-unchanged g.request r p)
]

-- A goal that is read back unchanged is still so with an amendment.
with_request :
    (g : Goal) (r : RequestRecord)
    → deserialize g ≡ ok g
    → Request.try_from r ≡ ok r
    → r.original_text ≡ g.request.original_text
    → deserialize (record g { request = r }) ≡ ok (record g { request = r })
unfolding deserialize try_from
with_request g r h k same = ground (arith, request_read_back g h)

amended_read_back :
    (g : Goal) (text : Text) (at : Timestamp)
    → deserialize g ≡ ok g
    → ltb (length g.request.amendments) 4294967295 ≡ true
    → Request.try_from (amended g.request text at) ≡ ok (amended g.request text at)
amended_read_back g text at h room =
    rw (append_amendment-room g.request text at room) at
      (try_from-append_amendment g.request text at (request_read_back g h)).0

-- A goal that is read back unchanged is still so after `append_amendment`, whatever that returns. The
-- amendment is appended with the next number, and nothing else changes, exactly where the goal has
-- not ended, the text is neither blank nor above eight megabytes, and the numbers are not used up;
-- elsewhere the goal stays as it was, beside the error.
pub deserialize-append_amendment :
    (g : Goal) (text : Text) (at : Timestamp)
    → deserialize g ≡ ok g
    → let (result, after) = append_amendment text at g in
      (deserialize after ≡ ok after)
      × (((result ≡ ok tt)
            × (is_refused g text ≡ false)
            × (length g.request.amendments < 4294967295)
            × (after ≡ record g { request = amended g.request text at }))
          ⊎ ((after ≡ g)
              × (((result ≡ err invalid_transition) × (is_refused g text ≡ true))
                  ⊎ ((result ≡ err (request_error too_many_amendments))
                      × (is_refused g text ≡ false)
                      × (4294967295 ≤ length g.request.amendments)))))
unfolding append_amendment
deserialize-append_amendment g text at h = elim (Bool-cases (is_refused g text)) [
  | inl y ↦ rw y (h, inr (refl, inl (refl, refl)))
  | inr n ↦ rw n (elim (Bool-cases (ltb (length g.request.amendments) 4294967295)) [
    | inl room ↦
        let next = amended g.request text at in
        rw (append_amendment-room g.request text at room) (
          with_request g next h (amended_read_back g text at h room) refl,
          inl (refl, refl, ground (arith, room), refl),
        )
    | inr full ↦
        rw (append_amendment-full g.request text at full)
          (h, inr (refl, inr (refl, refl, ground (arith, full))))
  ])
]
