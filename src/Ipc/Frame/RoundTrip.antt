-- ===== src/Ipc/Frame/RoundTrip.antt =====
-- crates/workflow-ipc/src/frame.rs: what was framed is decoded, however the bytes are cut in chunks.
use google_antigravity_cycle.Prelude.{
  ℕ, ◌≤◌, ◌≡◌, ◌≢◌, Option, none, some, List, [], ◌∷◌, ◌++◌, All, All-append_right, append_inj,
  Result, ok, err, length-append, arith, length, refl, ap, ap₂, sym, ◌∙◌,
}
use mathlib.Core.List.{append_assoc, append-nil, flatten}
use google_antigravity_cycle.Prelude.Text.{Text}
use google_antigravity_cycle.Ipc.Frame.{
  Json, encode_frame, frame_payload, DecodeState, header, payload, poisoned, Fed, feed, new,
  to_be_bytes, from_be_bytes, max_frame_bytes,
}
use google_antigravity_cycle.Ipc.Frame.Format.{IsByte, Fits, framed, stream, from-to_be_bytes}
use google_antigravity_cycle.Ipc.Frame.Sound.{taken, IsOpen, IsBad, Explained, feed-Explained}

same_header :
    (n m : ℕ) {x y : List ℕ}
    → n ≤ max_frame_bytes
    → m ≤ max_frame_bytes
    → to_be_bytes n ++ x ≡ to_be_bytes m ++ y
    → (n ≡ m) × (x ≡ y)
same_header n m hn hm h =
    let (e, r) = append_inj (to_be_bytes n) (to_be_bytes m) refl h in
    (sym (from-to_be_bytes n hn) ∙ ap from_be_bytes e ∙ from-to_be_bytes m hm, r)

-- A stream of payloads that begins with whole frames goes on as a stream of the other payloads.
split_stream :
    (ps fs : List (List ℕ)) {u : List ℕ}
    → All Fits ps
    → All Fits fs
    → stream ps ≡ stream fs ++ u
    → (qs : List (List ℕ)) × (ps ≡ fs ++ qs) × (u ≡ stream qs)
unfolding stream
split_stream ps [] hp hf h = (ps, refl, sym h)
split_stream [] (f ∷ fs) hp hf h = cc
split_stream (p ∷ ps) (f ∷ fs) {u} hp hf h =
    let whole : to_be_bytes (length p) ++ (p ++ stream ps)
        ≡ to_be_bytes (length f) ++ (f ++ (stream fs ++ u)) =
      h ∙ ap (λ t. to_be_bytes (length f) ++ t) (append_assoc f (stream fs) u) in
    let (e, bodies) = same_header (length p) (length f) hp.0.1 hf.0.1 whole in
    let (same, rest) = append_inj p f e bodies in
    let (qs, more, last) = split_stream ps fs hp.1 hf.1 rest in
    (qs, ap₂ (λ q t. q ∷ t) same more, last)

-- No stream goes on with a header that is bad.
not_bad : (qs : List (List ℕ)) (hdr y : List ℕ) → All Fits qs → IsBad hdr → stream qs ≢ hdr ++ y
unfolding stream
not_bad [] hdr y hq bad h = omega (arith, ap length h, length-append hdr y)
not_bad (q ∷ qs) hdr y hq bad h =
    let e : to_be_bytes (length q) ≡ hdr =
      (append_inj (to_be_bytes (length q)) hdr {x = q ++ stream qs} (sym bad.0) h).0 in
    let n : from_be_bytes hdr ≡ length q =
      ap from_be_bytes (sym e) ∙ from-to_be_bytes (length q) hq.0.1 in
    omega arith

-- A decoder that has taken whole frames, and nothing else, waits for a header.
at_rest :
    (s : DecodeState) (qs : List (List ℕ))
    → All Fits qs
    → IsOpen s
    → taken s ≡ stream qs
    → (s ≡ new) × (qs ≡ [])
unfolding stream
at_rest (header []) [] hq o h = (refl, refl)
at_rest (header (b ∷ bs)) [] hq o h = cc
at_rest (header bytes) (q ∷ qs) hq o h = absurd (omega (arith, ap length h))
at_rest (payload bytes n) [] hq o h = cc
at_rest (payload bytes n) (q ∷ qs) hq o h =
    let (e, rest) = same_header n (length q) o.1 hq.0.1 h in
    absurd (omega (arith, ap length rest, length-append q (stream qs)))
at_rest poisoned qs hq o h = absurd o

-- `feed` called on one chunk after another: the frames of all the calls, up to the first error.
prepend : List (List ℕ) → Option Fed → Option Fed
prepend front none = none
prepend front (some (ok fs, s)) = some (ok (front ++ fs), s)
prepend front (some (err e, s)) = some (err e, s)

resume : Option Fed → (DecodeState → Option Fed) → Option Fed
resume none later = none
resume (some (ok fs, s)) later = prepend fs (later s)
resume (some (err e, s)) later = some (err e, s)

pub feed_all : DecodeState → List (List ℕ) → Option Fed
unfolding resume
feed_all s [] = some (ok [], s)
feed_all s (chunk ∷ chunks) = resume (feed s chunk) (λ s'. feed_all s' chunks)

resume-stream :
    (s : DecodeState) (chunk rest : List ℕ) (ps : List (List ℕ)) (r : Option Fed)
    (later : DecodeState → Option Fed)
    → All Fits ps
    → taken s ++ (chunk ++ rest) ≡ stream ps
    → Explained s chunk [] r
    → ((s' : DecodeState) (qs : List (List ℕ))
        → All Fits qs
        → IsOpen s'
        → taken s' ++ rest ≡ stream qs
        → later s' ≡ some (ok qs, new))
    → resume r later ≡ some (ok ps, new)
unfolding resume prepend
resume-stream s chunk rest ps none later hp h x ih = absurd x
resume-stream s chunk rest ps (some (ok fs, s')) later hp h (frames, e, acc) ih =
    let whole : stream ps ≡ stream frames ++ (taken s' ++ rest) =
      sym h
      ∙ sym (append_assoc (taken s) chunk rest)
      ∙ ap (λ t. t ++ rest) acc.same
      ∙ append_assoc (stream frames) (taken s') rest in
    let (qs, split, last) = split_stream ps frames hp acc.fits whole in
    rw (ih s' qs (All-append_right Fits frames qs (rw split at hp)) acc.is_open last, e)
      (ap (λ t. some (ok t, new)) (sym split))
resume-stream s chunk rest ps (some (err e, s')) later hp h x ih =
    let whole : stream ps ≡ stream x.frames ++ (x.hdr ++ (x.rest ++ rest)) =
      sym h
      ∙ sym (append_assoc (taken s) chunk rest)
      ∙ ap (λ t. t ++ rest) x.same
      ∙ append_assoc (stream x.frames) (x.hdr ++ x.rest) rest
      ∙ ap (λ t. stream x.frames ++ t) (append_assoc x.hdr x.rest rest) in
    let (qs, split, last) = split_stream ps x.frames hp x.fits whole in
    absurd (
      not_bad qs x.hdr (x.rest ++ rest) (All-append_right Fits x.frames qs (rw split at hp)) x.bad
        (sym last))

-- From any state that is not poisoned: if what the decoder has taken and the chunks, which are of
-- bytes, together are the framed bytes of some payloads that fit in a frame, then feeding the chunks
-- returns these payloads, in order, and leaves the decoder as new.
pub feed_all-stream :
    (chunks : List (List ℕ)) (s : DecodeState) (ps : List (List ℕ))
    → All Fits ps
    → IsOpen s
    → All (All IsByte) chunks
    → taken s ++ flatten chunks ≡ stream ps
    → feed_all s chunks ≡ some (ok ps, new)
unfolding feed_all flatten stream
feed_all-stream [] s ps hp o hb h =
    let (e, none_left) = at_rest s ps hp o (sym (append-nil (taken s)) ∙ h) in rw (e, none_left)
feed_all-stream (chunk ∷ chunks) s ps hp o hb h =
    resume-stream s chunk (flatten chunks) ps (feed s chunk) (λ s'. feed_all s' chunks) hp h
      (feed-Explained s chunk o hb.0) (λ s' qs hq o' h'. feed_all-stream chunks s' qs hq o' hb.1 h')

module _ {A : Type 0} (serde : Json A) where
  -- A frame that `encode_frame` returns is the payload of its value, framed, and fits.
  pub encode_frame-framed :
      (value : A) {frame : List ℕ}
      → encode_frame serde value ≡ ok frame
      → (p : List ℕ) × (serde.to_vec value ≡ ok p) × Fits p × (frame ≡ framed p)
  unfolding encode_frame
  encode_frame-framed value h = encoded (serde.to_vec value) refl h
    where
      encoded :
          (r : Result (List ℕ) Text) {frame : List ℕ}
          → serde.to_vec value ≡ r
          → frame_payload serde r ≡ ok frame
          → (p : List ℕ) × (serde.to_vec value ≡ ok p) × Fits p × (frame ≡ framed p)
      encoded (ok p) e h = (p, e, ground arith, ground arith)
      encoded (err m) e h = cc
