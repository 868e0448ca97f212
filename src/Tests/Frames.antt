-- ===== src/Tests/Frames.antt =====
-- crates/workflow-ipc/src/frame.rs on two frames in three chunks.
use google_antigravity_cycle.Prelude.{ℕ, ◌≡◌, some, List, [], ◌∷◌, ok, err, arith, refl}
use mathlib.Core.List.{flatten}
use google_antigravity_cycle.Ipc.Frame.{new, feed, Json}
use google_antigravity_cycle.Ipc.Frame.Format.{stream}
use google_antigravity_cycle.Ipc.Frame.Sound.{Explained, feed-Explained}
use google_antigravity_cycle.Ipc.Frame.RoundTrip.{feed_all, feed_all-stream}

abbrev chunks : List (List ℕ)
chunks = (0 ∷ 0 ∷ []) ∷ (0 ∷ 2 ∷ 65 ∷ []) ∷ (66 ∷ 0 ∷ 0 ∷ 0 ∷ 1 ∷ 67 ∷ []) ∷ []

abbrev payloads : List (List ℕ)
payloads = (65 ∷ 66 ∷ []) ∷ (67 ∷ []) ∷ []

feed_all-stream_example : feed_all new chunks ≡ some (ok payloads, new)
unfolding stream flatten
feed_all-stream_example =
    feed_all-stream chunks new payloads (ground arith) (ground arith) (ground arith) refl

-- A whole frame, then a header that announces nothing.
abbrev bad_input : List ℕ
bad_input = 0 ∷ 0 ∷ 0 ∷ 1 ∷ 67 ∷ 0 ∷ 0 ∷ 0 ∷ 0 ∷ []

feed-Explained_example : Explained new bad_input [] (feed new bad_input)
feed-Explained_example = feed-Explained new bad_input (ground arith) (ground arith)

-- Messages that are one byte each.
abbrev bytes : Json ℕ
bytes = record { to_vec = λ n. ok (n ∷ []); from_slice = λ p. err [] }
