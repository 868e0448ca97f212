-- ===== src/Ipc/Frame.antt =====
-- crates/workflow-ipc/src/frame.rs: length-prefixed frames, and the decoder that is fed in chunks.
-- A byte is a number below 256. Of the header's array the model keeps the bytes that are filled in:
-- `filled` is their number, and the others are never read. JSON is a parameter.
pub mod Format
pub mod Sound
pub mod RoundTrip
use mathlib.Core.Option
use google_antigravity_cycle.Prelude.{
  ℕ, zero, suc, ◌+◌, ◌-◌, ◌*◌, ◌/◌, ◌%◌, Bool, true, false, Option, none, some, List, [], ◌∷◌, ◌++◌,
  ◌==◌, ltb, if◌then◌else◌, Result, ok, err, length, take, drop, min,
}
use google_antigravity_cycle.Prelude.Text.{Text}

abbrev pub max_frame_bytes : ℕ
max_frame_bytes = 8 * 1024 * 1024

pub data FrameError : Type 0 where
  empty : FrameError
  -- the error of serde_json, by its message
  json : Text → FrameError
  -- announced, maximum
  oversized : ℕ → ℕ → FrameError
  poisoned : FrameError

-- `u32::to_be_bytes` and `u32::from_be_bytes`.
abbrev pub to_be_bytes : ℕ → List ℕ
to_be_bytes n = (n / 16777216 % 256) ∷ (n / 65536 % 256) ∷ (n / 256 % 256) ∷ (n % 256) ∷ []

abbrev pub from_be_bytes : List ℕ → ℕ
from_be_bytes (a ∷ b ∷ c ∷ d ∷ []) = a * 16777216 + b * 65536 + c * 256 + d
from_be_bytes _ = 0

pub data DecodeState : Type 0 where
  -- the bytes filled in so far
  header : List ℕ → DecodeState
  -- the bytes so far, and the length announced
  payload : List ℕ → ℕ → DecodeState
  poisoned : DecodeState

abbrev pub new : DecodeState
new = header []

-- One round of the loop of `feed`: the state, the input left and the frames completed in it, or
-- the error that `feed` returns, with the state then.
pub data Round : Type 0 where
  advance : DecodeState → List ℕ → List (List ℕ) → Round
  fail : FrameError → DecodeState → Round

-- A header whose four bytes are there.
announce : ℕ → List ℕ → Round
announce length input =
    if length == 0
    then fail FrameError.empty poisoned
    else if ltb max_frame_bytes length
    then fail (oversized length max_frame_bytes) poisoned
    else advance (payload [] length) input []

unfoldable pub round : DecodeState → List ℕ → Round
unfolding announce
round (header bytes) input =
    let copied = min (4 - length bytes) (length input) in
    let filled = bytes ++ take copied input in
    if length filled == 4
    then announce (from_be_bytes filled) (drop copied input)
    else advance (header filled) (drop copied input) []
round (payload bytes announced) input =
    let copied = min (announced - length bytes) (length input) in
    let collected = bytes ++ take copied input in
    if length collected == announced
    then advance (header []) (drop copied input) (collected ∷ [])
    else advance (payload collected announced) (drop copied input) []
round poisoned input = fail FrameError.poisoned poisoned

abbrev pub Fed : Type 0
Fed = Result (List (List ℕ)) FrameError × DecodeState

-- `while !input.is_empty()`, with fuel; `none` means that the fuel ran out.
unfoldable pub feed_loop : ℕ → DecodeState → List ℕ → List (List ℕ) → Option Fed
feed_loop fuel s [] complete = some (ok complete, s)
feed_loop zero s (x ∷ xs) complete = none
feed_loop (suc fuel) s (x ∷ xs) complete = elim (round s (x ∷ xs)) [
  | advance s' input frames ↦ feed_loop fuel s' input (complete ++ frames)
  | fail e s' ↦ some (err e, s')
]

-- Every round takes at least one byte, so the fuel is enough.
unfoldable pub feed : DecodeState → List ℕ → Option Fed
unfolding feed_loop round
feed s input = feed_loop (length input) s input []

-- What the source uses of serde_json for a type of messages.
pub record Json (A : Type 0) : Type 0 where
  pub to_vec : A → Result (List ℕ) Text
  pub from_slice : List ℕ → Result A Text

module _ {A : Type 0} (serde : Json A) where
  -- The framing of the payload that `to_vec` has written.
  frame_payload : Result (List ℕ) Text → Result (List ℕ) FrameError
  frame_payload (err e) = err (json e)
  frame_payload (ok bytes) =
      if length bytes == 0
      then err FrameError.empty
      else if ltb max_frame_bytes (length bytes)
      then err (oversized (length bytes) max_frame_bytes)
      else ok (to_be_bytes (length bytes) ++ bytes)

  unfoldable pub encode_frame : A → Result (List ℕ) FrameError
  unfolding frame_payload
  encode_frame value = frame_payload (serde.to_vec value)

  -- The values of the frames, or the error of the first that is none.
  decode_frames : List (List ℕ) → List A → Result (List A) Text
  decode_frames [] decoded = ok decoded
  decode_frames (frame ∷ frames) decoded = elim (serde.from_slice frame) [
    | ok value ↦ decode_frames frames (decoded ++ value ∷ [])
    | err e ↦ err e
  ]

  finish : Result (List A) Text → DecodeState → Result (List A) FrameError × DecodeState
  finish (ok decoded) s = (ok decoded, s)
  finish (err e) s = (err (json e), poisoned)

  after_feed : Fed → Result (List A) FrameError × DecodeState
  unfolding finish decode_frames
  after_feed (ok frames, s) = finish (decode_frames frames []) s
  after_feed (err e, s) = (err e, s)

  unfoldable pub feed_json :
      DecodeState → List ℕ → Option (Result (List A) FrameError × DecodeState)
  unfolding after_feed
  feed_json s input = Option.map after_feed (feed s input)

unfoldable pub buffered_bytes : DecodeState → ℕ
buffered_bytes (header bytes) = length bytes
buffered_bytes (payload bytes announced) = length bytes
buffered_bytes poisoned = 0
