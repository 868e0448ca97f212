-- ===== src/Ipc/Frame/Format.antt =====
-- The format of a stream of frames, independently of the decoder of crates/workflow-ipc/src/frame.rs.
use google_antigravity_cycle.Prelude.{
  ℕ, ◌≤◌, ◌<◌, ◌≡◌, List, [], ◌∷◌, ◌++◌, arith, length, refl, ap, sym, ◌∙◌,
}
use mathlib.Core.List.{append_assoc}
use google_antigravity_cycle.Ipc.Frame.{to_be_bytes, from_be_bytes, max_frame_bytes}

abbrev pub IsByte : ℕ → Type 0
IsByte b = b < 256

-- A payload that may be framed.
abbrev pub Fits : List ℕ → Type 0
Fits p = (0 < length p) × (length p ≤ max_frame_bytes)

abbrev pub framed : List ℕ → List ℕ
framed p = to_be_bytes (length p) ++ p

-- The bytes of a sequence of payloads.
unfoldable pub stream : List (List ℕ) → List ℕ
stream [] = []
stream (p ∷ ps) = framed p ++ stream ps

pub stream-append : (ps qs : List (List ℕ)) → stream (ps ++ qs) ≡ stream ps ++ stream qs
unfolding stream
stream-append [] qs = refl
stream-append (p ∷ ps) qs =
    ap (λ t. framed p ++ t) (stream-append ps qs)
    ∙ sym (append_assoc (framed p) (stream ps) (stream qs))

pub from-to_be_bytes : (n : ℕ) → n ≤ max_frame_bytes → from_be_bytes (to_be_bytes n) ≡ n
from-to_be_bytes n h = omega arith

pub to-from_be_bytes :
    (a b c d : ℕ)
    → IsByte a
    → IsByte b
    → IsByte c
    → IsByte d
    → to_be_bytes (from_be_bytes (a ∷ b ∷ c ∷ d ∷ [])) ≡ a ∷ b ∷ c ∷ d ∷ []
to-from_be_bytes a b c d ha hb hc hd = ground arith
