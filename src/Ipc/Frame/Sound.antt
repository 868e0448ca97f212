-- ===== src/Ipc/Frame/Sound.antt =====
-- crates/workflow-ipc/src/frame.rs: what one round, and one call of `feed`, make of the bytes.
use google_antigravity_cycle.Prelude.{
  ℕ, zero, suc, ◌-◌, ◌≤◌, ◌<◌, ◌≡◌, ◌⊎◌, inl, inr, Bool-cases, Option, none, some, List, [], ◌∷◌,
  ◌++◌, All, All-append, All-take, All-drop, ok, err, take, drop, length-append, length-take,
  length-drop, take-append-drop, arith, length, refl, ap, sym, ◌∙◌, min, ◌==◌, ==_iff, ltb, ltb→lt,
}
use native.Mathlib.Nat.{le_refl}
use mathlib.Core.List.{append_assoc, append-nil}
use google_antigravity_cycle.Ipc.Frame.{
  DecodeState, header, payload, poisoned, Round, advance, fail, announce, round, Fed, feed_loop,
  feed, to_be_bytes, from_be_bytes, max_frame_bytes,
}
use google_antigravity_cycle.Ipc.Frame.Format.{
  IsByte, Fits, stream, stream-append, to-from_be_bytes,
}

-- The bytes that the decoder has taken of the frame that has begun.
abbrev pub taken : DecodeState → List ℕ
taken (header bytes) = bytes
taken (payload bytes announced) = to_be_bytes announced ++ bytes
taken poisoned = []

abbrev pub IsOpen : DecodeState → Type 0
IsOpen (header bytes) = (length bytes < 4) × All IsByte bytes
IsOpen (payload bytes announced) = (length bytes < announced) × (announced ≤ max_frame_bytes)
IsOpen poisoned = ⊥

-- Four bytes that announce no length that is allowed.
abbrev pub IsBad : List ℕ → Type 0
IsBad hdr = (length hdr ≡ 4) × ((from_be_bytes hdr ≡ 0) ⊎ (max_frame_bytes < from_be_bytes hdr))

-- What a round that goes on has done.
record Advances (s : DecodeState) (input : List ℕ) (s' : DecodeState) (rest : List ℕ)
    (frames : List (List ℕ)) : Type 0 where
  is_open : IsOpen s'
  bytes : All IsByte rest
  fits : All Fits frames
  same : taken s ++ input ≡ stream frames ++ (taken s' ++ rest)
  shorter : length rest < length input

record Fails (s : DecodeState) (input : List ℕ) (s' : DecodeState) : Type 0 where
  closed : s' ≡ poisoned
  hdr : List ℕ
  rest : List ℕ
  bad : IsBad hdr
  same : taken s ++ input ≡ hdr ++ rest

abbrev Outcome : DecodeState → List ℕ → Round → Type 0
Outcome s input (advance s' rest frames) = Advances s input s' rest frames
Outcome s input (fail e s') = Fails s input s'

regroup : (bs input : List ℕ) (n : ℕ) → bs ++ input ≡ (bs ++ take n input) ++ drop n input
regroup bs input n = rw append_assoc (rw take-append-drop)

announced :
    (bytes input hdr rest : List ℕ) (n : ℕ)
    → length hdr ≡ 4
    → from_be_bytes hdr ≡ n
    → (n ≤ max_frame_bytes → to_be_bytes n ≡ hdr)
    → All IsByte rest
    → bytes ++ input ≡ hdr ++ rest
    → length rest < length input
    → Outcome (header bytes) input (announce n rest)
unfolding announce
announced bytes input hdr rest n e hn back rb same short = elim (Bool-cases (n == 0)) [
  | inl z ↦ rw z (record {
    closed = refl;
    hdr = hdr;
    rest = rest;
    bad = (e, inl (hn ∙ (==_iff n 0).0 z));
    same = same;
  })
  | inr p ↦ rw p (elim (Bool-cases (ltb max_frame_bytes n)) [
    | inl big ↦ rw big (record {
      closed = refl;
      hdr = hdr;
      rest = rest;
      bad = (e, inr (omega (arith, ltb→lt max_frame_bytes n big)));
      same = same;
    })
    | inr fits ↦
        let le : n ≤ max_frame_bytes = ground arith in
        rw fits (record {
          is_open = (ground arith, le);
          bytes = rb;
          fits = tt;
          same =
              unfold stream in
              same ∙ ap (λ t. t ++ rest) (sym (back le) ∙ sym (append-nil (to_be_bytes n)));
          shorter = short;
        })
  ])
]

back_to_bytes :
    (hdr : List ℕ) → length hdr ≡ 4 → All IsByte hdr → to_be_bytes (from_be_bytes hdr) ≡ hdr
back_to_bytes (a ∷ b ∷ c ∷ d ∷ []) e (ha, (hb, (hc, (hd, _)))) =
    to-from_be_bytes a b c d ha hb hc hd
back_to_bytes _ e h = absurd (omega arith)

round_header :
    (bytes input : List ℕ)
    → IsOpen (header bytes)
    → All IsByte input
    → 0 < length input
    → Outcome (header bytes) input (round (header bytes) input)
unfolding round
round_header bytes input (small, hb) hi pos =
    let copied = min (4 - length bytes) (length input) in
    let filled = bytes ++ take copied input in
    let rest = drop copied input in
    let hf : All IsByte filled =
      All-append IsByte bytes (take copied input) hb (All-take IsByte copied input hi) in
    let short : length rest < length input = omega (arith, length-drop copied input) in
    elim (Bool-cases (length filled == 4)) [
      | inl four ↦
          let e : length filled ≡ 4 = (==_iff (length filled) 4).0 four in
          rw four (
            announced bytes input filled rest (from_be_bytes filled) e refl
              (λ _. back_to_bytes filled e hf) (All-drop IsByte copied input hi)
              (regroup bytes input copied) short)
      | inr more ↦ rw more (record {
        is_open =
            (ground (arith, length-append bytes (take copied input), length-take copied input), hf);
        bytes = All-drop IsByte copied input hi;
        fits = tt;
        same = unfold stream in regroup bytes input copied;
        shorter = short;
      })
    ]

round_payload :
    (bytes input : List ℕ) (n : ℕ)
    → IsOpen (payload bytes n)
    → All IsByte input
    → 0 < length input
    → Outcome (payload bytes n) input (round (payload bytes n) input)
unfolding round
round_payload bytes input n (small, max) hi pos =
    let copied = min (n - length bytes) (length input) in
    let collected = bytes ++ take copied input in
    let rest = drop copied input in
    let short : length rest < length input = omega (arith, length-drop copied input) in
    let same : (to_be_bytes n ++ bytes) ++ input ≡ (to_be_bytes n ++ collected) ++ rest =
      append_assoc (to_be_bytes n) bytes input
      ∙ ap (λ t. to_be_bytes n ++ t) (regroup bytes input copied)
      ∙ sym (append_assoc (to_be_bytes n) collected rest) in
    elim (Bool-cases (length collected == n)) [
      | inl full ↦
          let e : length collected ≡ n = (==_iff (length collected) n).0 full in
          rw full (record {
            is_open = (omega arith, tt);
            bytes = All-drop IsByte copied input hi;
            fits = ((omega arith, omega arith), tt);
            same = unfold stream in rw (e, append-nil) same;
            shorter = short;
          })
      | inr more ↦ rw more (record {
        is_open = (
          ground (arith, length-append bytes (take copied input), length-take copied input),
          max,
        );
        bytes = All-drop IsByte copied input hi;
        fits = tt;
        same = unfold stream in same;
        shorter = short;
      })
    ]

round-Outcome :
    (s : DecodeState) (input : List ℕ)
    → IsOpen s
    → All IsByte input
    → 0 < length input
    → Outcome s input (round s input)
round-Outcome (header bytes) input o hi pos = round_header bytes input o hi pos
round-Outcome (payload bytes n) input o hi pos = round_payload bytes input n o hi pos
round-Outcome poisoned input o hi pos = absurd o

-- What a call of `feed` that returns frames has done: every byte is accounted for.
pub record Accounts (s : DecodeState) (input : List ℕ) (s' : DecodeState) (frames : List (List ℕ))
    : Type 0 where
  pub is_open : IsOpen s'
  pub fits : All Fits frames
  pub same : taken s ++ input ≡ stream frames ++ taken s'

-- What a call of `feed` that returns an error has done: after whole frames stands a bad header.
pub record Refuses (s : DecodeState) (input : List ℕ) (s' : DecodeState) : Type 0 where
  pub closed : s' ≡ poisoned
  pub frames : List (List ℕ)
  pub fits : All Fits frames
  pub hdr : List ℕ
  pub rest : List ℕ
  pub bad : IsBad hdr
  pub same : taken s ++ input ≡ stream frames ++ (hdr ++ rest)

-- The result of `feed`, with the frames of the calls before it in front.
abbrev pub Explained : DecodeState → List ℕ → List (List ℕ) → Option Fed → Type 0
Explained s input complete none = ⊥
Explained s input complete (some (ok fs, s')) =
    (frames : List (List ℕ)) × (fs ≡ complete ++ frames) × Accounts s input s' frames
Explained s input complete (some (err e, s')) = Refuses s input s'

shift :
    (front frames : List (List ℕ)) (after : List ℕ) {whole rest : List ℕ}
    → whole ≡ stream front ++ rest
    → rest ≡ stream frames ++ after
    → whole ≡ stream (front ++ frames) ++ after
shift front frames after p q =
    p
    ∙ ap (λ t. stream front ++ t) q
    ∙ sym (append_assoc (stream front) (stream frames) after)
    ∙ ap (λ t. t ++ after) (sym (stream-append front frames))

follow :
    {s s1 : DecodeState} {input rest : List ℕ} {front : List (List ℕ)} (complete : List (List ℕ))
    (r : Option Fed)
    → Advances s input s1 rest front
    → Explained s1 rest (complete ++ front) r
    → Explained s input complete r
follow complete none adv x = x
follow {front} complete (some (ok fs, s')) adv (frames, e, acc) = (
  front ++ frames,
  e ∙ append_assoc complete front frames,
  record {
    is_open = acc.is_open;
    fits = All-append Fits front frames adv.fits acc.fits;
    same = shift front frames (taken s') adv.same acc.same;
  },
)
follow {front} complete (some (err e, s')) adv x = record {
  closed = x.closed;
  frames = front ++ x.frames;
  fits = All-append Fits front x.frames adv.fits x.fits;
  hdr = x.hdr;
  rest = x.rest;
  bad = x.bad;
  same = shift front x.frames (x.hdr ++ x.rest) adv.same x.same;
}

after_round :
    (fuel : ℕ) (s : DecodeState) (input : List ℕ) (complete : List (List ℕ)) (r : Round)
    → Outcome s input r
    → ((s1 : DecodeState) (rest : List ℕ) (front : List (List ℕ))
        → Advances s input s1 rest front
        → Explained s1 rest (complete ++ front) (feed_loop fuel s1 rest (complete ++ front)))
    → Explained s input complete (elim r [
      | advance s' rest frames ↦ feed_loop fuel s' rest (complete ++ frames)
      | fail e s' ↦ some (err e, s')
    ])
after_round fuel s input complete (advance s1 rest front) adv ih =
    follow complete (feed_loop fuel s1 rest (complete ++ front)) adv (ih s1 rest front adv)
after_round fuel s input complete (fail e s') f ih = record {
  closed = f.closed;
  frames = [];
  fits = tt;
  hdr = f.hdr;
  rest = f.rest;
  bad = f.bad;
  same = unfold stream in f.same;
}

feed_loop-Explained :
    (fuel : ℕ) (s : DecodeState) (input : List ℕ) (complete : List (List ℕ))
    → length input ≤ fuel
    → IsOpen s
    → All IsByte input
    → Explained s input complete (feed_loop fuel s input complete)
unfolding feed_loop
feed_loop-Explained fuel s [] complete enough o hi = (
  [],
  sym (append-nil complete),
  record { is_open = o; fits = tt; same = unfold stream in append-nil (taken s) },
)
feed_loop-Explained zero s (x ∷ xs) complete enough o hi = absurd (omega arith)
feed_loop-Explained (suc fuel) s (x ∷ xs) complete enough o hi =
    after_round fuel s (x ∷ xs) complete (round s (x ∷ xs))
      (round-Outcome s (x ∷ xs) o hi (omega arith))
      (λ s1 rest front adv.
        feed_loop-Explained fuel s1 rest (complete ++ front) (omega (arith, adv.shorter))
          adv.is_open adv.bytes)

-- Fed with bytes, a decoder that is not poisoned returns. Either it returns frames, and what it
-- has taken before and the input are those frames, framed, and what it has taken after; or it
-- returns an error and is poisoned, and those bytes are whole frames, then a header that announces
-- a length of zero or above the maximum, then the rest.
pub feed-Explained :
    (s : DecodeState) (input : List ℕ)
    → IsOpen s
    → All IsByte input
    → Explained s input [] (feed s input)
unfolding feed
feed-Explained s input o hi = feed_loop-Explained (length input) s input [] (le_refl _) o hi
