-- ===== src/Core/Digest/Canonical.antt =====
-- crates/workflow-core/src/digest.rs: what is written to the hasher can be told apart from what comes
-- after it.
use google_antigravity_cycle.Prelude.{
  ℕ, ◌≡◌, ◌<◌, Bool, Option, none, some, List, [], ◌∷◌, ◌++◌, length, arith, refl, ap, append_inj,
}
use google_antigravity_cycle.Prelude.Bytes.{u64_bound, to_be_bytes, to_be_bytes_inj}
use google_antigravity_cycle.Prelude.Text.{Text, as_bytes}
use google_antigravity_cycle.Core.Digest.{write_bytes, write_bool, write_u64, write_optional_str}

append_assoc : (a b c : List ℕ) → (a ++ b) ++ c ≡ a ++ (b ++ c)
append_assoc [] b c = refl
append_assoc (x ∷ a) b c = ap (λ r. x ∷ r) (append_assoc a b c)

pub write_u64_inj :
    (n m : ℕ) (x y : List ℕ)
    → n < u64_bound
    → m < u64_bound
    → write_u64 n ++ x ≡ write_u64 m ++ y
    → (n ≡ m) × (x ≡ y)
write_u64_inj n m x y hn hm e =
    let (number, rest) = append_inj (to_be_bytes n) (to_be_bytes m) refl e in
    (to_be_bytes_inj n m hn hm number, rest)

pub write_bytes_inj :
    (a b x y : List ℕ)
    → length a < u64_bound
    → length b < u64_bound
    → write_bytes a ++ x ≡ write_bytes b ++ y
    → (a ≡ b) × (x ≡ y)
write_bytes_inj a b x y ha hb e =
    let (same, rest) = write_u64_inj (length a) (length b) (a ++ x) (b ++ y) ha hb e in
    append_inj a b same rest

pub write_bool_inj :
    (a b : Bool) (x y : List ℕ) → write_bool a ++ x ≡ write_bool b ++ y → (a ≡ b) × (x ≡ y)
write_bool_inj a b x y e = ground arith

-- The bytes of a text that may be missing.
abbrev pub optional_bytes : Option Text → Option (List ℕ)
optional_bytes none = none
optional_bytes (some t) = some (as_bytes t)

-- A length that fits in a `u64`.
abbrev pub Fits : Option (List ℕ) → Type 0
Fits none = Unit {0}
Fits (some b) = length b < u64_bound

pub write_optional_str_inj :
    (a b : Option Text) (x y : List ℕ)
    → Fits (optional_bytes a)
    → Fits (optional_bytes b)
    → write_optional_str a ++ x ≡ write_optional_str b ++ y
    → (optional_bytes a ≡ optional_bytes b) × (x ≡ y)
write_optional_str_inj none none x y ha hb e =
    let (_, r) = append_inj (0 ∷ []) (0 ∷ []) refl e in (refl, r)
write_optional_str_inj none (some b) x y ha hb e = absurd (ground arith)
write_optional_str_inj (some a) none x y ha hb e = absurd (ground arith)
write_optional_str_inj (some a) (some b) x y ha hb e =
    let (_, r) = append_inj (1 ∷ []) (1 ∷ []) refl e in
    let (same, rest) = write_bytes_inj (as_bytes a) (as_bytes b) x y ha hb r in (ap some same, rest)
