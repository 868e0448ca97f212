-- ===== src/Core/Digest.antt =====
-- crates/workflow-core/src/digest.rs: the hexadecimal form of a digest, and the bytes that
-- `CanonicalHasher` feeds to SHA-256. A digest is the list of its 32 bytes.
pub mod Hex
pub mod Canonical
use google_antigravity_cycle.Prelude.{
  ℕ, ◌+◌, ◌-◌, ◌*◌, ◌/◌, ◌%◌, Bool, true, false, not, ◌&&◌, ◌||◌, Option, none, some, List, [], ◌∷◌,
  ◌++◌, ◌==◌, leb, ltb, if◌then◌else◌, length, any, Result, ok, err,
}
use google_antigravity_cycle.Prelude.Text.{Text, as_bytes, byte_length}
use google_antigravity_cycle.Prelude.Bytes.{to_be_bytes}

abbrev pub ContentDigest : Type 0
ContentDigest = List ℕ

pub data DigestParseError : Type 0 where
  digest_parse_error : DigestParseError

-- A digit of `{byte:02x}`.
abbrev pub hex_digit : ℕ → ℕ
hex_digit n = if ltb n 10 then 48 + n else 87 + n

unfoldable pub display : ContentDigest → Text
display [] = []
display (b ∷ bs) = hex_digit (b / 16) ∷ hex_digit (b % 16) ∷ display bs

abbrev pub is_hex : ℕ → Bool
is_hex b = (leb 48 b && leb b 57) || (leb 97 b && leb b 102)

-- The value of a digit, once it is known to be one.
abbrev pub digit_value : ℕ → ℕ
digit_value b = if leb b 57 then b - 48 else b - 87

-- The loop over the pairs of digits; `u8::from_str_radix` takes each.
unfoldable pub parse_pairs : Text → ContentDigest
parse_pairs (a ∷ b ∷ rest) = (digit_value a * 16 + digit_value b) ∷ parse_pairs rest
parse_pairs _ = []

unfoldable pub from_str : Text → Result ContentDigest DigestParseError
unfolding byte_length as_bytes parse_pairs
from_str value =
    if not (byte_length value == 64) || any (λ b. not (is_hex b)) (as_bytes value)
    then err digest_parse_error
    else ok (parse_pairs value)

abbrev pub write_bytes : List ℕ → List ℕ
write_bytes value = to_be_bytes (length value) ++ value

abbrev pub write_str : Text → List ℕ
write_str value = write_bytes (as_bytes value)

abbrev pub write_bool : Bool → List ℕ
write_bool true = 1 ∷ []
write_bool false = 0 ∷ []

abbrev pub write_optional_str : Option Text → List ℕ
write_optional_str none = write_bool false
write_optional_str (some value) = write_bool true ++ write_str value

abbrev pub write_digest : ContentDigest → List ℕ
write_digest value = write_bytes value

abbrev pub write_u64 : ℕ → List ℕ
write_u64 value = to_be_bytes value
