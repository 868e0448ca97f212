-- ===== src/Core/Digest/Hex.antt =====
-- crates/workflow-core/src/digest.rs: a digest is read back from its hexadecimal form.
use google_antigravity_cycle.Prelude.{
  ℕ, ◌*◌, ◌/◌, ◌%◌, ◌≡◌, ◌<◌, true, false, not, [], ◌∷◌, ◌==◌, length, any, All, ok, arith, refl,
  ap,
}
use google_antigravity_cycle.Prelude.Text.{as_bytes, byte_length, utf8}
use google_antigravity_cycle.Core.Digest.{
  ContentDigest, display, from_str, parse_pairs, hex_digit, digit_value, is_hex,
}

hex_digit-is_hex : (n : ℕ) → n < 16 → is_hex (hex_digit n) ≡ true
hex_digit-is_hex n h = ground arith

digit_value-hex_digit : (n : ℕ) → n < 16 → digit_value (hex_digit n) ≡ n
digit_value-hex_digit n h = ground arith

utf8-hex_digit : (n : ℕ) → n < 16 → utf8 (hex_digit n) ≡ hex_digit n ∷ []
unfolding utf8
utf8-hex_digit n h = ground arith

as_bytes-display : (d : ContentDigest) → All (λ b. b < 256) d → as_bytes (display d) ≡ display d
unfolding as_bytes display
as_bytes-display [] h = refl
as_bytes-display (b ∷ bs) h = rw (
  utf8-hex_digit (b / 16) (omega (arith, h.0)),
  utf8-hex_digit (b % 16) (omega arith),
  as_bytes-display bs h.1,
)

length-display : (d : ContentDigest) → length (display d) ≡ 2 * length d
unfolding display
length-display [] = refl
length-display (b ∷ bs) = omega (arith, length-display bs)

display-hex :
    (d : ContentDigest) → All (λ b. b < 256) d → any (λ b. not (is_hex b)) (display d) ≡ false
unfolding display
display-hex [] h = refl
display-hex (b ∷ bs) h =
    rw (hex_digit-is_hex (b / 16) (omega (arith, h.0)), hex_digit-is_hex (b % 16) (omega arith))
      (display-hex bs h.1)

parse_pairs-display : (d : ContentDigest) → All (λ b. b < 256) d → parse_pairs (display d) ≡ d
unfolding parse_pairs display
parse_pairs-display [] h = refl
parse_pairs-display (b ∷ bs) h =
    rw
      (
        digit_value-hex_digit (b / 16) (omega (arith, h.0)),
        digit_value-hex_digit (b % 16) (omega arith),
        parse_pairs-display bs h.1,
      )
      (ap (λ n. n ∷ bs) (omega arith))

-- The text of a digest of 32 bytes is parsed to that digest.
pub from_str-display :
    (d : ContentDigest) → length d ≡ 32 → All (λ b. b < 256) d → from_str (display d) ≡ ok d
unfolding from_str byte_length
from_str-display d size bytes =
    let test : (length (display d) == 64) ≡ true = ground (arith, length-display d) in
    rw (as_bytes-display d bytes, display-hex d bytes, parse_pairs-display d bytes, test)
