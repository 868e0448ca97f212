-- ===== src/Prelude/Bytes.antt =====
-- Rust's `u64::to_be_bytes`.
use Prim.Native.Nat.{ℕ, ◌+◌, ◌*◌, ◌/◌, ◌%◌, ◌<◌}
use mathlib.Core.Path.{◌≡◌, sym, ap, ◌∙◌}
use mathlib.Core.List.{List, [], ◌∷◌}
use native.Mathlib.Omega.{arith}

abbrev pub to_be_bytes : ℕ → List ℕ
to_be_bytes n =
    (n / 72057594037927936 % 256)
    ∷ (n / 281474976710656 % 256)
    ∷ (n / 1099511627776 % 256)
    ∷ (n / 4294967296 % 256)
    ∷ (n / 16777216 % 256)
    ∷ (n / 65536 % 256)
    ∷ (n / 256 % 256)
    ∷ (n % 256)
    ∷ []

abbrev pub u64_bound : ℕ
u64_bound = 18446744073709551616

from_be_bytes : List ℕ → ℕ
from_be_bytes (a ∷ b ∷ c ∷ d ∷ e ∷ f ∷ g ∷ h ∷ []) =
    a * 72057594037927936
    + b * 281474976710656
    + c * 1099511627776
    + d * 4294967296
    + e * 16777216
    + f * 65536
    + g * 256
    + h
from_be_bytes _ = 0

from-to_be_bytes : (n : ℕ) → n < u64_bound → from_be_bytes (to_be_bytes n) ≡ n
unfolding from_be_bytes
from-to_be_bytes n h = omega arith

pub to_be_bytes_inj :
    (n m : ℕ) → n < u64_bound → m < u64_bound → to_be_bytes n ≡ to_be_bytes m → n ≡ m
to_be_bytes_inj n m hn hm e =
    sym (from-to_be_bytes n hn) ∙ ap from_be_bytes e ∙ from-to_be_bytes m hm
