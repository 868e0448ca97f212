-- ===== src/Core/Path.antt =====
-- crates/workflow-core/src/path.rs: relative paths that stay below a root, and their overlap.
pub mod Segments
use google_antigravity_cycle.Prelude.{
  ℕ, Bool, true, false, not, ◌&&◌, ◌||◌, Option, none, some, List, [], ◌∷◌, ◌==◌, if◌then◌else◌,
  any, all, get_elem?,
}
use google_antigravity_cycle.Prelude.Text.{Text, text_eq, as_bytes}

abbrev pub slash : ℕ
slash = 47

-- What `split('/')` makes of a first character and of what it makes of the others.
abbrev pub prepend : ℕ → List Text → List Text
prepend c [] = (c ∷ []) ∷ []
prepend c (s ∷ ss) = (c ∷ s) ∷ ss

-- `path.split('/')`
unfoldable pub split : Text → List Text
split [] = [] ∷ []
split (c ∷ cs) = let rest = split cs in if c == slash then [] ∷ rest else prepend c rest

abbrev pub is_empty : Text → Bool
is_empty [] = true
is_empty (c ∷ cs) = false

abbrev pub starts_with_slash : Text → Bool
starts_with_slash [] = false
starts_with_slash (c ∷ cs) = c == slash

abbrev is_colon : Option ℕ → Bool
is_colon none = false
is_colon (some b) = b == 58

-- A segment is neither empty nor `.` nor `..`.
abbrev pub is_plain : Text → Bool
is_plain [] = false
is_plain (a ∷ []) = not (a == 46)
is_plain (a ∷ b ∷ []) = not (a == 46 && b == 46)
is_plain (a ∷ b ∷ c ∷ s) = true

unfoldable pub is_safe_relative : Text → Bool
unfolding split as_bytes
is_safe_relative path =
    not (is_empty path)
    && not (any (λ c. c == 92) path)
    && not (starts_with_slash path)
    && not (is_colon (get_elem? (as_bytes path) 1))
    && all is_plain (split path)

-- `value.strip_prefix(prefix)`
unfoldable pub strip_prefix : Text → Text → Option Text
strip_prefix value [] = some value
strip_prefix [] (p ∷ ps) = none
strip_prefix (c ∷ cs) (p ∷ ps) = let rest = strip_prefix cs ps in if c == p then rest else none

abbrev pub has_slash : Option Text → Bool
has_slash none = false
has_slash (some suffix) = starts_with_slash suffix

unfoldable pub overlaps : Text → Text → Bool
unfolding strip_prefix text_eq
overlaps first second =
    text_eq first second
    || has_slash (strip_prefix first second)
    || has_slash (strip_prefix second first)
