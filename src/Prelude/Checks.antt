-- ===== src/Prelude/Checks.antt =====
-- Chains of checks that return early: `none` goes on, `some e` is `return Err(e)`.
use google_antigravity_cycle.Prelude.Tests.{◌==◌}
use google_antigravity_cycle.Prelude.Lists.{any, All}
use google_antigravity_cycle.Prelude.Text.{Text, text_eq}
use Prim.Native.Nat.{ℕ}
use mathlib.Core.Path.{◌≡◌}
use mathlib.Core.Bool.{Bool, true, false}
use mathlib.Core.Option.{Option, none, some}
use mathlib.Core.List.{List, [], ◌∷◌}
use native.Mathlib.Omega.{arith}

module _ {ℓ} {E : Type ℓ} where
  abbrev pub reject_if : Bool → E → Option E
  reject_if true e = some e
  reject_if false e = none

  infixr 5 ◌and_then◌
  abbrev pub ◌and_then◌ : Option E → Option E → Option E
  none and_then later = later
  (some e) and_then later = some e

  pub and_then-eq-none : (a b : Option E) → (a and_then b) ≡ none → (a ≡ none) × (b ≡ none)
  and_then-eq-none a b h = ground arith

  pub reject_if-eq-none : (b : Bool) (e : E) → reject_if b e ≡ none → b ≡ false
  reject_if-eq-none b e h = ground arith

module _ {ℓ κ} {A : Type ℓ} {E : Type κ} where
  -- A `for` loop of checks.
  abbrev pub check_all : (A → Option E) → List A → Option E
  check_all f [] = none
  check_all f (x ∷ xs) = f x and_then check_all f xs

  pub check_all-eq-none :
      (f : A → Option E) (xs : List A) → check_all f xs ≡ none → All (λ x. f x ≡ none) xs
  check_all-eq-none f [] h = tt
  check_all-eq-none f (x ∷ xs) h =
      let (a, b) = and_then-eq-none (f x) (check_all f xs) h in (a, check_all-eq-none f xs b)

-- Membership in a `BTreeSet` of numbers and of texts.
abbrev pub has_id : ℕ → List ℕ → Bool
has_id x = any (λ y. y == x)

abbrev pub has_text : Text → List Text → Bool
has_text x = any (λ y. text_eq y x)
