-- ===== src/Prelude/Exec.antt =====
-- Methods on `&mut self` that return a `Result`: what was written before an error stays written,
-- so the state comes back beside the error too. `?` and `return Err(e)` are the bind and `raise`.
use mathlib.Core.Bool.{Bool, true, false}
use mathlib.Core.Option.{Option, none, some}
use google_antigravity_cycle.Prelude.Results.{Result, ok, err}

abbrev pub Exec {ℓ κ μ} : Type ℓ → Type κ → Type μ → Type (ℓ ⊔ κ ⊔ μ)
Exec S E A = S → Result A E × S

module _ {ℓ κ μ} {S : Type ℓ} {E : Type κ} {A : Type μ} where
  abbrev pub pure : A → Exec S E A
  pure a s = (ok a, s)

  abbrev pub raise : E → Exec S E A
  raise e s = (err e, s)

  -- A value read from the state.
  abbrev pub gets : (S → A) → Exec S E A
  gets f s = (ok (f s), s)

  -- `option.ok_or(e)?`
  abbrev pub ok_or : E → Option A → Exec S E A
  ok_or e none s = (err e, s)
  ok_or e (some a) s = (ok a, s)

module _ {ℓ κ} {S : Type ℓ} {E : Type κ} where
  abbrev pub modify : (S → S) → Exec S E (Unit {0})
  modify f s = (ok tt, f s)

  -- `if test { return Err(e) }`
  abbrev pub raise_if : Bool → E → Exec S E (Unit {0})
  raise_if true e s = (err e, s)
  raise_if false e s = (ok tt, s)

module _ {ℓ κ μ ν} {S : Type ℓ} {E : Type κ} {A : Type μ} {B : Type ν} where
  abbrev continue : Result A E → (A → Exec S E B) → Exec S E B
  continue (ok a) f s = f a s
  continue (err e) f s = (err e, s)

  infixl 5 ◌>>=◌ ◌>>◌
  abbrev pub ◌>>=◌ : Exec S E A → (A → Exec S E B) → Exec S E B
  ◌>>=◌ m f s = let (r, s') = m s in continue r f s'

  abbrev pub ◌>>◌ : Exec S E A → Exec S E B → Exec S E B
  ◌>>◌ m k s = let (r, s') = m s in continue r (λ _. k) s'

module _ {ℓ κ μ} {S : Type ℓ} {E : Type κ} {A : Type μ} where
  -- A match arm with a guard, above the arm `_ => Err(e)`.
  abbrev choose : Bool → Exec S E A → E → Exec S E A
  choose true m e s = m s
  choose false m e s = (err e, s)

  abbrev pub arm : (S → Bool) → E → Exec S E A → Exec S E A
  arm test e m s = choose (test s) m e s
