-- ===== src/Store/Workflows/Yields.antt =====
-- crates/workflow-store/src: what an operation returns, and the state beside it.
use google_antigravity_cycle.Prelude.{◌≡◌, ◌⊎◌, inl, inr, Result, ok, err, refl}

-- What holds of a value that is returned and the state then, and of an error and the state beside it.
abbrev pub Yields : {S X A : Type 0} → (A → S → Type 0) → (X → S → Type 0) → Result A X × S → Type 0
Yields P E (ok a, s) = P a s
Yields P E (err e, s) = E e s

pub Run-cases :
    {S A X : Type 0} (r : Result A X × S)
    → ((a : A) × (t : S) × (r ≡ (ok a, t))) ⊎ ((e : X) × (t : S) × (r ≡ (err e, t)))
Run-cases (ok a, t) = inl (a, t, refl)
Run-cases (err e, t) = inr (e, t, refl)
