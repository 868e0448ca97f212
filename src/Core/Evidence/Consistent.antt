-- ===== src/Core/Evidence/Consistent.antt =====
-- crates/workflow-core/src/evidence.rs: which records `validate` accepts.
use google_antigravity_cycle.Prelude.{
  ◌≡◌, ◌≤◌, ◌⊎◌, ◌↔◌, inl, inr, zero, suc, Bool-cases, true, false, Option, none, some, is_some,
  arith, refl, ap,
}
use google_antigravity_cycle.Prelude.Int.{ℤ, pos, negsuc}
use google_antigravity_cycle.Prelude.Text.{Text, is_blank}
use google_antigravity_cycle.Core.Evidence.{
  EvidenceKind, EvidenceStatus, EvidenceRecord, passed, failed, skipped, inspection,
  validate_evidence, is_zero, is_inspection, succeeded, none_or_zero, none_or_blank, check_status,
}

-- What a status says of the exit code and of the reason to skip.
abbrev pub Agrees : EvidenceStatus → EvidenceKind → Option ℤ → Option Text → Type 0
Agrees passed kind code reason = ((kind ≡ inspection) ⊎ (code ≡ some (pos 0))) × (reason ≡ none)
Agrees failed kind code reason = ((c : ℤ) × (code ≡ some c) × (is_zero c ≡ false)) × (reason ≡ none)
Agrees skipped kind code reason = (r : Text) × (reason ≡ some r) × (is_blank r ≡ false)

pub record IsConsistent (e : EvidenceRecord) : Type 0 where
  pub in_time : e.started_at ≤ e.finished_at
  pub invocation : is_blank e.invocation ≡ false
  pub tool : is_blank e.tool ≡ false
  pub agrees : Agrees e.status e.kind e.exit_code e.skip_reason

is_inspection-true : (k : EvidenceKind) → is_inspection k ≡ true → k ≡ inspection
is_inspection-true k h = ground arith

is_zero-true : (c : ℤ) → is_zero c ≡ true → c ≡ pos 0
is_zero-true (pos zero) h = refl
is_zero-true (pos (suc n)) h = absurd (ground arith)
is_zero-true (negsuc n) h = absurd (ground arith)

reason_none : (r : Option Text) → is_some r ≡ false → r ≡ none
reason_none r h = ground arith

succeeded-true : (c : Option ℤ) → succeeded c ≡ true → c ≡ some (pos 0)
succeeded-true none h = absurd (ground arith)
succeeded-true (some c) h = ap some (is_zero-true c h)

nonzero : (c : Option ℤ) → none_or_zero c ≡ false → (d : ℤ) × (c ≡ some d) × (is_zero d ≡ false)
nonzero none h = absurd (ground arith)
nonzero (some d) h = (d, refl, h)

nonblank :
    (r : Option Text) → none_or_blank r ≡ false → (t : Text) × (r ≡ some t) × (is_blank t ≡ false)
nonblank none h = absurd (ground arith)
nonblank (some t) h = (t, refl, h)

status-Agrees :
    (e : EvidenceRecord) (s : EvidenceStatus)
    → check_status e s ≡ none
    → Agrees s e.kind e.exit_code e.skip_reason
status-Agrees e passed h = (
  elim (Bool-cases (is_inspection e.kind)) [
    | inl y ↦ inl (is_inspection-true e.kind y)
    | inr n ↦ inr (succeeded-true e.exit_code (ground arith))
  ],
  reason_none e.skip_reason (ground arith),
)
status-Agrees e failed h =
    (nonzero e.exit_code (ground arith), reason_none e.skip_reason (ground arith))
status-Agrees e skipped h = nonblank e.skip_reason (ground arith)

Agrees-status :
    (e : EvidenceRecord) (s : EvidenceStatus)
    → Agrees s e.kind e.exit_code e.skip_reason
    → check_status e s ≡ none
Agrees-status e passed (inl k, r) = rw (k, r)
Agrees-status e passed (inr c, r) = elim (Bool-cases (is_inspection e.kind)) [
  | inl y ↦ rw (c, r, y)
  | inr n ↦ rw (c, r, n)
]
Agrees-status e failed ((d, c, z), r) = rw (c, r, z)
Agrees-status e skipped (t, r, b) = rw (r, b)

-- A record is valid exactly when it ends no earlier than it starts, names what was run and the tool, and
-- its status agrees with the exit code and the reason to skip: what passed exited with zero, unless it
-- is an inspection, what failed exited with another code, both without a reason to skip, and what was
-- skipped has a reason.
pub validate_iff : (e : EvidenceRecord) → (validate_evidence e ≡ none) ↔ IsConsistent e
unfolding validate_evidence
validate_iff e = (
  λ h. record {
    in_time = ground arith;
    invocation = ground arith;
    tool = ground arith;
    agrees = status-Agrees e e.status (ground arith);
  },
  λ c. ground (arith, c.in_time, c.invocation, c.tool, Agrees-status e e.status c.agrees),
)
