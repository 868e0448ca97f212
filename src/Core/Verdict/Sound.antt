-- ===== src/Core/Verdict/Sound.antt =====
-- crates/workflow-core/src/verdict.rs: what an accepted verdict has shown.
use google_antigravity_cycle.Prelude.{
  ℕ, ◌≡◌, ◌≢◌, ◌⊎◌, inl, inr, refl, Bool, true, false, not, ◌&&◌, ◌||◌, Option-cases, none, some,
  List, [], ◌∷◌, is_some, any, Any, All, All-map, Result, ok, err, arith,
}
use google_antigravity_cycle.Prelude.Text.{Text, text_eq_iff}
use google_antigravity_cycle.Prelude.Maps.{get, insert, get-insert, text_equality}
use google_antigravity_cycle.Prelude.Checks.{
  ◌and_then◌, and_then-eq-none, reject_if, check_all-eq-none, has_id,
}
use google_antigravity_cycle.Core.Verdict.{
  ArbiterVerdict, ArbiterDecision, RequirementDecision, VerdictValidationError, Finding, approved,
  rejected, satisfied, is_severe, is_empty, is_unsatisfied, is_approved, missing_evidence,
  unmet_requirement, validate, after_index, index_decisions, check_required, check_decision,
  validate_evidence,
}

validate_evidence_sound :
    (ids available : List ℕ)
    → validate_evidence ids available ≡ none
    → All (λ id. has_id id available ≡ true) ids
unfolding validate_evidence
validate_evidence_sound [] available h = tt
validate_evidence_sound (id ∷ ids) available h =
    (ground arith, validate_evidence_sound ids available (ground arith))

-- A decision of the list, for the requirement.
abbrev Decides : List RequirementDecision → Text → RequirementDecision → Type 0
Decides ds r d = Any (λ x. x ≡ d) ds × (d.requirement_id ≡ r)

Decides-index :
    (required : List Text) (all : List RequirementDecision) (ds : List RequirementDecision)
    (m result : List (Text × RequirementDecision))
    → ((d : RequirementDecision) → Any (λ x. x ≡ d) ds → Any (λ x. x ≡ d) all)
    → ((r : Text) (d : RequirementDecision) → get r m ≡ some d → Decides all r d)
    → index_decisions required m ds ≡ ok result
    → (r : Text) (d : RequirementDecision) → get r result ≡ some d
    → Decides all r d
unfolding index_decisions
Decides-index required all [] m result sub inv h r d g = inv r d (ground arith)
Decides-index required all (x ∷ ds) m result sub inv h r d g =
    Decides-index required all ds (insert x.requirement_id x m) result (λ d a. sub d (inr a))
      (λ r d g. ground (
        arith,
        get-insert x.requirement_id r x m,
        inv r d,
        sub x (inl refl),
        text_eq_iff x.requirement_id r,
      ))
      (ground arith) r d g

-- A requirement that an accepted verdict has decided, with evidence that is available.
pub record IsBacked (v : ArbiterVerdict) (available : List ℕ) (r : Text) : Type 0 where
  pub decision : RequirementDecision
  pub listed : Any (λ d. d ≡ decision) v.requirements
  pub about : decision.requirement_id ≡ r
  pub evidence : decision.evidence_ids ≢ []
  pub evidence_available : All (λ id. has_id id available ≡ true) decision.evidence_ids
  pub met : v.decision ≡ approved → decision.status ≡ satisfied

check_required-IsBacked :
    (v : ArbiterVerdict) (available : List ℕ) (r : Text) (m : List (Text × RequirementDecision))
    → ((r : Text) (d : RequirementDecision) → get r m ≡ some d → Decides v.requirements r d)
    → check_required v.decision m available r ≡ none
    → IsBacked v available r
unfolding check_required
check_required-IsBacked v available r m inv h = elim (Option-cases (get r m)) [
  | inl e ↦ absurd (ground (arith, h, e))
  | inr (d, e) ↦
      let (listed, about) = inv r d e in
      let (a, b) =
        and_then-eq-none (reject_if (is_empty d.evidence_ids) (missing_evidence r))
          (validate_evidence d.evidence_ids available
            and_then reject_if (is_approved v.decision && is_unsatisfied d.status)
                (unmet_requirement r))
          (rw (e, check_required) at h) in
      let (b1, b2) =
        and_then-eq-none (validate_evidence d.evidence_ids available)
          (reject_if (is_approved v.decision && is_unsatisfied d.status) (unmet_requirement r)) b in
      record {
        decision = d;
        listed = listed;
        about = about;
        evidence = ground (arith, a);
        evidence_available = validate_evidence_sound d.evidence_ids available b1;
        met = ground (arith, b2);
      }
]

-- What acceptance shows of a verdict, for each decision.
pub data IsDecisive (v : ArbiterVerdict) : ArbiterDecision → Type 0 where
  approves :
      v.repair_target ≡ none
      → All (λ f. is_severe f.severity ≡ false) v.findings
      → IsDecisive v approved
  rejects :
      is_some v.repair_target ≡ true
      → (any (λ d. is_unsatisfied d.status) v.requirements ≡ true) ⊎ (v.findings ≢ [])
      → IsDecisive v rejected

pub record IsAccepted (v : ArbiterVerdict) (required : List Text) (available : List ℕ)
    : Type 0 where
  pub backed : All (IsBacked v available) required
  pub findings_available :
      All (λ f. All (λ id. has_id id available ≡ true) f.evidence_ids) v.findings
  pub decisive : IsDecisive v v.decision

none_severe :
    (fs : List Finding)
    → any (λ f. is_severe f.severity) fs ≡ false
    → All (λ f. is_severe f.severity ≡ false) fs
none_severe [] h = tt
none_severe (f ∷ fs) h = (ground arith, none_severe fs (ground arith))

basis : (b : Bool) (fs : List Finding) → (b || not (is_empty fs)) ≡ true → (b ≡ true) ⊎ (fs ≢ [])
basis true fs h = inl refl
basis false [] h = absurd (ground arith)
basis false (f ∷ fs) h = inr (λ e. ground arith)

check_decision-IsDecisive :
    (v : ArbiterVerdict) (d : ArbiterDecision) → check_decision v d ≡ none → IsDecisive v d
unfolding check_decision
check_decision-IsDecisive v approved h =
    approves (ground arith) (none_severe v.findings (ground arith))
check_decision-IsDecisive v rejected h =
    rejects (ground arith)
      (basis (any (λ d. is_unsatisfied d.status) v.requirements) v.findings (ground arith))

none_yet :
    (ds : List RequirementDecision) (r : Text) (d : RequirementDecision)
    → get r [] ≡ some d
    → Decides ds r d
unfolding get
none_yet ds r d g = absurd (ground arith)

after_index-IsAccepted :
    (v : ArbiterVerdict) (required : List Text) (available : List ℕ)
    (o : Result (List (Text × RequirementDecision)) VerdictValidationError)
    → index_decisions required [] v.requirements ≡ o
    → after_index v required available o ≡ none
    → IsAccepted v required available
unfolding after_index
after_index-IsAccepted v required available (ok m) q h =
    let (a, b) = and_then-eq-none _ _ h in
    let (c, f) = and_then-eq-none _ _ b in
    record {
      backed =
          All-map
            (λ r. check_required-IsBacked v available r m (
              Decides-index required v.requirements v.requirements [] m (λ d x. x)
                (none_yet v.requirements) q))
            required (check_all-eq-none (check_required v.decision m available) required a);
      findings_available =
          All-map (λ f. validate_evidence_sound f.evidence_ids available) v.findings
            (check_all-eq-none (λ f. validate_evidence f.evidence_ids available) v.findings c);
      decisive = check_decision-IsDecisive v v.decision f;
    }
after_index-IsAccepted v required available (err e) q h = absurd (ground arith)

-- A verdict that is accepted backs every required requirement by a decision of its own with
-- evidence, all of it available, and satisfied when the verdict approves. The evidence of its
-- findings is available. It approves only with no severe finding and no repair target, and
-- rejects only with a repair target and a basis, an unsatisfied requirement or a finding.
pub validate-IsAccepted :
    (v : ArbiterVerdict) (required : List Text) (available : List ℕ)
    → validate v required available ≡ none
    → IsAccepted v required available
unfolding validate
validate-IsAccepted v required available h =
    after_index-IsAccepted v required available (index_decisions required [] v.requirements) refl h
