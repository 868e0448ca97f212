-- ===== src/Core/Review/Sound.antt =====
-- crates/workflow-core/src/review.rs: what an accepted review has shown.
use google_antigravity_cycle.Prelude.{
  ℕ, ◌≡◌, ◌≢◌, ◌⊎◌, inl, inr, refl, true, false, not, Option, Option-cases, none, List, [], ◌∷◌,
  is_some, any, Any, All, All-map, Result, ok, err, arith, ◌&&◌, all,
}
use google_antigravity_cycle.Prelude.Text.{Text, text_eq_iff}
use google_antigravity_cycle.Prelude.Checks.{
  ◌and_then◌, and_then-eq-none, reject_if, reject_if-eq-none, check_all, check_all-eq-none, has_id,
  has_text,
}
use google_antigravity_cycle.Core.Verdict.{
  RequirementDecision, Finding, satisfied, unsatisfied, is_severe, is_empty, is_unsatisfied,
}
use google_antigravity_cycle.Core.Review.{
  ReviewVerdict, ReviewDecision, ReviewValidationError, approved, rejected, is_reviewer, validate,
  after_decisions, check_decisions, check_decision, check_finding, check_met, validate_evidence,
  invalid_role, unexpected_requirement, duplicate_requirement, missing_evidence,
  missing_requirement, missing_finding_evidence,
}

-- Evidence that is given, and available.
abbrev pub HasEvidence : List ℕ → List ℕ → Type 0
HasEvidence ids available = (ids ≢ []) × All (λ id. has_id id available ≡ true) ids

ids_sound :
    (ids available : List ℕ)
    → validate_evidence ids available ≡ none
    → All (λ id. has_id id available ≡ true) ids
unfolding validate_evidence
ids_sound [] available h = tt
ids_sound (id ∷ ids) available h = (ground arith, ids_sound ids available (ground arith))

not_empty : (ids : List ℕ) → is_empty ids ≡ false → ids ≢ []
not_empty [] h = absurd (ground arith)
not_empty (x ∷ ids) h = λ e. ground arith

-- The check of a decision, before the loop goes on.
abbrev check_one :
    List Text → List ℕ → List Text → RequirementDecision → Option ReviewValidationError
check_one required available decided d =
    reject_if (not (has_text d.requirement_id required)) (unexpected_requirement d.requirement_id)
    and_then reject_if (has_text d.requirement_id decided) (duplicate_requirement d.requirement_id)
    and_then reject_if (is_empty d.evidence_ids) (missing_evidence d.requirement_id)
    and_then validate_evidence d.evidence_ids available

abbrev IsGrounded : List Text → List ℕ → RequirementDecision → Type 0
IsGrounded required available d =
    (has_text d.requirement_id required ≡ true) × HasEvidence d.evidence_ids available

check_one-IsGrounded :
    (required : List Text) (available : List ℕ) (decided : List Text) (d : RequirementDecision)
    → check_one required available decided d ≡ none
    → IsGrounded required available d
check_one-IsGrounded required available decided d h =
    let (a, h1) =
      and_then-eq-none
        (reject_if (not (has_text d.requirement_id required))
          (unexpected_requirement d.requirement_id))
        (reject_if (has_text d.requirement_id decided) (duplicate_requirement d.requirement_id)
          and_then reject_if (is_empty d.evidence_ids) (missing_evidence d.requirement_id)
          and_then validate_evidence d.evidence_ids available)
        h in
    let (b, h2) =
      and_then-eq-none
        (reject_if (has_text d.requirement_id decided) (duplicate_requirement d.requirement_id))
        (reject_if (is_empty d.evidence_ids) (missing_evidence d.requirement_id)
          and_then validate_evidence d.evidence_ids available)
        h1 in
    let (c, e) =
      and_then-eq-none (reject_if (is_empty d.evidence_ids) (missing_evidence d.requirement_id))
        (validate_evidence d.evidence_ids available) h2 in
    (
      ground (arith, a),
      (
        not_empty d.evidence_ids
            (reject_if-eq-none (is_empty d.evidence_ids) (missing_evidence d.requirement_id) c),
        ids_sound d.evidence_ids available e,
      ),
    )

record IsIndexed (required : List Text) (available : List ℕ) (decided result : List Text)
    (ds : List RequirementDecision) : Type 0 where
  grounded : All (IsGrounded required available) ds
  named :
      (r : Text)
      → has_text r result ≡ true
      → (has_text r decided ≡ true) ⊎ Any (λ d. d.requirement_id ≡ r) ds

check_decisions-IsIndexed :
    (required : List Text) (available : List ℕ) (decided result : List Text)
    (ds : List RequirementDecision)
    → check_decisions required available decided ds ≡ ok result
    → IsIndexed required available decided result ds
unfolding check_decisions
check_decisions-IsIndexed required available decided result [] h = record {
  grounded = tt;
  named = λ r k. inl (ground arith);
}
check_decisions-IsIndexed required available decided result (d ∷ ds) h =
    elim (Option-cases (check_one required available decided d)) [
      | inl e ↦
          let rest =
            check_decisions-IsIndexed required available (d.requirement_id ∷ decided) result ds
              (rw (e, check_decisions) at h) in
          record {
            grounded = (check_one-IsGrounded required available decided d e, rest.grounded);
            named = λ r k. ground (arith, rest.named r k, text_eq_iff d.requirement_id r);
          }
      | inr (x, e) ↦ absurd (ground (arith, h, e))
    ]

-- What acceptance shows of a review, for each decision.
pub data IsDecisive (v : ReviewVerdict) : ReviewDecision → Type 0 where
  approves :
      v.repair_target ≡ none
      → All (λ d. d.status ≡ satisfied) v.requirements
      → All (λ f. is_severe f.severity ≡ false) v.findings
      → IsDecisive v approved
  rejects :
      is_some v.repair_target ≡ true
      → (v.findings ≢ []) ⊎ Any (λ d. d.status ≡ unsatisfied) v.requirements
      → IsDecisive v rejected

none_severe :
    (fs : List Finding)
    → any (λ f. is_severe f.severity) fs ≡ false
    → All (λ f. is_severe f.severity ≡ false) fs
none_severe [] h = tt
none_severe (f ∷ fs) h = (ground arith, none_severe fs (ground arith))

all_met : (ds : List RequirementDecision) → check_met ds ≡ none → All (λ d. d.status ≡ satisfied) ds
unfolding check_met
all_met [] h = tt
all_met (d ∷ ds) h = (ground arith, all_met ds (ground arith))

one_unmet :
    (ds : List RequirementDecision)
    → all (λ d. not (is_unsatisfied d.status)) ds ≡ false
    → Any (λ d. d.status ≡ unsatisfied) ds
one_unmet [] h = absurd (ground arith)
one_unmet (d ∷ ds) h = ground (arith, one_unmet ds)

basis :
    (fs : List Finding) (ds : List RequirementDecision)
    → (is_empty fs && all (λ d. not (is_unsatisfied d.status)) ds) ≡ false
    → (fs ≢ []) ⊎ Any (λ d. d.status ≡ unsatisfied) ds
basis [] ds h = inr (one_unmet ds h)
basis (f ∷ fs) ds h = inl (λ e. ground arith)

check_decision-IsDecisive :
    (v : ReviewVerdict) (d : ReviewDecision) → check_decision v d ≡ none → IsDecisive v d
unfolding check_decision
check_decision-IsDecisive v approved h =
    approves (ground arith) (all_met v.requirements (ground arith))
      (none_severe v.findings (ground arith))
check_decision-IsDecisive v rejected h =
    rejects (ground arith) (basis v.findings v.requirements (ground arith))

pub record IsAccepted (v : ReviewVerdict) (required : List Text) (available : List ℕ) : Type 0 where
  pub reviewer : is_reviewer v.role ≡ true
  pub grounded :
      All
        (λ d. (has_text d.requirement_id required ≡ true) × HasEvidence d.evidence_ids available)
        v.requirements
  pub complete : All (λ r. Any (λ d. d.requirement_id ≡ r) v.requirements) required
  pub findings_grounded : All (λ f. HasEvidence f.evidence_ids available) v.findings
  pub decisive : IsDecisive v v.decision

finding_grounded :
    (available : List ℕ) (f : Finding)
    → check_finding available f ≡ none
    → HasEvidence f.evidence_ids available
unfolding check_finding
finding_grounded available f h =
    let (a, b) =
      and_then-eq-none (reject_if (is_empty f.evidence_ids) missing_finding_evidence)
        (validate_evidence f.evidence_ids available) h in
    (not_empty f.evidence_ids (ground (arith, a)), ids_sound f.evidence_ids available b)

after_decisions-IsAccepted :
    (v : ReviewVerdict) (required : List Text) (available : List ℕ)
    (o : Result (List Text) ReviewValidationError)
    → is_reviewer v.role ≡ true
    → check_decisions required available [] v.requirements ≡ o
    → after_decisions v required available o ≡ none
    → IsAccepted v required available
unfolding after_decisions
after_decisions-IsAccepted v required available (ok m) role q h =
    let (a, b) =
      and_then-eq-none
        (check_all (λ r. reject_if (not (has_text r m)) (missing_requirement r)) required)
        (check_all (check_finding available) v.findings and_then check_decision v v.decision) h in
    let (c, f) =
      and_then-eq-none (check_all (check_finding available) v.findings)
        (check_decision v v.decision) b in
    let indexed = check_decisions-IsIndexed required available [] m v.requirements q in
    record {
      reviewer = role;
      grounded = indexed.grounded;
      complete =
          All-map (λ r k. ground (arith, indexed.named r, k)) required
            (check_all-eq-none (λ r. reject_if (not (has_text r m)) (missing_requirement r))
              required a);
      findings_grounded =
          All-map (finding_grounded available) v.findings
            (check_all-eq-none (check_finding available) v.findings c);
      decisive = check_decision-IsDecisive v v.decision f;
    }
after_decisions-IsAccepted v required available (err e) role q h = absurd (ground arith)

-- A review that is accepted was made by one of the two reviewer roles. Each of its decisions is
-- about a required requirement, and so many that each required one is decided; each, and each of its
-- findings, names evidence, all of it available. It approves only with no repair target, every
-- decision satisfied and no severe finding, and rejects only with a repair target and a basis, a
-- finding or an unsatisfied requirement.
pub review-IsAccepted :
    (v : ReviewVerdict) (required : List Text) (available : List ℕ)
    → validate v required available ≡ none
    → IsAccepted v required available
unfolding validate
review-IsAccepted v required available h =
    let (a, b) =
      and_then-eq-none (reject_if (not (is_reviewer v.role)) invalid_role)
        (after_decisions v required available
          (check_decisions required available [] v.requirements))
        h in
    after_decisions-IsAccepted v required available
      (check_decisions required available [] v.requirements) (ground (arith, a)) refl b
