-- ===== src/Core/Review.antt =====
-- crates/workflow-core/src/review.rs: a reviewer's verdict and its validation.
pub mod Sound
use google_antigravity_cycle.Prelude.{
  ℕ, Bool, true, false, not, ◌&&◌, Option, none, some, List, [], ◌∷◌, is_some, any, all,
  if◌then◌else◌, Result, ok, err,
}
use google_antigravity_cycle.Prelude.Text.{Text}
use google_antigravity_cycle.Prelude.Maps.{get, insert, text_equality}
use google_antigravity_cycle.Prelude.Checks.{reject_if, ◌and_then◌, check_all, has_id, has_text}
use google_antigravity_cycle.Core.Workflow.{RepairTarget}
use google_antigravity_cycle.Core.Request.{ContentDigest}
use google_antigravity_cycle.Core.Role.{
  WorkflowRole, functional_reviewer, security_architecture_reviewer,
}
use google_antigravity_cycle.Core.Verdict.{
  RequirementDecision, Finding, is_severe, is_unsatisfied, is_empty,
}

pub data ReviewDecision : Type 0 where
  approved rejected : ReviewDecision

pub record ReviewVerdict : Type 0 where
  pub candidate_digest : ContentDigest
  pub decision : ReviewDecision
  pub findings : List Finding
  pub repair_target : Option RepairTarget
  pub requirements : List RequirementDecision
  pub role : WorkflowRole

pub data ReviewValidationError : Type 0 where
  approval_has_repair_target invalid_role missing_repair_target rejection_without_basis
        severe_finding :
      ReviewValidationError
  -- a missing evidence names its requirement, or is that of a finding
  duplicate_requirement missing_requirement unexpected_requirement unmet_requirement
        missing_evidence :
      Text → ReviewValidationError
  missing_finding_evidence : ReviewValidationError
  unknown_evidence : ℕ → ReviewValidationError

abbrev Check : Type 0
Check = Option ReviewValidationError

abbrev pub is_reviewer : WorkflowRole → Bool
is_reviewer functional_reviewer = true
is_reviewer security_architecture_reviewer = true
is_reviewer _ = false

validate_evidence : List ℕ → List ℕ → Check
validate_evidence [] available = none
validate_evidence (id ∷ ids) available =
    reject_if (not (has_id id available)) (unknown_evidence id)
    and_then validate_evidence ids available

-- The first loop: the identifiers decided so far are the keys of the map of the source, whose
-- values are never read.
check_decisions :
    List Text
    → List ℕ
    → List Text
    → List RequirementDecision
    → Result (List Text) ReviewValidationError
unfolding validate_evidence
check_decisions required available decided [] = ok decided
check_decisions required available decided (d ∷ ds) =
    elim (reject_if (not (has_text d.requirement_id required))
        (unexpected_requirement d.requirement_id)
      and_then reject_if (has_text d.requirement_id decided)
          (duplicate_requirement d.requirement_id)
      and_then reject_if (is_empty d.evidence_ids) (missing_evidence d.requirement_id)
      and_then validate_evidence d.evidence_ids available) [
        | none ↦ check_decisions required available (d.requirement_id ∷ decided) ds
        | some e ↦ err e
      ]

-- `find`: the first decision that is not met.
check_met : List RequirementDecision → Check
check_met =
    check_all (λ d. reject_if (is_unsatisfied d.status) (unmet_requirement d.requirement_id))

check_finding : List ℕ → Finding → Check
unfolding validate_evidence
check_finding available f =
    reject_if (is_empty f.evidence_ids) missing_finding_evidence
    and_then validate_evidence f.evidence_ids available

-- The last `match`.
check_decision : ReviewVerdict → ReviewDecision → Check
unfolding check_met
check_decision v approved =
    reject_if (is_some v.repair_target) approval_has_repair_target
    and_then check_met v.requirements
    and_then reject_if (any (λ f. is_severe f.severity) v.findings) severe_finding
check_decision v rejected =
    reject_if (not (is_some v.repair_target)) missing_repair_target
    and_then reject_if
        (is_empty v.findings && all (λ d. not (is_unsatisfied d.status)) v.requirements)
        rejection_without_basis

after_decisions :
    ReviewVerdict → List Text → List ℕ → Result (List Text) ReviewValidationError → Check
unfolding check_finding check_decision
after_decisions v required available (err e) = some e
after_decisions v required available (ok decided) =
    check_all (λ r. reject_if (not (has_text r decided)) (missing_requirement r)) required
    and_then check_all (check_finding available) v.findings
    and_then check_decision v v.decision

-- `none` is `Ok(())`.
unfoldable pub validate : ReviewVerdict → List Text → List ℕ → Option ReviewValidationError
unfolding after_decisions check_decisions
validate v required available =
    reject_if (not (is_reviewer v.role)) invalid_role
    and_then after_decisions v required available
        (check_decisions required available [] v.requirements)
