-- ===== src/Core/Verdict.antt =====
-- crates/workflow-core/src/verdict.rs: the arbiter's verdict and its validation.
-- A `BTreeSet` is the list of its elements in their order; the identifiers of evidence are numbers.
pub mod Sound
use google_antigravity_cycle.Prelude.{
  ℕ, Bool, true, false, not, ◌&&◌, ◌||◌, Option, none, some, List, [], ◌∷◌, is_some, any,
  if◌then◌else◌, Result, ok, err,
}
use google_antigravity_cycle.Prelude.Text.{Text}
use google_antigravity_cycle.Prelude.Maps.{get, insert, text_equality}
use google_antigravity_cycle.Prelude.Checks.{reject_if, ◌and_then◌, check_all, has_id, has_text}
use google_antigravity_cycle.Core.Workflow.{RepairTarget}
use google_antigravity_cycle.Core.Request.{ContentDigest}

pub data ArbiterDecision : Type 0 where
  approved rejected : ArbiterDecision

pub data RequirementStatus : Type 0 where
  satisfied unsatisfied : RequirementStatus

pub record RequirementDecision : Type 0 where
  pub requirement_id : Text
  pub status : RequirementStatus
  pub evidence_ids : List ℕ

pub data FindingSeverity : Type 0 where
  critical high medium low info : FindingSeverity

abbrev pub is_severe : FindingSeverity → Bool
is_severe critical = true
is_severe high = true
is_severe _ = false

pub record Finding : Type 0 where
  pub severity : FindingSeverity
  pub summary : Text
  pub evidence_ids : List ℕ

pub record ArbiterVerdict : Type 0 where
  pub decision : ArbiterDecision
  pub candidate_digest : ContentDigest
  pub requirements : List RequirementDecision
  pub findings : List Finding
  pub repair_target : Option RepairTarget

pub data VerdictValidationError : Type 0 where
  duplicate_requirement missing_requirement unexpected_requirement missing_evidence
        unmet_requirement :
      Text → VerdictValidationError
  unknown_evidence : ℕ → VerdictValidationError
  severe_finding approval_has_repair_target missing_repair_target rejection_without_basis :
      VerdictValidationError

abbrev Check : Type 0
Check = Option VerdictValidationError

abbrev pub is_empty {ℓ} : {A : Type ℓ} → List A → Bool
is_empty [] = true
is_empty (x ∷ xs) = false

abbrev pub is_unsatisfied : RequirementStatus → Bool
is_unsatisfied satisfied = false
is_unsatisfied unsatisfied = true

abbrev pub is_approved : ArbiterDecision → Bool
is_approved approved = true
is_approved rejected = false

-- The first identifier that is not available.
validate_evidence : List ℕ → List ℕ → Check
validate_evidence [] available = none
validate_evidence (id ∷ ids) available =
    reject_if (not (has_id id available)) (unknown_evidence id)
    and_then validate_evidence ids available

abbrev Decisions : Type 0
Decisions = List (Text × RequirementDecision)

-- The first loop: the decisions by their requirement.
index_decisions :
    List Text → Decisions → List RequirementDecision → Result Decisions VerdictValidationError
index_decisions required decisions [] = ok decisions
index_decisions required decisions (d ∷ ds) =
    let later = index_decisions required (insert d.requirement_id d decisions) ds in
    if is_some (get d.requirement_id decisions)
    then err (duplicate_requirement d.requirement_id)
    else if not (has_text d.requirement_id required)
    then err (unexpected_requirement d.requirement_id)
    else later

-- A round of the second loop.
check_required : ArbiterDecision → Decisions → List ℕ → Text → Check
unfolding validate_evidence
check_required decision decisions available requirement_id = elim (get requirement_id decisions) [
  | none ↦ some (missing_requirement requirement_id)
  | some d ↦
      reject_if (is_empty d.evidence_ids) (missing_evidence requirement_id)
      and_then validate_evidence d.evidence_ids available
      and_then reject_if (is_approved decision && is_unsatisfied d.status)
          (unmet_requirement requirement_id)
]

-- The last `match`.
check_decision : ArbiterVerdict → ArbiterDecision → Check
check_decision v approved =
    reject_if (is_some v.repair_target) approval_has_repair_target
    and_then reject_if (any (λ f. is_severe f.severity) v.findings) severe_finding
check_decision v rejected =
    reject_if (not (is_some v.repair_target)) missing_repair_target
    and_then reject_if
        (not (any (λ d. is_unsatisfied d.status) v.requirements || not (is_empty v.findings)))
        rejection_without_basis

after_index : ArbiterVerdict → List Text → List ℕ → Result Decisions VerdictValidationError → Check
unfolding check_required check_decision
after_index v required available (err e) = some e
after_index v required available (ok decisions) =
    check_all (check_required v.decision decisions available) required
    and_then check_all (λ f. validate_evidence f.evidence_ids available) v.findings
    and_then check_decision v v.decision

-- `none` is `Ok(())`.
unfoldable pub validate : ArbiterVerdict → List Text → List ℕ → Option VerdictValidationError
unfolding after_index index_decisions
validate v required available =
    after_index v required available (index_decisions required [] v.requirements)
