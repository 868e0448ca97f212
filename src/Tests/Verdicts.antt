-- ===== src/Tests/Verdicts.antt =====
-- crates/workflow-core/src/verdict.rs and review.rs on an approval of one requirement.
use google_antigravity_cycle.Prelude.{none, [], ◌∷◌, refl}
use google_antigravity_cycle.Prelude.Text.{Text, text_eq}
use google_antigravity_cycle.Prelude.Maps.{get, insert}
use google_antigravity_cycle.Core.Role.{functional_reviewer}
use google_antigravity_cycle.Core.Verdict
use google_antigravity_cycle.Core.Verdict.{
  ArbiterVerdict, RequirementDecision, Finding, satisfied, low,
}
use google_antigravity_cycle.Core.Verdict.Sound
use google_antigravity_cycle.Core.Verdict.Sound.{validate-IsAccepted}
use google_antigravity_cycle.Core.Review
use google_antigravity_cycle.Core.Review.{ReviewVerdict}
use google_antigravity_cycle.Core.Review.Sound.{review-IsAccepted}

abbrev requirement : Text
requirement = 82 ∷ []

abbrev met : RequirementDecision
met = record { requirement_id = requirement; status = satisfied; evidence_ids = 4 ∷ [] }

abbrev remark : Finding
remark = record { severity = low; summary = 65 ∷ []; evidence_ids = 5 ∷ [] }

abbrev verdict : ArbiterVerdict
verdict = record {
  decision = Verdict.approved;
  candidate_digest = [];
  requirements = met ∷ [];
  findings = remark ∷ [];
  repair_target = none;
}

abbrev review : ReviewVerdict
review = record {
  candidate_digest = [];
  decision = Review.approved;
  findings = remark ∷ [];
  repair_target = none;
  requirements = met ∷ [];
  role = functional_reviewer;
}

validate-IsAccepted_example : Verdict.Sound.IsAccepted verdict (requirement ∷ []) (4 ∷ 5 ∷ [])
unfolding Verdict.validate get insert text_eq
validate-IsAccepted_example = validate-IsAccepted verdict (requirement ∷ []) (4 ∷ 5 ∷ []) refl

review-IsAccepted_example : Review.Sound.IsAccepted review (requirement ∷ []) (4 ∷ 5 ∷ [])
unfolding Review.validate text_eq
review-IsAccepted_example = review-IsAccepted review (requirement ∷ []) (4 ∷ 5 ∷ []) refl
