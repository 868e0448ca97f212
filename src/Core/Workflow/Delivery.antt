-- ===== src/Core/Workflow/Delivery.antt =====
-- crates/workflow-core/src/workflow.rs: what has been accepted before a workflow completes.
use google_antigravity_cycle.Prelude.{
  ℕ, ◌<◌, ◌≡◌, ◌≢◌, ◌⊎◌, Bool, true, false, Option, none, some, List, [], ◌∷◌, is_some, Result, ok,
  err, arith,
}
use google_antigravity_cycle.Core.Workflow.{
  Workflow, WorkflowState, WorkflowCommand, WorkflowEvent, TransitionError, apply, run, new,
  CandidateId, full, candidate_ready, verification_passed, reviews_ready, approve,
}
use google_antigravity_cycle.Core.Workflow.WorkflowState.{
  independent_reviews, arbitration, delivery, completed,
}
use google_antigravity_cycle.Core.Workflow.Invariant.{
  IsValid, stage, has_candidate, apply-IsValid, new-IsValid,
}

-- What an observer of the accepted commands knows of the latest candidate.
pub record Evidence : Type 0 where
  pub candidate : Option CandidateId
  pub verified : Bool
  pub reviewed : Bool
  pub approved : Bool

abbrev pub no_evidence : Evidence
no_evidence = record { candidate = none; verified = false; reviewed = false; approved = false }

-- A new candidate voids what was known of the one before.
pub note : WorkflowCommand → Evidence → Evidence
note (candidate_ready c) e = record {
  candidate = some c;
  verified = false;
  reviewed = false;
  approved = false;
}
note verification_passed e = record e { verified = true }
note reviews_ready e = record e { reviewed = true }
note (approve gates) e = record e { approved = gates }
note _ e = e

pub observe : Result (List WorkflowEvent) TransitionError → WorkflowCommand → Evidence → Evidence
unfolding note
observe (ok _) c e = note c e
observe (err _) c e = e

pub gather : Workflow → Evidence → List WorkflowCommand → Evidence
gather w e [] = e
gather w e (c ∷ cs) = gather (apply c w).1 (observe (apply c w).0 c e) cs

abbrev is_verified : WorkflowState → Bool
is_verified independent_reviews = true
is_verified arbitration = true
is_verified delivery = true
is_verified completed = true
is_verified _ = false

abbrev is_reviewed : WorkflowState → Bool
is_reviewed arbitration = true
is_reviewed delivery = true
is_reviewed completed = true
is_reviewed _ = false

abbrev is_approved : WorkflowState → Bool
is_approved delivery = true
is_approved completed = true
is_approved _ = false

-- How the stage of a workflow and the evidence go together.
record IsBacked (w : Workflow) (e : Evidence) : Type 0 where
  same_candidate : has_candidate (stage w) ≡ true → e.candidate ≡ w.current_candidate
  verified : is_verified (stage w) ≡ true → e.verified ≡ true
  reviewed : is_reviewed (stage w) ≡ true → w.mode ≡ some full → e.reviewed ≡ true
  approved : is_approved (stage w) ≡ true → e.approved ≡ true

apply-IsBacked :
    (c : WorkflowCommand) (w : Workflow) (e : Evidence)
    → IsValid w
    → IsBacked w e
    → IsBacked (apply c w).1 (observe (apply c w).0 c e)
unfolding apply observe
apply-IsBacked WorkflowCommand.pause w e v b = ground arith
apply-IsBacked _ w e v b = ground arith

gather-IsBacked :
    (cs : List WorkflowCommand) (w : Workflow) (e : Evidence)
    → IsValid w
    → IsBacked w e
    → IsBacked (run w cs) (gather w e cs)
unfolding run gather
gather-IsBacked [] w e v b = b
gather-IsBacked (c ∷ cs) w e v b =
    gather-IsBacked cs (apply c w).1 (observe (apply c w).0 c e) (apply-IsValid c w v)
      (apply-IsBacked c w e v b)

new-IsBacked : (n : ℕ) → IsBacked (new n) no_evidence
unfolding new
new-IsBacked n = ground arith

pub run-IsValid : (cs : List WorkflowCommand) (w : Workflow) → IsValid w → IsValid (run w cs)
unfolding run
run-IsValid [] w v = v
run-IsValid (c ∷ cs) w v = run-IsValid cs (apply c w).1 (apply-IsValid c w v)

-- Whatever commands a new workflow with a budget from 1 to 255 is given, if it ends up completed then a candidate is current,
-- and since that candidate was selected the accepted commands have passed its verification,
-- approved it with the mandatory gates passed, and, in full mode, delivered its reviews.
pub completed_needs_evidence :
    (n : ℕ) (cs : List WorkflowCommand)
    → 0 < n
    → n < 256
    → (run (new n) cs).state ≡ completed
    → let w = run (new n) cs in
      let e = gather (new n) no_evidence cs in
      (is_some w.current_candidate ≡ true)
      × (e.candidate ≡ w.current_candidate)
      × (e.verified ≡ true)
      × (e.approved ≡ true)
      × ((w.mode ≢ some full) ⊎ (e.reviewed ≡ true))
completed_needs_evidence n cs pos small done =
    let b = gather-IsBacked cs (new n) no_evidence (new-IsValid n pos small) (new-IsBacked n) in
    let v = run-IsValid cs (new n) (new-IsValid n pos small) in ground arith
