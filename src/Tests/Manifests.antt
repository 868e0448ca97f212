-- ===== src/Tests/Manifests.antt =====
-- crates/workflow-core/src/digest.rs, candidate.rs and architecture.rs on small inputs.
use google_antigravity_cycle.Prelude.{
  ◌↔◌, ◌≡◌, ◌<◌, false, none, some, List, [], ◌∷◌, ok, err, refl, arith, replicate, All,
}
use google_antigravity_cycle.Prelude.Text.{Text, text_ltb, text_eq, as_bytes, is_blank}
use google_antigravity_cycle.Prelude.Maps.{get, insert, nat_beq}
use google_antigravity_cycle.Core.Path.{is_safe_relative, overlaps}
use google_antigravity_cycle.Core.Digest.{ContentDigest, display, from_str}
use google_antigravity_cycle.Core.Digest.Hex.{from_str-display}
use google_antigravity_cycle.Core.Candidate.{
  CandidateFile, CandidateDigests, CandidateManifest, added, deleted, invalid_path, duplicate_path,
  new_file, new_manifest, digest_input,
}
use google_antigravity_cycle.Core.Candidate.Ordered.{IsOrdered, new_manifest-IsOrdered}
use google_antigravity_cycle.Core.Candidate.Pinned.{IsSized, SameContent, digest_input-SameContent}
use google_antigravity_cycle.Core.Architecture.{
  Requirement, PlannedTask, ArchitecturePlan, missing_requirement_coverage, valid_text, valid_key,
  validate_plan,
}
use google_antigravity_cycle.Core.Architecture.Judged.{Judged, validate_plan-Judged}
use google_antigravity_cycle.Core.Dag.{validate}
use google_antigravity_cycle.Core.Evidence.{
  EvidenceRecord, test, passed, failed, invalid_exit_code, validate_evidence,
}
use google_antigravity_cycle.Core.Evidence.Consistent.{IsConsistent, validate_iff}
use google_antigravity_cycle.Prelude.Int.{pos}

abbrev zeros : ContentDigest
zeros = replicate 32 0

from_str-display_example : from_str (display zeros) ≡ ok zeros
from_str-display_example = from_str-display zeros refl zeros_bytes
  where
    zeros_bytes : All (λ b. b < 256) zeros
    zeros_bytes = ground arith

abbrev file : Text → CandidateFile
file path = record { executable = false; path = path; digest = some zeros; kind = added }

abbrev digests : CandidateDigests
digests = record {
  configuration = zeros;
  dependency_state = zeros;
  diff = zeros;
  environment = zeros;
}

abbrev two_files : CandidateManifest
two_files = record {
  candidate_id = 1;
  base_revision = none;
  files = file (97 ∷ []) ∷ file (98 ∷ []) ∷ [];
  diff_digest = zeros;
  dependency_state_digest = zeros;
  configuration_digest = zeros;
  environment_digest = zeros;
  delivery_payload_digest = none;
  evidence_ids = [];
}

two_files_sorted :
    new_manifest 1 none (file (98 ∷ []) ∷ file (97 ∷ []) ∷ []) digests [] ≡ ok two_files
unfolding new_manifest text_ltb text_eq
two_files_sorted = refl

same_path_refused :
    new_manifest 1 none (file (97 ∷ []) ∷ file (97 ∷ []) ∷ []) digests []
    ≡ err (duplicate_path (97 ∷ []))
unfolding new_manifest text_ltb text_eq
same_path_refused = refl

parent_refused : new_file (46 ∷ 46 ∷ []) none deleted ≡ err (invalid_path (46 ∷ 46 ∷ []))
unfolding new_file is_safe_relative
parent_refused = refl

new_manifest-IsOrdered_example : IsOrdered (file (98 ∷ []) ∷ file (97 ∷ []) ∷ []) two_files
new_manifest-IsOrdered_example =
    new_manifest-IsOrdered 1 none (file (98 ∷ []) ∷ file (97 ∷ []) ∷ []) digests [] two_files
      two_files_sorted

two_files-IsSized : IsSized two_files
unfolding as_bytes
two_files-IsSized = record {
  revision = tt;
  file_count = ground arith;
  files = ((ground arith, ground arith), ((ground arith, ground arith), tt));
  diff = refl;
  dependency_state = refl;
  configuration = refl;
  environment = refl;
  evidence_count = ground arith;
  evidence = tt;
  payload = tt;
}

-- Another candidate with the same content.
abbrev twin : CandidateManifest
twin = record two_files { candidate_id = 2 }

twin-IsSized : IsSized twin
unfolding as_bytes
twin-IsSized = record {
  revision = tt;
  file_count = ground arith;
  files = ((ground arith, ground arith), ((ground arith, ground arith), tt));
  diff = refl;
  dependency_state = refl;
  configuration = refl;
  environment = refl;
  evidence_count = ground arith;
  evidence = tt;
  payload = tt;
}

same_bytes : digest_input two_files ≡ digest_input twin
unfolding digest_input
same_bytes = refl

digest_input-SameContent_example : SameContent two_files twin
digest_input-SameContent_example =
    digest_input-SameContent two_files twin two_files-IsSized twin-IsSized same_bytes

abbrev word : Text
word = 97 ∷ []

abbrev requirement : Text → Requirement
requirement id = record { acceptance_criteria = word ∷ []; id = id; statement = word }

abbrev task : PlannedTask
task = record {
  acceptance_criteria = word ∷ [];
  dependencies = [];
  id = 1;
  objective = word;
  requirement_ids = word ∷ [];
  title = word;
  verification_commands = word ∷ [];
  write_scopes = word ∷ [];
}

abbrev plan : List Requirement → ArchitecturePlan
plan requirements = record {
  assumptions = [];
  integration_checks = word ∷ [];
  request_digest = zeros;
  requirements = requirements;
  risks = [];
  tasks = task ∷ [];
}

one_requirement :
    validate_plan (plan (requirement word ∷ [])) ≡ some (ok (plan (requirement word ∷ [])))
unfolding validate_plan validate valid_text valid_key text_ltb text_eq get insert nat_beq
    is_safe_relative overlaps
one_requirement = refl

not_covered :
    validate_plan (plan (requirement word ∷ requirement (98 ∷ []) ∷ []))
    ≡ some (err (missing_requirement_coverage (98 ∷ [])))
unfolding validate_plan validate valid_text valid_key text_ltb text_eq get insert nat_beq
    is_safe_relative overlaps
not_covered = refl

validate_plan-Judged_example :
    Judged (plan (requirement word ∷ [])) (validate_plan (plan (requirement word ∷ [])))
validate_plan-Judged_example = validate_plan-Judged (plan (requirement word ∷ []))

abbrev exit_one : EvidenceRecord
exit_one = record {
  id = 1;
  candidate_digest = zeros;
  kind = test;
  invocation = word;
  tool = word;
  tool_version = word;
  started_at = 1;
  finished_at = 2;
  exit_code = some (pos 1);
  output_digest = zeros;
  status = passed;
  skip_reason = none;
}

passed_with_one : validate_evidence exit_one ≡ some invalid_exit_code
unfolding validate_evidence is_blank
passed_with_one = refl

validate_iff_example :
    (validate_evidence (record exit_one { status = failed }) ≡ none)
    ↔ IsConsistent (record exit_one { status = failed })
validate_iff_example = validate_iff (record exit_one { status = failed })
