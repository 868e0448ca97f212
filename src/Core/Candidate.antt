-- ===== src/Core/Candidate.antt =====
-- crates/workflow-core/src/candidate.rs: the manifest of a candidate. Candidate identifiers are
-- numbers, an evidence identifier is the list of the 16 bytes of its UUID, in whose order they stand.
pub mod Ordered
pub mod Pinned
use google_antigravity_cycle.Prelude.{
  ℕ, Bool, true, false, not, ◌&&◌, ◌||◌, Option, none, some, List, [], ◌∷◌, ◌++◌, ◌==◌,
  if◌then◌else◌, length, is_some, Result, ok, err,
}
use google_antigravity_cycle.Prelude.Text.{Text, text_eq, text_ltb, codes}
use google_antigravity_cycle.Core.Path.{is_safe_relative}
use google_antigravity_cycle.Core.Digest.{
  ContentDigest, write_bytes, write_str, write_bool, write_optional_str, write_digest, write_u64,
}

-- "opencode-workflow/candidate/v1"
abbrev pub candidate_domain : Text
candidate_domain = codes "opencode-workflow/candidate/v1"

pub data CandidateFileKind : Type 0 where
  added deleted generated modified : CandidateFileKind

pub record CandidateFile : Type 0 where
  pub executable : Bool
  pub path : Text
  pub digest : Option ContentDigest
  pub kind : CandidateFileKind

pub record CandidateDigests : Type 0 where
  pub configuration : ContentDigest
  pub dependency_state : ContentDigest
  pub diff : ContentDigest
  pub environment : ContentDigest

pub data CandidateError : Type 0 where
  invalid_path duplicate_path invalid_digest_state : Text → CandidateError
  duplicate_evidence : List ℕ → CandidateError

pub record CandidateManifest : Type 0 where
  pub candidate_id : ℕ
  pub base_revision : Option Text
  pub files : List CandidateFile
  pub diff_digest : ContentDigest
  pub dependency_state_digest : ContentDigest
  pub configuration_digest : ContentDigest
  pub environment_digest : ContentDigest
  pub delivery_payload_digest : Option ContentDigest
  pub evidence_ids : List (List ℕ)

abbrev is_deleted : CandidateFileKind → Bool
is_deleted deleted = true
is_deleted _ = false

abbrev differs : Bool → Bool → Bool
differs true b = not b
differs false b = b

unfoldable pub new_file :
    Text → Option ContentDigest → CandidateFileKind → Result CandidateFile CandidateError
unfolding is_safe_relative
new_file path digest kind =
    if not (is_safe_relative path)
    then err (invalid_path path)
    else if differs (is_deleted kind) (not (is_some digest))
    then err (invalid_digest_state path)
    else ok (record { executable = false; path = path; digest = digest; kind = kind })

-- The sort of the files by their paths, and of the identifiers.
pub place_file : CandidateFile → List CandidateFile → List CandidateFile
place_file f [] = f ∷ []
place_file f (g ∷ gs) =
    let rest = place_file f gs in if text_ltb g.path f.path then g ∷ rest else f ∷ g ∷ gs

pub sort_files : List CandidateFile → List CandidateFile
unfolding place_file
sort_files [] = []
sort_files (f ∷ fs) = place_file f (sort_files fs)

pub place_id : List ℕ → List (List ℕ) → List (List ℕ)
place_id f [] = f ∷ []
place_id f (g ∷ gs) = let rest = place_id f gs in if text_ltb g f then g ∷ rest else f ∷ g ∷ gs

pub sort_ids : List (List ℕ) → List (List ℕ)
unfolding place_id
sort_ids [] = []
sort_ids (f ∷ fs) = place_id f (sort_ids fs)

-- The first path that stands twice, seen on neighbours.
pub repeated_path : List CandidateFile → Option Text
repeated_path (f ∷ g ∷ fs) =
    let rest = repeated_path (g ∷ fs) in if text_eq f.path g.path then some f.path else rest
repeated_path _ = none

abbrev pub has_evidence : List ℕ → List (List ℕ) → Bool
has_evidence x [] = false
has_evidence x (y ∷ ys) = text_eq y x || has_evidence x ys

-- The loop over the identifiers; `seen` are those before.
pub repeated_id : List (List ℕ) → List (List ℕ) → Option (List ℕ)
repeated_id seen [] = none
repeated_id seen (i ∷ is) =
    let rest = repeated_id (i ∷ seen) is in if has_evidence i seen then some i else rest

abbrev manifest :
    ℕ → Option Text → List CandidateFile → CandidateDigests → List (List ℕ) → CandidateManifest
manifest candidate_id base_revision files digests evidence_ids = record {
  candidate_id = candidate_id;
  base_revision = base_revision;
  files = files;
  diff_digest = digests.diff;
  dependency_state_digest = digests.dependency_state;
  configuration_digest = digests.configuration;
  environment_digest = digests.environment;
  delivery_payload_digest = none;
  evidence_ids = evidence_ids;
}

abbrev pub checked :
    Option Text → Option (List ℕ) → CandidateManifest → Result CandidateManifest CandidateError
checked (some path) id m = err (duplicate_path path)
checked none (some id) m = err (duplicate_evidence id)
checked none none m = ok m

unfoldable pub new_manifest :
    ℕ
    → Option Text
    → List CandidateFile
    → CandidateDigests
    → List (List ℕ)
    → Result CandidateManifest CandidateError
unfolding sort_files sort_ids repeated_path repeated_id
new_manifest candidate_id base_revision files digests evidence_ids =
    let sorted = sort_files files in
    let ids = sort_ids evidence_ids in
    checked (repeated_path sorted) (repeated_id [] ids)
      (manifest candidate_id base_revision sorted digests ids)

abbrev pub kind_name : CandidateFileKind → Text
kind_name added = codes "added"
kind_name deleted = codes "deleted"
kind_name generated = codes "generated"
kind_name modified = codes "modified"

abbrev pub write_file_digest : Option ContentDigest → List ℕ
write_file_digest none = write_bool false
write_file_digest (some d) = write_bool true ++ write_digest d

abbrev pub write_files : List CandidateFile → List ℕ → List ℕ
write_files [] rest = rest
write_files (f ∷ fs) rest =
    write_str f.path
    ++ (write_file_digest f.digest ++ (write_str (kind_name f.kind) ++ write_files fs rest))

abbrev pub write_ids : List (List ℕ) → List ℕ → List ℕ
write_ids [] rest = rest
write_ids (i ∷ is) rest = write_bytes i ++ write_ids is rest

abbrev pub write_payload : Option ContentDigest → List ℕ
write_payload none = []
write_payload (some d) = write_bool true ++ write_digest d

-- What `CandidateManifest::digest` feeds to SHA-256.
unfoldable pub digest_input : CandidateManifest → List ℕ
digest_input m =
    write_str candidate_domain
    ++ (write_optional_str m.base_revision
        ++ (write_u64 (length m.files)
            ++ write_files m.files (
                write_digest m.diff_digest
                ++ (write_digest m.dependency_state_digest
                    ++ (write_digest m.configuration_digest
                        ++ (write_digest m.environment_digest
                            ++ (write_u64 (length m.evidence_ids)
                                ++ write_ids m.evidence_ids
                                    (write_payload m.delivery_payload_digest))))))))
