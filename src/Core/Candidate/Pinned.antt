-- ===== src/Core/Candidate/Pinned.antt =====
-- crates/workflow-core/src/candidate.rs: what the digest of a candidate pins down.
use google_antigravity_cycle.Prelude.{
  ℕ, ◌≡◌, ◌<◌, Option, none, some, List, [], ◌∷◌, ◌++◌, length, map, All, arith, refl, sym, ap, ◌∙◌,
  append_inj,
}
use google_antigravity_cycle.Prelude.Bytes.{u64_bound}
use google_antigravity_cycle.Prelude.Text.{as_bytes}
use google_antigravity_cycle.Core.Digest.{ContentDigest, write_bytes, write_str}
use google_antigravity_cycle.Core.Digest.Canonical.{
  write_u64_inj, write_bytes_inj, write_optional_str_inj, optional_bytes, Fits,
}
use google_antigravity_cycle.Core.Candidate.{
  CandidateFile, CandidateFileKind, CandidateManifest, added, deleted, generated, modified,
  candidate_domain, kind_name, write_file_digest, write_files, write_ids, write_payload,
  digest_input,
}

-- What of a file is written: the bytes of its path, its digest and its kind, not the executable flag.
abbrev pub content : CandidateFile → List ℕ × Option ContentDigest × CandidateFileKind
content f = (as_bytes f.path, f.digest, f.kind)

abbrev pub IsFile : CandidateFile → Type 0
IsFile f = (length (as_bytes f.path) < u64_bound) × Fits f.digest

-- The sizes that the types of the source have, and counts that fit in a `u64`.
pub record IsSized (m : CandidateManifest) : Type 0 where
  pub revision : Fits (optional_bytes m.base_revision)
  pub file_count : length m.files < u64_bound
  pub files : All IsFile m.files
  pub diff : length m.diff_digest ≡ 32
  pub dependency_state : length m.dependency_state_digest ≡ 32
  pub configuration : length m.configuration_digest ≡ 32
  pub environment : length m.environment_digest ≡ 32
  pub evidence_count : length m.evidence_ids < u64_bound
  pub evidence : All (λ i. length i ≡ 16) m.evidence_ids
  pub payload : Fits m.delivery_payload_digest

-- Two manifests with the same base, files, digests, payload and evidence.
pub record SameContent (a b : CandidateManifest) : Type 0 where
  pub revision : optional_bytes a.base_revision ≡ optional_bytes b.base_revision
  pub files : map content a.files ≡ map content b.files
  pub diff : a.diff_digest ≡ b.diff_digest
  pub dependency_state : a.dependency_state_digest ≡ b.dependency_state_digest
  pub configuration : a.configuration_digest ≡ b.configuration_digest
  pub environment : a.environment_digest ≡ b.environment_digest
  pub evidence : a.evidence_ids ≡ b.evidence_ids
  pub payload : a.delivery_payload_digest ≡ b.delivery_payload_digest

abbrev kind_size : CandidateFileKind → ℕ
kind_size added = 5
kind_size deleted = 7
kind_size generated = 9
kind_size modified = 8

length-kind_name : (k : CandidateFileKind) → length (as_bytes (kind_name k)) ≡ kind_size k
unfolding as_bytes
length-kind_name added = refl
length-kind_name deleted = refl
length-kind_name generated = refl
length-kind_name modified = refl

kind_size_inj : (a b : CandidateFileKind) → kind_size a ≡ kind_size b → a ≡ b
kind_size_inj a b h = ground arith

kind_fits : (k : CandidateFileKind) → length (as_bytes (kind_name k)) < u64_bound
kind_fits k = rw (length-kind_name k) (ground arith)

write_file_digest_inj :
    (a b : Option ContentDigest) (x y : List ℕ)
    → Fits a
    → Fits b
    → write_file_digest a ++ x ≡ write_file_digest b ++ y
    → (a ≡ b) × (x ≡ y)
write_file_digest_inj none none x y ha hb e =
    let (_, r) = append_inj (0 ∷ []) (0 ∷ []) refl e in (refl, r)
write_file_digest_inj none (some b) x y ha hb e = absurd (ground arith)
write_file_digest_inj (some a) none x y ha hb e = absurd (ground arith)
write_file_digest_inj (some a) (some b) x y ha hb e =
    let (_, r) = append_inj (1 ∷ []) (1 ∷ []) refl e in
    let (same, rest) = write_bytes_inj a b x y ha hb r in (ap some same, rest)

write_files_inj :
    (ls ms : List CandidateFile) (x y : List ℕ)
    → length ls ≡ length ms
    → All IsFile ls
    → All IsFile ms
    → write_files ls x ≡ write_files ms y
    → (map content ls ≡ map content ms) × (x ≡ y)
write_files_inj [] [] x y n ha hb e = (refl, e)
write_files_inj [] (b ∷ ms) x y n ha hb e = absurd (ground arith)
write_files_inj (a ∷ ls) [] x y n ha hb e = absurd (ground arith)
write_files_inj (a ∷ ls) (b ∷ ms) x y n ((pa, da), ha) ((pb, db), hb) e =
    let (path, e1) = write_bytes_inj (as_bytes a.path) (as_bytes b.path) _ _ pa pb e in
    let (digest, e2) = write_file_digest_inj a.digest b.digest _ _ da db e1 in
    let (name, e3) =
      write_bytes_inj (as_bytes (kind_name a.kind)) (as_bytes (kind_name b.kind)) (write_files ls x)
        (write_files ms y) (kind_fits a.kind) (kind_fits b.kind) e2 in
    let kind : a.kind ≡ b.kind =
      kind_size_inj a.kind b.kind
        (sym (length-kind_name a.kind) ∙ ap length name ∙ length-kind_name b.kind) in
    let (rest, e4) = write_files_inj ls ms x y (omega (arith, n)) ha hb e3 in
    (λ i. (path i, digest i, kind i) ∷ rest i, e4)

write_ids_inj :
    (ls ms : List (List ℕ)) (x y : List ℕ)
    → length ls ≡ length ms
    → All (λ i. length i ≡ 16) ls
    → All (λ i. length i ≡ 16) ms
    → write_ids ls x ≡ write_ids ms y
    → (ls ≡ ms) × (x ≡ y)
write_ids_inj [] [] x y n ha hb e = (refl, e)
write_ids_inj [] (b ∷ ms) x y n ha hb e = absurd (ground arith)
write_ids_inj (a ∷ ls) [] x y n ha hb e = absurd (ground arith)
write_ids_inj (a ∷ ls) (b ∷ ms) x y n (sa, ha) (sb, hb) e =
    let (same, e1) =
      write_bytes_inj a b (write_ids ls x) (write_ids ms y) (omega (arith, sa)) (omega (arith, sb))
        e in
    let (rest, e2) = write_ids_inj ls ms x y (omega (arith, n)) ha hb e1 in
    (λ i. same i ∷ rest i, e2)

append_nil : (xs : List ℕ) → xs ++ [] ≡ xs
append_nil [] = refl
append_nil (x ∷ xs) = ap (λ r. x ∷ r) (append_nil xs)

write_payload_inj :
    (a b : Option ContentDigest) → Fits a → Fits b → write_payload a ≡ write_payload b → a ≡ b
write_payload_inj none none ha hb e = refl
write_payload_inj none (some b) ha hb e = absurd (ground arith)
write_payload_inj (some a) none ha hb e = absurd (ground arith)
write_payload_inj (some a) (some b) ha hb e =
    let (_, r) = append_inj (1 ∷ []) (1 ∷ []) refl e in
    let (same, _) =
      write_bytes_inj a b [] [] ha hb
        (append_nil (write_bytes a) ∙ r ∙ sym (append_nil (write_bytes b))) in
    ap some same

digest_inj :
    (a b x y : List ℕ)
    → length a ≡ 32
    → length b ≡ 32
    → write_bytes a ++ x ≡ write_bytes b ++ y
    → (a ≡ b) × (x ≡ y)
digest_inj a b x y ha hb e = write_bytes_inj a b x y (omega (arith, ha)) (omega (arith, hb)) e

-- Two manifests whose hashed bytes are the same have the same base revision, the same files with the
-- same digests and kinds in the same order, the same four digests, the same evidence and the same
-- payload digest, where their counts and the lengths of their texts fit in a `u64`.
pub digest_input-SameContent :
    (a b : CandidateManifest)
    → IsSized a
    → IsSized b
    → digest_input a ≡ digest_input b
    → SameContent a b
unfolding digest_input
digest_input-SameContent a b ha hb e =
    let (_, e1) = append_inj (write_str candidate_domain) (write_str candidate_domain) refl e in
    let (revision, e2) =
      write_optional_str_inj a.base_revision b.base_revision _ _ ha.revision hb.revision e1 in
    let (count, e3) =
      write_u64_inj (length a.files) (length b.files) _ _ ha.file_count hb.file_count e2 in
    let (files, e4) = write_files_inj a.files b.files _ _ count ha.files hb.files e3 in
    let (diff, e5) = digest_inj a.diff_digest b.diff_digest _ _ ha.diff hb.diff e4 in
    let (state, e6) =
      digest_inj a.dependency_state_digest b.dependency_state_digest _ _ ha.dependency_state
        hb.dependency_state e5 in
    let (configuration, e7) =
      digest_inj a.configuration_digest b.configuration_digest _ _ ha.configuration hb.configuration
        e6 in
    let (environment, e8) =
      digest_inj a.environment_digest b.environment_digest _ _ ha.environment hb.environment e7 in
    let (evidence_count, e9) =
      write_u64_inj (length a.evidence_ids) (length b.evidence_ids) _ _ ha.evidence_count
        hb.evidence_count e8 in
    let (evidence, e10) =
      write_ids_inj a.evidence_ids b.evidence_ids _ _ evidence_count ha.evidence hb.evidence e9 in
    record {
      revision = revision;
      files = files;
      diff = diff;
      dependency_state = state;
      configuration = configuration;
      environment = environment;
      evidence = evidence;
      payload =
          write_payload_inj a.delivery_payload_digest b.delivery_payload_digest ha.payload
            hb.payload e10;
    }
