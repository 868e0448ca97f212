-- ===== src/Core/Evidence.antt =====
-- crates/workflow-core/src/evidence.rs: the record of a run that is evidence, and its validation.
-- An evidence identifier and a timestamp are numbers.
pub mod Consistent
use google_antigravity_cycle.Prelude.{
  ℕ, zero, suc, Bool, true, false, not, ◌||◌, ◌&&◌, Option, none, some, ltb, is_some,
}
use google_antigravity_cycle.Prelude.Int.{ℤ, pos, negsuc}
use google_antigravity_cycle.Prelude.Text.{Text, is_blank}
use google_antigravity_cycle.Prelude.Checks.{◌and_then◌, reject_if}

pub data EvidenceKind : Type 0 where
  command test build lint database browser security inspection «package» : EvidenceKind

pub data EvidenceStatus : Type 0 where
  passed failed skipped : EvidenceStatus

pub record EvidenceRecord : Type 0 where
  pub id : ℕ
  pub candidate_digest : Text
  pub kind : EvidenceKind
  pub invocation : Text
  pub tool : Text
  pub tool_version : Text
  pub started_at : ℕ
  pub finished_at : ℕ
  pub exit_code : Option ℤ
  pub output_digest : Text
  pub status : EvidenceStatus
  pub skip_reason : Option Text

pub data EvidenceValidationError : Type 0 where
  invalid_time_range missing_invocation invalid_exit_code missing_skip_reason
        unexpected_skip_reason :
      EvidenceValidationError

abbrev pub is_inspection : EvidenceKind → Bool
is_inspection inspection = true
is_inspection _ = false

-- `code == 0`
abbrev pub is_zero : ℤ → Bool
is_zero (pos zero) = true
is_zero (pos (suc n)) = false
is_zero (negsuc n) = false

-- `exit_code == Some(0)`
abbrev pub succeeded : Option ℤ → Bool
succeeded none = false
succeeded (some code) = is_zero code

-- `exit_code.is_none_or(|code| code == 0)`
abbrev pub none_or_zero : Option ℤ → Bool
none_or_zero none = true
none_or_zero (some code) = is_zero code

abbrev pub none_or_blank : Option Text → Bool
none_or_blank none = true
none_or_blank (some reason) = is_blank reason

-- The match on the status; the arms with a guard that fails fall through to the next that applies.
abbrev pub check_status : EvidenceRecord → EvidenceStatus → Option EvidenceValidationError
check_status e passed =
    reject_if (not (is_inspection e.kind) && not (succeeded e.exit_code)) invalid_exit_code
    and_then reject_if (is_some e.skip_reason) unexpected_skip_reason
check_status e failed =
    reject_if (none_or_zero e.exit_code) invalid_exit_code
    and_then reject_if (is_some e.skip_reason) unexpected_skip_reason
check_status e skipped = reject_if (none_or_blank e.skip_reason) missing_skip_reason

unfoldable pub validate_evidence : EvidenceRecord → Option EvidenceValidationError
unfolding is_blank
validate_evidence e =
    reject_if (ltb e.finished_at e.started_at) invalid_time_range
    and_then reject_if (is_blank e.invocation || is_blank e.tool) missing_invocation
    and_then check_status e e.status
