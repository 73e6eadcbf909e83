-- ===== src/RunResult.antt =====
-- crates/donkeyspace-core/src/run_result.rs: the result that an agent reports for one task.
mod Tests
pub mod Merge
use Prim.Native.Nat.{ℕ}
use donkeyspace.Prelude.{
  Bool, true, false, List, Option, none, some, Result, fail_if, ok, is_empty, suc, ℤ, ◌++◌, all,
  not, if◌then◌else◌,
}
use donkeyspace.Text.{Text, lit, is_blank}

pub data Outcome : Type 0 where
  ready needs_info implemented reviewed needs_changes needs_human blocked failed : Outcome

pub data Confidence : Type 0 where
  low medium high : Confidence

pub data Risk : Type 0 where
  low medium high unknown : Risk

pub data TestStatus : Type 0 where
  passed failed skipped not_run : TestStatus

pub record TestResult : Type 0 where
  pub name : Text
  pub command : List Text
  pub status : TestStatus
  pub exit_code : Option ℤ
  pub summary : Option Text

pub record RunResult : Type 0 where
  pub outcome : Outcome
  pub summary : Text
  pub confidence : Confidence
  pub risk : Risk
  pub questions : List Text
  pub tests : List TestResult
  pub changed_files : List Text
  pub human_review_reason : Option Text
  pub blocked_reason : Option Text

pub record AgentHandoff : Type 0 where
  pub target : Text
  pub reason : Text

-- The fields that the coordinator's loop reads; `#[serde(flatten)]` only concerns the JSON form.
pub record PluginTaskResult : Type 0 where
  pub result : RunResult
  pub handoff : Option AgentHandoff
  pub work_items : Option (List Text)

pub data RunResultError : Type 0 where
  missing_question missing_human_review_reason missing_tests low_confidence_ready : RunResultError
  missing_blocked_reason : Outcome → RunResultError

-- `human_review_reason_is_empty` and `blocked_reason_is_empty`, on the field.
abbrev pub reason_is_empty : Option Text → Bool
reason_is_empty none = true
reason_is_empty (some reason) = is_blank reason

abbrev pub is_low : Confidence → Bool
is_low Confidence.low = true
is_low _ = false

-- The `match` on the outcome; a guard that fails falls through to the last arm.
validate_outcome : Outcome → RunResult → Result RunResultError (Unit {0})
validate_outcome Outcome.needs_info r = fail_if (is_empty r.questions) missing_question
validate_outcome Outcome.needs_human r =
    fail_if (reason_is_empty r.human_review_reason) missing_human_review_reason
validate_outcome Outcome.blocked r =
    fail_if (reason_is_empty r.blocked_reason) (missing_blocked_reason Outcome.blocked)
validate_outcome Outcome.failed r =
    fail_if (reason_is_empty r.blocked_reason) (missing_blocked_reason Outcome.failed)
validate_outcome Outcome.implemented r = fail_if (is_empty r.tests) missing_tests
validate_outcome Outcome.ready r = fail_if (is_low r.confidence) low_confidence_ready
validate_outcome _ r = ok tt

unfoldable pub validate_for_orchestration : RunResult → Result RunResultError (Unit {0})
unfolding validate_outcome
validate_for_orchestration r = validate_outcome r.outcome r
