-- ===== src/RunResult/Tests.antt =====
-- Merging and validators at concrete results.
use donkeyspace.Prelude.{◌≡◌, ◌≤◌, refl, true, [], ◌∷◌, ◌++◌, none, ok, all}
use donkeyspace.Text.{lit}
use donkeyspace.RunResult.{
  RunResult, Outcome, Confidence, Risk, TestResult, TestStatus, validate_for_orchestration,
}
use donkeyspace.RunResult.Merge.{
  max_risk, max_risk_rank, min_confidence, min_confidence_rank, merge_bounds, is_passed,
  publishable_passed, apply_validator_results, apply_validator_results_valid,
}

abbrev passing : TestResult
passing = record {
  name = lit "build";
  command = lit "make" ∷ [];
  status = TestStatus.passed;
  exit_code = none;
  summary = none;
}

abbrev failing : TestResult
failing = record {
  name = lit "lint";
  command = lit "lint" ∷ [];
  status = TestStatus.failed;
  exit_code = none;
  summary = none;
}

abbrev implemented : RunResult
implemented = record {
  outcome = Outcome.implemented;
  summary = lit "done";
  confidence = Confidence.high;
  risk = Risk.low;
  questions = [];
  tests = passing ∷ [];
  changed_files = lit "src/main.rs" ∷ [];
  human_review_reason = none;
  blocked_reason = none;
}

implemented_valid : validate_for_orchestration implemented ≡ ok tt
unfolding validate_for_orchestration lit
implemented_valid = refl

merge_bounds_example :
    (max_risk_rank Risk.low ≤ max_risk_rank (max_risk Risk.low Risk.high))
    × (max_risk_rank Risk.high ≤ max_risk_rank (max_risk Risk.low Risk.high))
    × (max_risk Risk.low Risk.high ≡ max_risk Risk.high Risk.low)
    × (max_risk (max_risk Risk.low Risk.high) Risk.unknown
        ≡ max_risk Risk.low (max_risk Risk.high Risk.unknown))
    × (min_confidence_rank (min_confidence Confidence.high Confidence.low)
        ≤ min_confidence_rank Confidence.high)
    × (min_confidence_rank (min_confidence Confidence.high Confidence.low)
        ≤ min_confidence_rank Confidence.low)
    × (min_confidence Confidence.high Confidence.low
        ≡ min_confidence Confidence.low Confidence.high)
    × (min_confidence (min_confidence Confidence.high Confidence.low) Confidence.medium
        ≡ min_confidence Confidence.high (min_confidence Confidence.low Confidence.medium))
merge_bounds_example =
    merge_bounds Risk.low Risk.high Risk.unknown Confidence.high Confidence.low Confidence.medium

publishable_passed_example :
    (all is_passed (passing ∷ []) ≡ true)
    × (implemented.outcome ≡ Outcome.implemented)
    × ((apply_validator_results implemented (passing ∷ [])).tests
        ≡ implemented.tests ++ passing ∷ [])
unfolding apply_validator_results donkeyspace.RunResult.Merge.is_publishable
publishable_passed_example = publishable_passed implemented (passing ∷ []) refl

apply_validator_results_valid_example :
    validate_for_orchestration (apply_validator_results implemented (passing ∷ failing ∷ []))
    ≡ ok tt
apply_validator_results_valid_example =
    apply_validator_results_valid implemented (passing ∷ failing ∷ []) implemented_valid
