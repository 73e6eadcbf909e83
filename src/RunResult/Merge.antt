-- ===== src/RunResult/Merge.antt =====
-- How the coordinator folds results together: `max_risk` and `min_confidence` in
-- crates/donkeyspace-worker/src/plugin_flow.rs, `apply_validator_results` in
-- crates/donkeyspace-worker/src/plugin_flow/execution.rs.
use Prim.Native.Nat.{ℕ}
use donkeyspace.Prelude.{
  Bool, true, false, List, [], ◌∷◌, some, ok, ◌++◌, all, not, if◌then◌else◌, leb, ◌≡◌, refl, arith,
  ◌≤◌, is_empty,
}
use donkeyspace.Text.{lit, is_blank}
use donkeyspace.RunResult.{
  reason_is_empty, RunResult, Risk, Confidence, TestResult, TestStatus, Outcome,
  validate_for_orchestration,
}

pub max_risk_rank : Risk → ℕ
max_risk_rank Risk.low = 0
max_risk_rank Risk.medium = 1
max_risk_rank Risk.unknown = 2
max_risk_rank Risk.high = 3

unfoldable pub max_risk : Risk → Risk → Risk
unfolding max_risk_rank
max_risk left right = if leb (max_risk_rank right) (max_risk_rank left) then left else right

pub min_confidence_rank : Confidence → ℕ
min_confidence_rank Confidence.low = 0
min_confidence_rank Confidence.medium = 1
min_confidence_rank Confidence.high = 2

unfoldable pub min_confidence : Confidence → Confidence → Confidence
unfolding min_confidence_rank
min_confidence left right =
    if leb (min_confidence_rank left) (min_confidence_rank right) then left else right

abbrev pub is_passed : TestResult → Bool
is_passed t = elim t.status [ TestStatus.passed ↦ true | _ ↦ false ]

unfoldable pub apply_validator_results : RunResult → List TestResult → RunResult
apply_validator_results r results =
    let tested = record r { tests = r.tests ++ results } in
    if not (all is_passed results)
    then record tested {
      outcome = Outcome.failed;
      blocked_reason = some (lit "plugin validator failed");
    }
    else tested

max_risk_comm : (a b : Risk) → max_risk a b ≡ max_risk b a
unfolding max_risk
max_risk_comm a b = ground arith

max_risk_assoc : (a b c : Risk) → max_risk (max_risk a b) c ≡ max_risk a (max_risk b c)
unfolding max_risk
max_risk_assoc a b c = ground arith

min_confidence_comm : (a b : Confidence) → min_confidence a b ≡ min_confidence b a
unfolding min_confidence
min_confidence_comm a b = ground arith

min_confidence_assoc :
    (a b c : Confidence)
    → min_confidence (min_confidence a b) c ≡ min_confidence a (min_confidence b c)
unfolding min_confidence
min_confidence_assoc a b c = ground arith

-- The merged risk ranks at least as high as each of the two, the merged confidence at most, and
-- neither depends on the order in which results are merged or on how they are bracketed.
pub merge_bounds :
    (a b c : Risk) (x y z : Confidence)
    → (max_risk_rank a ≤ max_risk_rank (max_risk a b))
      × (max_risk_rank b ≤ max_risk_rank (max_risk a b))
      × (max_risk a b ≡ max_risk b a)
      × (max_risk (max_risk a b) c ≡ max_risk a (max_risk b c))
      × (min_confidence_rank (min_confidence x y) ≤ min_confidence_rank x)
      × (min_confidence_rank (min_confidence x y) ≤ min_confidence_rank y)
      × (min_confidence x y ≡ min_confidence y x)
      × (min_confidence (min_confidence x y) z ≡ min_confidence x (min_confidence y z))
unfolding max_risk min_confidence
merge_bounds a b c x y z = (
  ground arith,
  ground arith,
  max_risk_comm a b,
  max_risk_assoc a b c,
  ground arith,
  ground arith,
  min_confidence_comm x y,
  min_confidence_assoc x y z,
)

-- `is_publishable`.
unfoldable pub is_publishable : Outcome → Bool
is_publishable Outcome.implemented = true
is_publishable _ = false

-- A result that is publishable after its validators ran was `implemented` before, and every
-- validator passed; its test results are all kept.
pub publishable_passed :
    (r : RunResult) (results : List TestResult)
    → is_publishable (apply_validator_results r results).outcome ≡ true
    → (all is_passed results ≡ true)
      × (r.outcome ≡ Outcome.implemented)
      × ((apply_validator_results r results).tests ≡ r.tests ++ results)
unfolding apply_validator_results is_publishable
publishable_passed r results h = ground arith

plugin_validator_failed : reason_is_empty (some (lit "plugin validator failed")) ≡ false
unfolding lit is_blank
plugin_validator_failed = refl

tests_stay : (xs ys : List TestResult) → is_empty xs ≡ false → is_empty (xs ++ ys) ≡ false
tests_stay [] ys h = cc
tests_stay (x ∷ xs) ys h = refl

valid_after :
    (o : Outcome) (r : RunResult) (results : List TestResult)
    → r.outcome ≡ o
    → validate_for_orchestration r ≡ ok tt
    → validate_for_orchestration (apply_validator_results r results) ≡ ok tt
unfolding apply_validator_results validate_for_orchestration
valid_after Outcome.implemented r results e h =
    ground (arith, plugin_validator_failed, tests_stay r.tests results)
valid_after _ r results e h = ground (arith, plugin_validator_failed)

-- A result that is fit for orchestration stays so when the outcome of its validators, of any
-- number and either way, is added to it.
pub apply_validator_results_valid :
    (r : RunResult) (results : List TestResult)
    → validate_for_orchestration r ≡ ok tt
    → validate_for_orchestration (apply_validator_results r results) ≡ ok tt
apply_validator_results_valid r results h = valid_after r.outcome r results refl h
