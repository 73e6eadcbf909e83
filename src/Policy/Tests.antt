-- ===== src/Policy/Tests.antt =====
-- The policy's theorems at a concrete policy.
use donkeyspace.Prelude.{
  ◌≡◌, ◌≢◌, ◌↔◌, ◌⊎◌, refl, Bool, true, false, List, [], ◌∷◌, Option, none, some, is_some, Result,
  ok, err,
}
use donkeyspace.Text.{Text, lit, eq_ignore_ascii_case, trim_matches}
use donkeyspace.RunResult.{RunResult, Outcome, Confidence, Risk, validate_for_orchestration}
use donkeyspace.Policy.Engagement.{
  EngagementPolicy, RepositoryEngagementPolicy, EngagementRule, user, initial, blocked_resume,
  find_repository, rule, validate,
}
use donkeyspace.Policy.Engagement.Laws.{
  IsWellFormed, own, rule-IsWellFormed, rule_ignores_case, rule_shields_repository,
}
use donkeyspace.Policy.Labels.{
  WorkflowPolicy, automation_decision_for_labels, Justifies, automation_decision_justified,
}
use donkeyspace.Policy.PathPattern.{path_matches, is_slash}
use donkeyspace.Policy.PathPattern.Decides.{Covers, path_matches_iff}
use donkeyspace.Policy.Risk.{RiskPolicy, apply_result_routing, is_routable, NeedsReview}
use donkeyspace.Policy.Risk.Routing.{apply_result_routing_iff, routed_result}

abbrev nobody : EngagementRule
nobody = record { required_labels = []; allow = [] }

abbrev only_ada : EngagementRule
only_ada = record { required_labels = lit "go" ∷ []; allow = user (lit "ada") ∷ [] }

abbrev rules_of_repository : RepositoryEngagementPolicy
rules_of_repository = record {
  default = nobody;
  initial = some only_ada;
  needs_info_resume = none;
  blocked_resume = none;
  needs_human_resume = none;
}

abbrev with_default : EngagementRule → EngagementPolicy
with_default r = record {
  default = r;
  initial = none;
  needs_info_resume = none;
  blocked_resume = none;
  needs_human_resume = none;
  repositories = (lit "acme/donkey", rules_of_repository) ∷ [];
}

abbrev strict : EngagementPolicy
strict = with_default nobody

strict_accepted : validate strict ≡ ok tt
unfolding validate lit donkeyspace.Text.split_once donkeyspace.Text.is_blank
strict_accepted = refl

rule-IsWellFormed_example : IsWellFormed (rule strict initial (some (lit "ACME/donkey")))
rule-IsWellFormed_example =
    rule-IsWellFormed strict initial (some (lit "ACME/donkey")) strict_accepted

same_name : eq_ignore_ascii_case (lit "ACME/donkey") (lit "acme/Donkey") ≡ true
unfolding eq_ignore_ascii_case lit donkeyspace.Prelude.list_eq
same_name = refl

rule_ignores_case_example :
    rule strict initial (some (lit "ACME/donkey")) ≡ rule strict initial (some (lit "acme/Donkey"))
rule_ignores_case_example =
    rule_ignores_case strict initial (lit "ACME/donkey") (lit "acme/Donkey") same_name

repository_found :
    find_repository (lit "acme/donkey") strict.repositories ≡ some rules_of_repository
unfolding find_repository lit eq_ignore_ascii_case donkeyspace.Prelude.list_eq
repository_found = refl

rule_shields_repository_example :
    (rule strict blocked_resume (some (lit "acme/donkey"))
      ≡ rule (with_default only_ada) blocked_resume (some (lit "acme/donkey")))
    × (((own blocked_resume rules_of_repository ≡ none)
          × (rule strict blocked_resume (some (lit "acme/donkey")) ≡ rules_of_repository.default))
        ⊎ (own blocked_resume rules_of_repository
            ≡ some (rule strict blocked_resume (some (lit "acme/donkey")))))
rule_shields_repository_example =
    rule_shields_repository strict (with_default only_ada) blocked_resume (lit "acme/donkey") refl
      repository_found

abbrev workflow_policy : WorkflowPolicy
workflow_policy = record {
  state_labels = [];
  block_labels = lit "wontfix" ∷ [];
  allow_labels = lit "auto" ∷ [];
  engagement = strict;
}

automation_decision_justified_example :
    Justifies workflow_policy
      (lit "auto" ∷ lit "wontfix" ∷ [])
      (automation_decision_for_labels workflow_policy (lit "auto" ∷ lit "wontfix" ∷ []))
automation_decision_justified_example =
    automation_decision_justified workflow_policy (lit "auto" ∷ lit "wontfix" ∷ [])

abbrev risk_policy : RiskPolicy
risk_policy = record {
  route_unknown_to_human = false;
  route_high_to_human = true;
  human_review_paths = lit "migrations/**" ∷ [];
}

abbrev result : RunResult
result = record {
  outcome = Outcome.implemented;
  summary = lit "done";
  confidence = Confidence.high;
  risk = Risk.low;
  questions = [];
  tests = [];
  changed_files = lit "migrations/1.sql" ∷ [];
  human_review_reason = none;
  blocked_reason = none;
}

apply_result_routing_iff_example :
    (is_some (apply_result_routing risk_policy result).1 ≡ true)
    ↔ ((is_routable result.outcome ≡ true) × NeedsReview risk_policy result)
apply_result_routing_iff_example = apply_result_routing_iff risk_policy result

abbrev result_reason : Text
result_reason = lit "policy requires human review for `migrations/**` changes"

result_routed : (apply_result_routing risk_policy result).1 ≡ some result_reason
unfolding apply_result_routing lit path_matches donkeyspace.Prelude.list_eq trim_matches
    donkeyspace.Text.strip_prefix donkeyspace.Text.strip_suffix donkeyspace.Text.starts_with
result_routed = refl

routed_result_example :
    ((apply_result_routing risk_policy result).0
      ≡ record result { outcome = Outcome.needs_human; human_review_reason = some result_reason })
    × (validate_for_orchestration (apply_result_routing risk_policy result).0 ≡ ok tt)
routed_result_example = routed_result risk_policy result result_routed

abbrev harmless : RunResult
harmless = record result { changed_files = lit "README.md" ∷ [] }

harmless_unrouted : (apply_result_routing risk_policy harmless).1 ≡ none
unfolding apply_result_routing lit path_matches donkeyspace.Prelude.list_eq trim_matches
    donkeyspace.Text.strip_prefix donkeyspace.Text.strip_suffix donkeyspace.Text.starts_with
harmless_unrouted = refl

abbrev pattern : Text
pattern = lit "**/secrets/**"

abbrev secret_path : Text
secret_path = lit "deploy/secrets/key.pem"

path_matches_iff_example :
    (path_matches pattern secret_path ≡ true)
    ↔ Covers (trim_matches is_slash pattern) (trim_matches is_slash secret_path)
path_matches_iff_example = path_matches_iff pattern secret_path
