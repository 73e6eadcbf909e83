-- ===== src/Policy/Engagement.antt =====
-- `EngagementPolicy` of crates/donkeyspace-core/src/policy.rs: who may start or resume work, for
-- each gate and repository. A `PolicyError::Invalid` carries the text of its message.
pub mod Laws
use donkeyspace.Prelude.{
  ℕ, ◌≡◌, refl, Bool, true, false, not, ◌&&◌, ◌||◌, List, [], ◌∷◌, ◌++◌, Option, none, some, Result,
  ok, err, fail_if, ◌>>=◌, ◌>>◌, for_each, when_some, contains, text_eq, is_empty, any, nat_eq,
  if◌then◌else◌,
}
use donkeyspace.Text.{Text, lit, is_blank, eq_ignore_ascii_case, split_once, has_char}

pub data EngagementGate : Type 0 where
  initial needs_info_resume blocked_resume needs_human_resume : EngagementGate

pub data EngagementSelector : Type 0 where
  token_owner any_user issue_author repository_owner repository_organization_member :
      EngagementSelector
  user : (login : Text) → EngagementSelector
  organization_member : (organization : Text) → EngagementSelector
  team_member : (organization team_slug : Text) → EngagementSelector
  author_association : (association : Text) → EngagementSelector
  collaborator_permission : (minimum : Text) → EngagementSelector
  bot : (login : Text) → EngagementSelector
  github_app : (id : Option ℕ) (slug : Option Text) → EngagementSelector

pub record EngagementRule : Type 0 where
  pub required_labels : List Text
  pub allow : List EngagementSelector

pub record RepositoryEngagementPolicy : Type 0 where
  pub default : EngagementRule
  pub initial : Option EngagementRule
  pub needs_info_resume : Option EngagementRule
  pub blocked_resume : Option EngagementRule
  pub needs_human_resume : Option EngagementRule

pub record EngagementPolicy : Type 0 where
  pub default : EngagementRule
  pub initial : Option EngagementRule
  pub needs_info_resume : Option EngagementRule
  pub blocked_resume : Option EngagementRule
  pub needs_human_resume : Option EngagementRule
  pub repositories : List (Text × RepositoryEngagementPolicy)

abbrev pub rule_or : Option EngagementRule → EngagementRule → EngagementRule
rule_or none d = d
rule_or (some r) d = r

unfoldable pub repository_rule : EngagementGate → RepositoryEngagementPolicy → EngagementRule
repository_rule initial p = rule_or p.initial p.default
repository_rule needs_info_resume p = rule_or p.needs_info_resume p.default
repository_rule blocked_resume p = rule_or p.blocked_resume p.default
repository_rule needs_human_resume p = rule_or p.needs_human_resume p.default

unfoldable pub global_rule : EngagementGate → EngagementPolicy → EngagementRule
global_rule initial p = rule_or p.initial p.default
global_rule needs_info_resume p = rule_or p.needs_info_resume p.default
global_rule blocked_resume p = rule_or p.blocked_resume p.default
global_rule needs_human_resume p = rule_or p.needs_human_resume p.default

-- `repositories.iter().find_map(…)`: the first entry whose name matches but for ASCII case.
unfoldable pub find_repository :
    Text → List (Text × RepositoryEngagementPolicy) → Option RepositoryEngagementPolicy
find_repository repository [] = none
find_repository repository ((name, rules) ∷ more) =
    let later = find_repository repository more in
    if eq_ignore_ascii_case name repository then some rules else later

rule_in : EngagementGate → EngagementPolicy → Option RepositoryEngagementPolicy → EngagementRule
unfolding repository_rule global_rule
rule_in gate p none = global_rule gate p
rule_in gate p (some rules) = repository_rule gate rules

unfoldable pub rule : EngagementPolicy → EngagementGate → Option Text → EngagementRule
unfolding global_rule rule_in find_repository
rule p gate none = global_rule gate p
rule p gate (some repository) = rule_in gate p (find_repository repository p.repositories)

unfoldable pub nonempty : Text → Text → Result Text (Unit {0})
nonempty name value =
    fail_if (is_blank value) (lit "engagement selector `" ++ (name ++ lit "` cannot be empty"))

abbrev pub associations : List Text
associations =
    lit "COLLABORATOR"
    ∷ lit "CONTRIBUTOR"
    ∷ lit "FIRST_TIMER"
    ∷ lit "FIRST_TIME_CONTRIBUTOR"
    ∷ lit "MANNEQUIN"
    ∷ lit "MEMBER"
    ∷ lit "NONE"
    ∷ lit "OWNER"
    ∷ []

abbrev pub permissions : List Text
permissions = lit "read" ∷ lit "triage" ∷ lit "write" ∷ lit "maintain" ∷ lit "admin" ∷ []

unfoldable pub validate_selector : EngagementSelector → Result Text (Unit {0})
unfolding nonempty
validate_selector (user login) = nonempty (lit "login") login
validate_selector (bot login) = nonempty (lit "login") login
validate_selector (organization_member organization) = nonempty (lit "organization") organization
validate_selector (team_member organization team_slug) = do
  nonempty (lit "organization") organization
  nonempty (lit "team_slug") team_slug
validate_selector (author_association association) =
    fail_if (not (contains associations association))
      (lit "unknown GitHub author association `" ++ (association ++ lit "`"))
validate_selector (collaborator_permission minimum) =
    fail_if (not (contains permissions minimum))
      (lit "unknown GitHub collaborator permission `" ++ (minimum ++ lit "`"))
validate_selector (github_app (some id) none) = ok tt
validate_selector (github_app none (some slug)) = nonempty (lit "slug") slug
validate_selector (github_app _ _) =
    err (lit "github_app selector requires exactly one of `id` or `slug`")
validate_selector _ = ok tt

unfoldable pub validate_rule : EngagementRule → Result Text (Unit {0})
unfolding validate_selector
validate_rule r = for_each validate_selector r.allow

-- The loop over the default and the four optional rules.
abbrev validate_rules : EngagementRule → List (Option EngagementRule) → Result Text (Unit {0})
validate_rules default others = do
  validate_rule default
  for_each (λ o. when_some o validate_rule) others

unfoldable pub validate_repository : RepositoryEngagementPolicy → Result Text (Unit {0})
unfolding validate_rule
validate_repository p =
    validate_rules p.default
      (p.initial ∷ p.needs_info_resume ∷ p.blocked_resume ∷ p.needs_human_resume ∷ [])

abbrev is_owner_and_name : Option (Text × Text) → Bool
is_owner_and_name none = false
is_owner_and_name (some (owner, name)) =
    not (is_empty owner) && not (is_empty name) && not (has_char b'/' name)

unfoldable pub validate_repository_name : Text → Result Text (Unit {0})
validate_repository_name repository =
    fail_if (not (is_owner_and_name (split_once b'/' repository)))
      (lit "engagement repository `" ++ (repository ++ lit "` must use owner/name"))

unfoldable pub validate : EngagementPolicy → Result Text (Unit {0})
unfolding validate_rule validate_repository validate_repository_name
validate p = do
  validate_rules p.default
      (p.initial ∷ p.needs_info_resume ∷ p.blocked_resume ∷ p.needs_human_resume ∷ [])
  for_each
      (λ (e : Text × RepositoryEngagementPolicy).
        validate_repository_name e.0 >> validate_repository e.1)
      p.repositories
