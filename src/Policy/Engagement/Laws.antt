-- ===== src/Policy/Engagement/Laws.antt =====
-- What a validated engagement policy promises about the rule that a gate finds.
use donkeyspace.Prelude.{
  ◌≡◌, refl, Bool, true, false, not, List, [], ◌∷◌, Option, none, some, Result, ok, Memᴰ, ◌⊎◌,
  for_each, contains_mem, ==_iff, All, arith, >>-eq-ok, Option-cases, inl, inr, when_some, text_eq,
  fail_if, ◌>>◌,
}
use donkeyspace.Text.{Text, is_blank, eq_ignore_ascii_case, to_ascii_lowercase}
use donkeyspace.Policy.Engagement.{
  EngagementGate, EngagementSelector, EngagementRule, RepositoryEngagementPolicy, EngagementPolicy,
  rule, rule_or, global_rule, repository_rule, find_repository, validate, validate_rule,
  validate_rules, validate_selector, validate_repository, validate_repository_name, rule_in,
  associations, permissions, initial, needs_info_resume, blocked_resume, needs_human_resume,
}

-- What a selector must look like.
abbrev pub IsSelector : EngagementSelector → Type 0
IsSelector (EngagementSelector.user login) = is_blank login ≡ false
IsSelector (EngagementSelector.bot login) = is_blank login ≡ false
IsSelector (EngagementSelector.organization_member organization) = is_blank organization ≡ false
IsSelector (EngagementSelector.team_member organization team_slug) =
    (is_blank organization ≡ false) × (is_blank team_slug ≡ false)
IsSelector (EngagementSelector.author_association association) = Memᴰ association associations
IsSelector (EngagementSelector.collaborator_permission minimum) = Memᴰ minimum permissions
IsSelector (EngagementSelector.github_app (some id) none) = Unit
IsSelector (EngagementSelector.github_app none (some slug)) = is_blank slug ≡ false
IsSelector (EngagementSelector.github_app _ _) = ⊥
IsSelector _ = Unit

listed : (b : Bool) (e : Text) → fail_if (not b) e ≡ ok tt → b ≡ true
listed b e h = ground arith

validate_selector_sound : (s : EngagementSelector) → validate_selector s ≡ ok tt → IsSelector s
unfolding validate_selector
validate_selector_sound (EngagementSelector.author_association a) h =
    contains_mem associations a (listed _ _ h)
validate_selector_sound (EngagementSelector.collaborator_permission m) h =
    contains_mem permissions m (listed _ _ h)
validate_selector_sound (EngagementSelector.github_app none none) h = cc
validate_selector_sound (EngagementSelector.github_app none (some slug)) h = ground arith
validate_selector_sound (EngagementSelector.github_app (some i) none) h = tt
validate_selector_sound (EngagementSelector.github_app (some i) (some slug)) h = cc
validate_selector_sound (EngagementSelector.user l) h = ground arith
validate_selector_sound (EngagementSelector.bot l) h = ground arith
validate_selector_sound (EngagementSelector.organization_member o) h = ground arith
validate_selector_sound (EngagementSelector.team_member o t) h = ground arith
validate_selector_sound _ h = tt

abbrev pub IsWellFormed : EngagementRule → Type 0
IsWellFormed r = All IsSelector r.allow

each-IsSelector :
    (ss : List EngagementSelector) → for_each validate_selector ss ≡ ok tt → All IsSelector ss
each-IsSelector [] h = tt
each-IsSelector (s ∷ ss) h =
    let (p, q) = >>-eq-ok (validate_selector s) _ h in
    (validate_selector_sound s p, each-IsSelector ss q)

validate_rule-IsWellFormed : (r : EngagementRule) → validate_rule r ≡ ok tt → IsWellFormed r
unfolding validate_rule
validate_rule-IsWellFormed r h = each-IsSelector r.allow h

rule_or-IsWellFormed :
    (o : Option EngagementRule) (d : EngagementRule)
    → when_some o validate_rule ≡ ok tt
    → validate_rule d ≡ ok tt
    → IsWellFormed (rule_or o d)
rule_or-IsWellFormed none d h k = validate_rule-IsWellFormed d k
rule_or-IsWellFormed (some r) d h k = validate_rule-IsWellFormed r h

-- The five checks, taken apart.
validate_rules_parts :
    (d : EngagementRule) (a b c e : Option EngagementRule)
    → validate_rules d (a ∷ b ∷ c ∷ e ∷ []) ≡ ok tt
    → (validate_rule d ≡ ok tt)
      × (when_some a validate_rule ≡ ok tt)
      × (when_some b validate_rule ≡ ok tt)
      × (when_some c validate_rule ≡ ok tt)
      × (when_some e validate_rule ≡ ok tt)
validate_rules_parts d a b c e h = ground arith

repository_rule-IsWellFormed :
    (gate : EngagementGate) (p : RepositoryEngagementPolicy)
    → validate_repository p ≡ ok tt
    → IsWellFormed (repository_rule gate p)
unfolding repository_rule validate_repository
repository_rule-IsWellFormed gate p h =
    let (d, a, b, c, e) =
      validate_rules_parts p.default p.initial p.needs_info_resume p.blocked_resume
        p.needs_human_resume h in
    elim gate as (λ g. IsWellFormed (repository_rule g p)) [
      | initial ↦ rule_or-IsWellFormed p.initial p.default a d
      | needs_info_resume ↦ rule_or-IsWellFormed p.needs_info_resume p.default b d
      | blocked_resume ↦ rule_or-IsWellFormed p.blocked_resume p.default c d
      | needs_human_resume ↦ rule_or-IsWellFormed p.needs_human_resume p.default e d
    ]

global_rule-IsWellFormed :
    (gate : EngagementGate) (p : EngagementPolicy)
    → validate_rules p.default
        (p.initial ∷ p.needs_info_resume ∷ p.blocked_resume ∷ p.needs_human_resume ∷ [])
      ≡ ok tt
    → IsWellFormed (global_rule gate p)
unfolding global_rule
global_rule-IsWellFormed gate p h =
    let (d, a, b, c, e) =
      validate_rules_parts p.default p.initial p.needs_info_resume p.blocked_resume
        p.needs_human_resume h in
    elim gate as (λ g. IsWellFormed (global_rule g p)) [
      | initial ↦ rule_or-IsWellFormed p.initial p.default a d
      | needs_info_resume ↦ rule_or-IsWellFormed p.needs_info_resume p.default b d
      | blocked_resume ↦ rule_or-IsWellFormed p.blocked_resume p.default c d
      | needs_human_resume ↦ rule_or-IsWellFormed p.needs_human_resume p.default e d
    ]

abbrev check_entry : Text × RepositoryEngagementPolicy → Result Text (Unit {0})
check_entry e = validate_repository_name e.0 >> validate_repository e.1

find_repository-validate :
    (repository : Text) (m : List (Text × RepositoryEngagementPolicy))
    (rules : RepositoryEngagementPolicy)
    → for_each check_entry m ≡ ok tt
    → find_repository repository m ≡ some rules
    → validate_repository rules ≡ ok tt
unfolding find_repository
find_repository-validate repository [] rules h f = cc
find_repository-validate repository ((name, r) ∷ m) rules h f =
    let (p, q) = >>-eq-ok (check_entry (name, r)) _ h in
    let (n, v) = >>-eq-ok (validate_repository_name name) _ p in
    ground (arith, find_repository-validate repository m rules q)

abbrev others : EngagementPolicy → List (Option EngagementRule)
others p = p.initial ∷ p.needs_info_resume ∷ p.blocked_resume ∷ p.needs_human_resume ∷ []

validate_parts :
    (p : EngagementPolicy)
    → validate p ≡ ok tt
    → (validate_rules p.default (others p) ≡ ok tt) × (for_each check_entry p.repositories ≡ ok tt)
unfolding validate
validate_parts p h =
    >>-eq-ok (validate_rules p.default (others p)) (for_each check_entry p.repositories) h

-- In a policy that passes `validate` the rule found for any gate and any repository, known or not,
-- has only well-formed selectors: no blank login, organization or slug, a known author association
-- or permission, and a GitHub App by exactly one of id and slug.
pub rule-IsWellFormed :
    (p : EngagementPolicy) (gate : EngagementGate) (repository : Option Text)
    → validate p ≡ ok tt
    → IsWellFormed (rule p gate repository)
unfolding rule
rule-IsWellFormed p gate none h =
    let (g, r) = validate_parts p h in global_rule-IsWellFormed gate p g
rule-IsWellFormed p gate (some repository) h =
    let (g, r) = validate_parts p h in
    elim (Option-cases (find_repository repository p.repositories)) [
      | inl e ↦ rw (e, rule_in) (global_rule-IsWellFormed gate p g)
      | inr (rules, e) ↦
          rw (e, rule_in)
            (repository_rule-IsWellFormed gate rules
              (find_repository-validate repository p.repositories rules r e))
    ]

find_repository_case :
    (a b : Text) (m : List (Text × RepositoryEngagementPolicy))
    → to_ascii_lowercase a ≡ to_ascii_lowercase b
    → find_repository a m ≡ find_repository b m
unfolding find_repository eq_ignore_ascii_case
find_repository_case a b [] h = refl
find_repository_case a b ((name, r) ∷ m) h = rw (h, find_repository_case a b m h)

-- Repository names that differ only in the case of ASCII letters find the same rule at every gate.
pub rule_ignores_case :
    (p : EngagementPolicy) (gate : EngagementGate) (a b : Text)
    → eq_ignore_ascii_case a b ≡ true
    → rule p gate (some a) ≡ rule p gate (some b)
unfolding rule eq_ignore_ascii_case
rule_ignores_case p gate a b h = rw (
    find_repository_case a b p.repositories
      ((==_iff (to_ascii_lowercase a) (to_ascii_lowercase b)).0 h))

-- The rule that a repository states for a gate, if any.
abbrev pub own : EngagementGate → RepositoryEngagementPolicy → Option EngagementRule
own initial r = r.initial
own needs_info_resume r = r.needs_info_resume
own blocked_resume r = r.blocked_resume
own needs_human_resume r = r.needs_human_resume

own_cases :
    (gate : EngagementGate) (r : RepositoryEngagementPolicy)
    → ((own gate r ≡ none) × (repository_rule gate r ≡ r.default))
      ⊎ (own gate r ≡ some (repository_rule gate r))
unfolding repository_rule
own_cases gate r = ground arith

-- A repository with rules of its own gets the rule of the gate there, or else its own default:
-- two policies that agree on the repositories agree on its rule, whatever their global rules are.
pub rule_shields_repository :
    (p q : EngagementPolicy) (gate : EngagementGate) (repository : Text)
    {rules : RepositoryEngagementPolicy}
    → p.repositories ≡ q.repositories
    → find_repository repository p.repositories ≡ some rules
    → (rule p gate (some repository) ≡ rule q gate (some repository))
      × (((own gate rules ≡ none) × (rule p gate (some repository) ≡ rules.default))
          ⊎ (own gate rules ≡ some (rule p gate (some repository))))
unfolding rule repository_rule
rule_shields_repository p q gate repository {rules} e f =
    let g : find_repository repository q.repositories ≡ some rules = rw e at f in
    rw (f, g, rule_in) (refl, own_cases gate rules)
