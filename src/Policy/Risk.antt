-- ===== src/Policy/Risk.antt =====
-- `RiskPolicy` of crates/donkeyspace-core/src/policy.rs: which results a person must look at.
pub mod Routing
use donkeyspace.Prelude.{
  ◌≡◌, refl, ◌≢◌, Bool, true, false, not, ◌&&◌, List, [], ◌∷◌, ◌++◌, Option, none, some, Memᴰ, ◌⊎◌,
  inl, inr, sym, any, any_intro, any_elim, find, if◌then◌else◌, arith, Option-cases, Bool-cases,
  ◌↔◌, ok,
}
use donkeyspace.Text.{Text, lit, is_blank}
use donkeyspace.RunResult.{RunResult, Outcome, Risk, validate_for_orchestration}
use donkeyspace.Policy.PathPattern.{path_matches}

pub record RiskPolicy : Type 0 where
  pub route_unknown_to_human : Bool
  pub route_high_to_human : Bool
  pub human_review_paths : List Text

abbrev pub is_high : Risk → Bool
is_high Risk.high = true
is_high _ = false

abbrev pub is_unknown : Risk → Bool
is_unknown Risk.unknown = true
is_unknown _ = false

-- The first guard of `apply_result_routing`, negated.
abbrev pub is_routable : Outcome → Bool
is_routable Outcome.ready = true
is_routable Outcome.implemented = true
is_routable _ = false

abbrev pub touches : RunResult → Text → Bool
touches result pattern = any (path_matches pattern) result.changed_files

abbrev path_reason : Option Text → Option Text
path_reason none = none
path_reason (some pattern) =
    some (lit "policy requires human review for `" ++ (pattern ++ lit "` changes"))

unfoldable pub routing_reason : RiskPolicy → RunResult → Option Text
routing_reason p result =
    if p.route_high_to_human && is_high result.risk
    then some (lit "policy routes high-risk work to human review")
    else if p.route_unknown_to_human && is_unknown result.risk
    then some (lit "policy routes unknown-risk work to human review")
    else path_reason (find (touches result) p.human_review_paths)

route : RunResult → Option Text → RunResult × Option Text
route result none = (result, none)
route result (some reason) = (
  record result { outcome = Outcome.needs_human; human_review_reason = some reason },
  some reason,
)

-- The result is changed in place; the reason is returned.
unfoldable pub apply_result_routing : RiskPolicy → RunResult → RunResult × Option Text
unfolding routing_reason route
apply_result_routing p result =
    if is_routable result.outcome then route result (routing_reason p result) else (result, none)

-- Why a result must go to a person.
pub data NeedsReview (p : RiskPolicy) (r : RunResult) : Type 0 where
  high_risk : p.route_high_to_human ≡ true → r.risk ≡ Risk.high → NeedsReview p r
  unknown_risk : p.route_unknown_to_human ≡ true → r.risk ≡ Risk.unknown → NeedsReview p r
  review_path :
      (pattern file : Text)
      → Memᴰ pattern p.human_review_paths
      → Memᴰ file r.changed_files
      → path_matches pattern file ≡ true
      → NeedsReview p r
