-- ===== src/Policy/Risk/Routing.antt =====
-- Risk routing against the reasons for which a result needs review.
use donkeyspace.Prelude.{
  ◌≡◌, true, false, ◌&&◌, [], ◌++◌, some, is_some, inl, inr, find_sound, find_finds, any_intro,
  any_elim, find, arith, Option-cases, Bool-cases, ◌↔◌, ok,
}
use donkeyspace.Text.{Text, lit, is_blank, is_blank_lem, is_whitespace}
use donkeyspace.RunResult.{RunResult, Outcome, validate_for_orchestration}
use donkeyspace.Policy.PathPattern.{path_matches}
use donkeyspace.Policy.Risk.{
  RiskPolicy, NeedsReview, high_risk, unknown_risk, review_path, is_high, is_unknown, is_routable,
  touches, routing_reason, apply_result_routing,
}

routing_reason_sound :
    (p : RiskPolicy) (r : RunResult) → is_some (routing_reason p r) ≡ true → NeedsReview p r
unfolding routing_reason
routing_reason_sound p r h = elim (Bool-cases (p.route_high_to_human && is_high r.risk)) [
  | inl a ↦ high_risk (ground arith) (ground arith)
  | inr a ↦ elim (Bool-cases (p.route_unknown_to_human && is_unknown r.risk)) [
    | inl b ↦ unknown_risk (ground arith) (ground arith)
    | inr b ↦ elim (Option-cases (find (touches r) p.human_review_paths)) [
      | inl c ↦ absurd (ground arith)
      | inr (pattern, c) ↦
          let (m, t) = find_sound (touches r) p.human_review_paths c in
          let (file, n, q) = any_elim (path_matches pattern) r.changed_files t in
          review_path pattern file m n q
    ]
  ]
]

routing_reason_complete :
    (p : RiskPolicy) (r : RunResult) → NeedsReview p r → is_some (routing_reason p r) ≡ true
unfolding routing_reason
routing_reason_complete p r (high_risk e f) = ground arith
routing_reason_complete p r (unknown_risk e f) = ground arith
routing_reason_complete p r (review_path pattern file m n q) =
    let t = any_intro (path_matches pattern) n q in
    let f = find_finds (touches r) m t in ground arith

-- A result is routed exactly if it is `ready` or `implemented` and needs review for its risk or for
-- a changed file.
pub apply_result_routing_iff :
    (p : RiskPolicy) (r : RunResult)
    → (is_some (apply_result_routing p r).1 ≡ true)
      ↔ ((is_routable r.outcome ≡ true) × NeedsReview p r)
unfolding apply_result_routing
apply_result_routing_iff p r = (to, from)
  where
    to :
        is_some (apply_result_routing p r).1 ≡ true
        → (is_routable r.outcome ≡ true) × NeedsReview p r
    to h = (ground arith, routing_reason_sound p r (ground arith))

    from :
        (is_routable r.outcome ≡ true) × NeedsReview p r
        → is_some (apply_result_routing p r).1 ≡ true
    from (a, n) = let h = routing_reason_complete p r n in ground arith

not_blank :
    (pattern : Text)
    → (is_blank (lit "policy routes high-risk work to human review") ≡ false)
      × (is_blank (lit "policy routes unknown-risk work to human review") ≡ false)
      × (is_blank (lit "policy requires human review for `" ++ (pattern ++ lit "` changes"))
          ≡ false)
unfolding lit is_whitespace
not_blank pattern = (is_blank_lem _, is_blank_lem _, is_blank_lem _)

routing_reason_not_blank :
    (p : RiskPolicy) (r : RunResult) {reason : Text}
    → routing_reason p r ≡ some reason
    → is_blank reason ≡ false
unfolding routing_reason
routing_reason_not_blank p r {reason} h =
    elim (Option-cases (find (touches r) p.human_review_paths)) [
      | inl e ↦ ground (arith, not_blank [])
      | inr (pattern, e) ↦ ground (arith, not_blank pattern)
    ]

-- Routing a result turns it into `needs_human` with the returned reason as its review reason,
-- leaves every other field as it was, and gives a result that is fit for orchestration.
pub routed_result :
    (p : RiskPolicy) (r : RunResult) {reason : Text}
    → (apply_result_routing p r).1 ≡ some reason
    → ((apply_result_routing p r).0
        ≡ record r { outcome = Outcome.needs_human; human_review_reason = some reason })
      × (validate_for_orchestration (apply_result_routing p r).0 ≡ ok tt)
unfolding apply_result_routing validate_for_orchestration
routed_result p r {reason} h = ground (arith, routing_reason_not_blank p r {reason = reason})
