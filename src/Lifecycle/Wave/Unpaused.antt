-- ===== src/Lifecycle/Wave/Unpaused.antt =====
-- The parts of a wave that never pause: all but the end of its settling.
use donkeyspace.Prelude.{
  ℕ, suc, ◌≡◌, refl, Bool, true, false, List, [], ◌∷◌, Option, Result, ok, err, ok_or, map_err,
  fail_if, ◌>>=◌, Bool-cases, Option-cases, ltb, lookup, arith, inl, inr, not, contains, text_eq,
}
use donkeyspace.Text.{Text}
use donkeyspace.Plugin.{PluginFlow, Abort, fails, panics, out_of_fuel}
use donkeyspace.RunResult.{PluginTaskResult, Outcome, AgentHandoff}
use donkeyspace.ExecutionPlan.{ExecutionPlan, or_value}
use donkeyspace.Approvals.{normalize_handoff_target}
use donkeyspace.TaskGraph.{TaskKey, key_Eq, TaskGraph, restart_from, mark_completed}
use donkeyspace.Lifecycle.{
  edge_Eq, LifecycleState, Exit, failed, paused, Collected, check_errors, complete_results,
  complete_one, lift_abort, task_at, restart, restarted,
}
use donkeyspace.Lifecycle.Settle.{
  required_approvals, required_approval, settle_all, settle_outcome, settle_handoff, count_handoff,
  exceed_handoff, request_handoff, edge_of, apply_feedback,
}

module _ {V : Type 0} where
  abbrev pub is_pause : Exit V → Bool
  is_pause (paused t approvals clarifications) = true
  is_pause _ = false

  abbrev pub pauses {ℓ} : {A : Type ℓ} → Result (Exit V) A → Bool
  pauses (ok a) = false
  pauses (err e) = is_pause e

  -- It goes on, or pauses.
  abbrev pub is_settled {ℓ} : {A : Type ℓ} → Result (Exit V) A → Bool
  is_settled (ok a) = true
  is_settled (err e) = is_pause e

  pub through {ℓ κ} :
      {A : Type ℓ} {B : Type κ} (m : Result (Exit V) A) (f : A → Result (Exit V) B)
      → pauses m ≡ false
      → is_settled (m >>= f) ≡ true
      → (a : A) × (m ≡ ok a) × ((m >>= f) ≡ f a)
  through (ok a) f n h = (a, refl, refl)
  through (err e) f n h = cc

  pub pauses->>= {ℓ κ} :
      {A : Type ℓ} {B : Type κ} (m : Result (Exit V) A) (f : A → Result (Exit V) B)
      → pauses m ≡ false
      → ((a : A) → pauses (f a) ≡ false)
      → pauses (m >>= f) ≡ false
  pauses->>= (ok a) f n h = h a
  pauses->>= (err e) f n h = n

  pub pauses-map_err {ℓ κ} :
      {A : Type ℓ} {E : Type κ} (f : E → Exit V) (m : Result E A)
      → ((e : E) → is_pause (f e) ≡ false)
      → pauses (map_err f m) ≡ false
  pauses-map_err f (ok a) h = refl
  pauses-map_err f (err e) h = h e

module _ (V : Type 0) where
  pub pauses-failed {ℓ} :
      {A : Type ℓ} (m : Result Text A) → pauses {V = V} (map_err failed m) ≡ false
  pauses-failed m = pauses-map_err failed m (λ e. refl)

  pub pauses-lift_abort : (e : Abort Text) → is_pause {V = V} (lift_abort e) ≡ false
  unfolding lift_abort
  pauses-lift_abort (fails e) = refl
  pauses-lift_abort (panics e) = refl
  pauses-lift_abort out_of_fuel = refl

  pub pauses-task_at :
      (flow : PluginFlow) (name : Text) → pauses {V = V} (task_at flow name) ≡ false
  pauses-task_at flow name = ground arith

  pub pauses-fail_if : (b : Bool) (e : Exit V) → is_pause e ≡ false → pauses (fail_if b e) ≡ false
  pauses-fail_if b e h = ground arith

  pub pauses-restart : (g : TaskGraph) (k : TaskKey) → pauses {V = V} (restart g k) ≡ false
  unfolding restart restarted
  pauses-restart g k = elim (Option-cases (restart_from g k)) [
    | inl e ↦ rw e refl
    | inr (r, e) ↦ rw e (pauses-failed r)
  ]

  pub pauses-complete_results :
      (flow : PluginFlow) (results : List (TaskKey × PluginTaskResult)) (g : TaskGraph)
      → pauses {V = V} (complete_results flow results g) ≡ false
  unfolding complete_results
  pauses-complete_results flow [] g = refl
  pauses-complete_results flow ((k, x) ∷ more) g =
      pauses->>= (complete_one flow k x g) _ (ground (arith, pauses-failed (mark_completed g k)))
        (λ h. pauses-complete_results flow more h)

  pub pauses-check_errors :
      (es : List (TaskKey × Result Text PluginTaskResult))
      → pauses {V = V} (check_errors es) ≡ false
  unfolding check_errors
  pauses-check_errors [] = refl
  pauses-check_errors ((k, ok x) ∷ more) = pauses-check_errors more
  pauses-check_errors ((k, err e) ∷ more) = refl

  pub pauses-required_approvals :
      (flow : PluginFlow) (results : List (TaskKey × PluginTaskResult))
      → pauses {V = V} (required_approvals flow results) ≡ false
  unfolding required_approvals required_approval
  pauses-required_approvals flow [] = refl
  pauses-required_approvals flow ((k, x) ∷ more) =
      pauses->>= (required_approval flow k x) _ (ground arith) (λ here.
        pauses->>= (required_approvals flow more) _ (pauses-required_approvals flow more)
          (λ rest. refl))

  pub pauses-apply_feedback :
      (flow : PluginFlow) (plan : Option ExecutionPlan) (ts : List TaskKey) (c : Collected)
      → pauses {V = V} (apply_feedback flow plan ts c) ≡ false
  unfolding apply_feedback
  pauses-apply_feedback flow plan [] c = refl
  pauses-apply_feedback flow plan (t ∷ more) c =
      pauses->>= (restart c.graph t) _ (pauses-restart c.graph t)
        (λ r. pauses-apply_feedback flow plan more _)

  pub pauses-count_handoff :
      (flow : PluginFlow) (limit : ℕ) (k : TaskKey) (h : AgentHandoff) (c : Collected)
      → pauses {V = V} (count_handoff flow limit k h c) ≡ false
  unfolding count_handoff exceed_handoff request_handoff
  pauses-count_handoff flow limit k h c =
      elim (Bool-cases (ltb limit (suc (or_value (lookup (edge_of k h) c.handoffs) 0)))) [
        | inl e ↦ rw e (
            pauses->>= (map_err failed (normalize_handoff_target flow k h.target)) _
              (pauses-failed _)
              (λ t. pauses->>= (restart c.graph t) _ (pauses-restart c.graph t) (λ r. refl)))
        | inr e ↦ rw e (
            pauses->>= (map_err failed (normalize_handoff_target flow k h.target)) _
              (pauses-failed _) (λ t. refl))
      ]

  pub pauses-settle_handoff :
      (flow : PluginFlow) (limit : ℕ) (k : TaskKey) (x : PluginTaskResult) (c : Collected)
      → pauses {V = V} (settle_handoff flow limit k x c) ≡ false
  unfolding settle_handoff
  pauses-settle_handoff flow limit k x c =
      pauses->>= (ok_or x.handoff (failed _)) _ (ground arith) λ h.
        pauses->>= (task_at flow k.task) _ (pauses-task_at flow k.task) λ task.
          pauses->>= (fail_if (not (contains task.allowed_handoffs h.target)) (failed _)) _
            (pauses-fail_if _ _ refl) λ _. ground (arith, pauses-count_handoff flow limit k h c)

  pub pauses-settle_all :
      (flow : PluginFlow) (limit : ℕ) (s : LifecycleState V)
      (results : List (TaskKey × PluginTaskResult)) (c : Collected)
      → pauses {V = V} (settle_all flow limit s results c) ≡ false
  unfolding settle_all settle_outcome
  pauses-settle_all flow limit s [] c = refl
  pauses-settle_all flow limit s ((k, x) ∷ more) c =
      pauses->>= (settle_outcome flow limit s x.result.outcome k x c) _ (outcome x.result.outcome)
        (λ d. pauses-settle_all flow limit s more d)
    where
      outcome : (a : Outcome) → pauses (settle_outcome flow limit s a k x c) ≡ false
      outcome Outcome.implemented = refl
      outcome Outcome.needs_changes = pauses-settle_handoff flow limit k x c
      outcome Outcome.needs_info =
          pauses->>= (restart c.graph k) _ (pauses-restart c.graph k) (λ r. refl)
      outcome Outcome.needs_human =
          pauses->>= (restart c.graph k) _ (pauses-restart c.graph k) (λ r. refl)
      outcome _ = refl
