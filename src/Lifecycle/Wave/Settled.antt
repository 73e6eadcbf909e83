-- ===== src/Lifecycle/Wave/Settled.antt =====
-- How a wave that goes on or pauses has come through its parts.
use donkeyspace.Prelude.{
  ℕ, suc, ◌≡◌, refl, sym, ap, ◌∙◌, true, false, List, [], Option, none, some, ok, map_err, fail_if,
  ltb, is_empty, arith, keep, contains_key, text_eq,
}
use donkeyspace.Plugin.{PluginFlow, PluginWorkItem}
use donkeyspace.Plugin.WorkItems.{validate_work_items, select_lifecycle_work_items}
use donkeyspace.RunResult.{PluginTaskResult}
use donkeyspace.Approvals.{PendingApproval}
use donkeyspace.TaskGraph.{TaskKey, key_Eq, ready, set_all, running, completed, completed_keys}
use donkeyspace.TaskGraph.Build.{for_work_items}
use donkeyspace.Lifecycle.{
  edge_Eq, LifecycleState, failed, panicked, too_many_waves, no_runnable_tasks, Outside, Collected,
  successes, check_errors, complete_results, replan, replan_with, install_items,
  check_specifications, lift_abort, take,
}
use donkeyspace.Lifecycle.Settle.{required_approvals, settle_all, apply_feedback}
use donkeyspace.Lifecycle.Wave.{conclude, start_wave, executions, record_wave, settle_wave, wave}
use donkeyspace.Lifecycle.Wave.Unpaused.{
  pauses, is_settled, through, pauses->>=, pauses-map_err, pauses-failed, pauses-lift_abort,
  pauses-fail_if, pauses-complete_results, pauses-check_errors, pauses-required_approvals,
  pauses-apply_feedback, pauses-settle_all,
}

module _ {V : Type 0} (o : Outside V) (flow : PluginFlow) (limit : ℕ) where
  pauses-start_wave : (s : LifecycleState V) → pauses (start_wave o flow limit s) ≡ false
  unfolding start_wave
  pauses-start_wave s = pauses->>= (map_err failed (ready s.graph)) _ (pauses-failed V _) λ rs.
      pauses->>= (fail_if (is_empty (take flow.max_parallel_tasks rs)) no_runnable_tasks) _
        (pauses-fail_if V _ _ refl)
        λ _.
          pauses->>= (map_err failed (set_all running s.graph (take flow.max_parallel_tasks rs))) _
            (pauses-failed V _)
            λ g.
              pauses->>= (fail_if (ltb 64 (suc s.attempt)) too_many_waves) _
                (pauses-fail_if V _ _ refl) λ _. refl

  pauses-install_items :
      (registry : List (PluginWorkItem V)) (plan : PluginTaskResult) (s : LifecycleState V)
      → pauses (install_items o flow registry plan s) ≡ false
  unfolding install_items check_specifications
  pauses-install_items registry plan s =
      pauses->>= (map_err lift_abort (validate_work_items registry)) _
        (pauses-map_err lift_abort _ (pauses-lift_abort V))
        λ _.
          pauses->>= (map_err failed (select_lifecycle_work_items registry plan.work_items)) _
            (pauses-failed V _)
            λ items. pauses->>= (check_specifications o items) _ (ground arith) λ _.
              pauses->>= (map_err panicked (for_work_items flow items)) _
                (pauses-map_err panicked _ (λ e. refl))
                λ g.
                  pauses->>= (map_err failed _) _
                    (pauses-failed V (
                      set_all completed g
                        (keep (λ k. contains_key k g.states) (completed_keys s.graph))))
                    λ h. refl

  pauses-replan_with :
      (plan : Option (TaskKey × PluginTaskResult)) (s : LifecycleState V)
      → pauses (replan_with o flow plan s) ≡ false
  unfolding replan_with
  pauses-replan_with none s = refl
  pauses-replan_with (some (k, x)) s =
      pauses->>= (map_err failed (o.read_registry s)) _ (pauses-failed V _)
        λ r. pauses-install_items r x s

  pauses-record_wave :
      (s : LifecycleState V) (ks : List TaskKey) → pauses (record_wave o flow limit s ks) ≡ false
  unfolding record_wave replan
  pauses-record_wave s ks = pauses->>= (map_err failed (o.save s [])) _ (pauses-failed V _) λ _.
      pauses->>= (complete_results flow (successes (executions o flow limit s ks)) s.graph) _
        (pauses-complete_results V flow (successes (executions o flow limit s ks)) s.graph)
        λ g.
          pauses->>= (map_err failed (o.save _ [])) _ (pauses-failed V _)
            λ _. pauses-replan_with _ _

  -- A wave that goes on or pauses has started, recorded its results without an error, and ends as
  -- their settling does.
  pub wave_through :
      (s : LifecycleState V)
      → is_settled (wave o flow limit s) ≡ true
      → (started : LifecycleState V × List TaskKey) × (start_wave o flow limit s ≡ ok started)
        × ((recorded : LifecycleState V) × (record_wave o flow limit started.0 started.1
              ≡ ok recorded)
            × (wave o flow limit s
                ≡ settle_wave o flow limit recorded
                    (successes (executions o flow limit started.0 started.1))))
  unfolding wave
  wave_through s h =
      let (u, e, p) = through (start_wave o flow limit s) _ (pauses-start_wave s) h in
      let (v, e', q) =
        through (record_wave o flow limit u.0 u.1) _ (pauses-record_wave u.0 u.1)
          (ap is_settled (sym p) ∙ h) in
      let (w, e'', r) =
        through (check_errors (executions o flow limit u.0 u.1)) _
          (pauses-check_errors V (executions o flow limit u.0 u.1))
          (ap is_settled (sym (p ∙ q)) ∙ h) in
      (u, e, (v, e', p ∙ (q ∙ r)))

  -- The settling of a wave that goes on or pauses has found the approvals, settled every result
  -- and applied the feedback.
  pub settle_wave_through :
      (s : LifecycleState V) (results : List (TaskKey × PluginTaskResult))
      → is_settled (settle_wave o flow limit s results) ≡ true
      → (approvals : List PendingApproval) × (required_approvals {V = V} flow results
          ≡ ok approvals)
        × ((c : Collected) × (settle_all flow limit s results (record {
          graph = s.graph;
          handoffs = s.handoffs;
          feedback = [];
          approvals = approvals;
          clarifications = [];
        })
              ≡ ok c)
            × ((d : Collected) × (apply_feedback {V = V} flow s.execution_plan c.feedback c ≡ ok d)
                × (settle_wave o flow limit s results ≡ conclude o flow limit s d)))
  unfolding settle_wave
  settle_wave_through s results h =
      let (a, e, p) =
        through (required_approvals flow results) _ (pauses-required_approvals V flow results) h in
      let (c, e', q) =
        through (settle_all flow limit s results _) _ (pauses-settle_all V flow limit s results _)
          (ap is_settled (sym p) ∙ h) in
      let (d, e'', r) =
        through (apply_feedback flow s.execution_plan c.feedback c) _
          (pauses-apply_feedback V flow s.execution_plan c.feedback c)
          (ap is_settled (sym (p ∙ q)) ∙ h) in
      (a, e, (c, e', (d, e'', p ∙ (q ∙ r))))
