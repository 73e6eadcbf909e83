-- ===== src/Lifecycle/Wave/Frame.antt =====
-- What the parts of a wave leave as it is, and that only its settling pauses.
use donkeyspace.Prelude.{
  ℕ, suc, ◌≤◌, ◌≡◌, refl, sym, ap, ◌∙◌, false, List, [], ◌∷◌, some, ok, map_err, fail_if, >>=-eq-ok,
  >>-eq-ok, map_err-eq-ok, ok_inj, fail_if-eq-ok, Option-cases, find, ltb, is_empty, arith, ◌⊎◌,
  inl, inr, keep, contains_key,
}
use donkeyspace.Plugin.{PluginFlow, PluginWorkItem}
use donkeyspace.Plugin.WorkItems.{validate_work_items, select_lifecycle_work_items}
use donkeyspace.RunResult.{PluginTaskResult}
use donkeyspace.TaskGraph.{
  TaskKey, key_Eq, TaskGraph, ready, set_all, running, completed, completed_keys,
}
use donkeyspace.TaskGraph.Build.{for_work_items}
use donkeyspace.Lifecycle.{
  LifecycleState, failed, panicked, too_many_waves, no_runnable_tasks, Outside, successes,
  record_results, complete_results, replan, replan_with, install_items, lift_abort, take,
  check_specifications, is_plan,
}
use donkeyspace.Lifecycle.Wave.{start_wave, executions, record_wave}

module _ {V : Type 0} where
  pub attempt-record_results :
      (results : List (TaskKey × PluginTaskResult)) (s : LifecycleState V)
      → (record_results results s).attempt ≡ s.attempt
  unfolding record_results
  attempt-record_results [] s = refl
  attempt-record_results ((k, x) ∷ more) s = attempt-record_results more _

  pub handoffs-record_results :
      (results : List (TaskKey × PluginTaskResult)) (s : LifecycleState V)
      → (record_results results s).handoffs ≡ s.handoffs
  unfolding record_results
  handoffs-record_results [] s = refl
  handoffs-record_results ((k, x) ∷ more) s = handoffs-record_results more _

module _ {V : Type 0} (o : Outside V) (flow : PluginFlow) (limit : ℕ) where
  pub start_wave-eq-ok :
      (s : LifecycleState V) {t : LifecycleState V} {ks : List TaskKey}
      → start_wave o flow limit s ≡ ok (t, ks)
      → (rs : List TaskKey) × (ready s.graph ≡ ok rs)
        × (ks ≡ take flow.max_parallel_tasks rs)
        × (is_empty ks ≡ false)
        × (set_all running s.graph ks ≡ ok t.graph)
        × (suc s.attempt ≤ 64)
        × (t ≡ record s { graph = t.graph; attempt = suc s.attempt })
  unfolding start_wave
  start_wave-eq-ok s h =
      let (rs, e, h) = >>=-eq-ok (map_err failed (ready s.graph)) _ h in
      let (n, h) =
        >>-eq-ok (fail_if (is_empty (take flow.max_parallel_tasks rs)) no_runnable_tasks) _ h in
      let (g, m, h) =
        >>=-eq-ok (map_err failed (set_all running s.graph (take flow.max_parallel_tasks rs))) _
          h in
      let (l, h) = >>-eq-ok (fail_if (ltb 64 (suc s.attempt)) too_many_waves) _ h in
      let same = ok_inj h in
      (
        rs,
        map_err-eq-ok failed _ e,
        sym (ap (λ p. p.1) same),
        sym (ap (λ p. is_empty p.1) same) ∙ fail_if-eq-ok _ _ n,
        ap (set_all running s.graph) (sym (ap (λ p. p.1) same))
            ∙ (map_err-eq-ok failed _ m ∙ ap ok (ap (λ p. p.0.graph) same)),
        within (fail_if-eq-ok _ _ l),
        sym (ap (λ p. p.0) same)
            ∙ ap (λ g. record s { graph = g; attempt = suc s.attempt }) (ap (λ p. p.0.graph) same),
      )
    where
      within : ltb 64 (suc s.attempt) ≡ false → suc s.attempt ≤ 64
      within h = ground arith

  pub install_items-eq-ok :
      (registry : List (PluginWorkItem V)) (plan : PluginTaskResult) (s : LifecycleState V)
      {t : LifecycleState V}
      → install_items o flow registry plan s ≡ ok t
      → (items : List (PluginWorkItem V)) × (g : TaskGraph) × (validate_work_items registry ≡ ok tt)
        × (select_lifecycle_work_items registry plan.work_items ≡ ok items)
        × (for_work_items flow items ≡ ok g)
        × (set_all completed g (keep (λ k. contains_key k g.states) (completed_keys s.graph))
            ≡ ok t.graph)
        × (t ≡ record s { graph = t.graph; work_items = items })
  unfolding install_items
  install_items-eq-ok registry plan s h =
      let (v, h) = >>-eq-ok (map_err lift_abort (validate_work_items registry)) _ h in
      let (items, e, h) =
        >>=-eq-ok (map_err failed (select_lifecycle_work_items registry plan.work_items)) _ h in
      let (u, h) = >>-eq-ok (check_specifications o items) _ h in
      let (g, q, h) = >>=-eq-ok (map_err panicked (for_work_items flow items)) _ h in
      let (r, m, h) =
        >>=-eq-ok
          (map_err failed
            (set_all completed g (keep (λ k. contains_key k g.states) (completed_keys s.graph))))
          _ h in
      let same = ok_inj h in
      (
        items,
        g,
        map_err-eq-ok lift_abort _ v,
        map_err-eq-ok failed _ e,
        map_err-eq-ok panicked _ q,
        map_err-eq-ok failed _ m ∙ ap ok (ap (λ x. x.graph) same),
        sym same ∙ ap (λ g. record s { graph = g; work_items = items }) (ap (λ x. x.graph) same),
      )

  -- The rest of a recorded wave: the results are recorded in the state, and the graph is the one after the
  -- completions, or a new one with new work items.
  pub record_wave-eq-ok :
      (s : LifecycleState V) (ks : List TaskKey) {t : LifecycleState V}
      → record_wave o flow limit s ks ≡ ok t
      → (g : TaskGraph) × (complete_results {V = V} flow
            (successes (executions o flow limit s ks))
            s.graph
          ≡ ok g)
        × (replan o flow
              (successes (executions o flow limit s ks))
              (record (record_results (successes (executions o flow limit s ks)) s) { graph = g })
            ≡ ok t)
  unfolding record_wave
  record_wave-eq-ok s ks h =
      let (u, h) = >>-eq-ok (map_err failed (o.save s [])) _ h in
      let (g, e, h) =
        >>=-eq-ok (complete_results flow (successes (executions o flow limit s ks)) s.graph) _ h in
      let (v, h) = >>-eq-ok (map_err failed (o.save _ [])) _ h in (g, e, h)

  -- A new plan changes the graph and the work items only.
  pub replan_cases :
      (results : List (TaskKey × PluginTaskResult)) (s : LifecycleState V) {t : LifecycleState V}
      → replan o flow results s ≡ ok t
      → (t ≡ s)
        ⊎ ((registry : List (PluginWorkItem V)) × (b : TaskKey × PluginTaskResult) × (find
                (is_plan flow)
                results
              ≡ some b)
            × (o.read_registry s ≡ ok registry)
            × (install_items o flow registry b.1 s ≡ ok t))
  unfolding replan replan_with
  replan_cases results s {t} h = elim (Option-cases (find (is_plan flow) results)) [
    | inl n ↦ inl (let h' : ok s ≡ ok t = rw n at h in sym (ok_inj h'))
    | inr (b, n) ↦
        let h' : replan_with o flow (some b) s ≡ ok t = rw n at h in
        let (registry, e, h) = >>=-eq-ok (map_err failed (o.read_registry s)) _ h' in
        inr (registry, b, n, map_err-eq-ok failed _ e, h)
  ]
