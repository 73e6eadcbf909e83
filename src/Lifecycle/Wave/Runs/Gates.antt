-- ===== src/Lifecycle/Wave/Runs/Gates.antt =====
-- A task that requires approval is completed by no run.
use mathlib.Core.Option.{some_inj}
use donkeyspace.Prelude.{
  ℕ, ◌≡◌, refl, sym, ap, subst, ◌∙◌, true, false, List, [], ◌∷◌, some, Result, ok, map_err, ◌>>=◌,
  >>=-eq-ok, Bool-cases, text_eq, ==_iff, ◌==◌, if◌then◌else◌, ◌⊎◌, inl, inr, lookup, contains,
  contains_key, ok_inj, mem_contains, ok_or-eq-ok, map_err-eq-ok, keep, keep_mem,
}
use donkeyspace.Plugin.{PluginFlow, PluginTask, PluginApprovalMode}
use donkeyspace.RunResult.{PluginTaskResult}
use donkeyspace.TaskGraph.{
  TaskKey, key_Eq, running, completed, TaskGraph, mark_completed, completed_keys,
}
use donkeyspace.Lifecycle.{
  edge_Eq, edge_Ord, LifecycleState, Exit, failed, Outside, Collected, successes, record_results,
  complete_results, complete_one, task_at, is_implemented, is_approval_required,
}
use donkeyspace.Lifecycle.Wave.{executions, record_wave, run}
use donkeyspace.Lifecycle.Wave.Frame.{
  start_wave-eq-ok, record_wave-eq-ok, replan_cases, install_items-eq-ok,
}
use donkeyspace.TaskGraph.Completed.{
  Completes, completed_keys_iff, set_state-Completes, set_all-Completes, restart_from-Completes,
}
use donkeyspace.TaskGraph.Build.Starts.{for_work_items-Completes}
use donkeyspace.Lifecycle.Settle.Cases.{IsSettled, settle_all_invariant, apply_feedback_invariant}
use donkeyspace.Lifecycle.Wave.Runs.Left.{left, IsWave, run_invariant}

-- The task is one of the flow that a human must approve.
unfoldable pub RequiresApproval : PluginFlow → TaskKey → Type 0
RequiresApproval flow k =
    (task : PluginTask) × (lookup k.task flow.tasks ≡ some task)
    × (task.approval ≡ PluginApprovalMode.required)

-- Every completed task that a human must approve was completed in `g` or is the start task.
Guards : PluginFlow → TaskGraph → TaskGraph → Type 0
Guards flow g h =
    (k : TaskKey) → RequiresApproval flow k → Completes h k → Completes g k ⊎ (k.task ≡ flow.start)

module _ (V : Type 0) (flow : PluginFlow) where
  complete_one-Completes :
      (k : TaskKey) (x : PluginTaskResult) (g : TaskGraph) {h : TaskGraph}
      → complete_one {V = V} flow k x g ≡ ok h
      → (j : TaskKey) → RequiresApproval flow j
      → Completes h j
      → Completes g j
  unfolding RequiresApproval mark_completed
  complete_one-Completes k x g {h} e j (task, l, a) n =
      elim (Bool-cases (is_implemented x.result.outcome)) [
        | inr i ↦
            (let e' : ok g ≡ ok h = rw i at e in subst (λ y. Completes y j) (sym (ok_inj e')) n)
        | inl i ↦
            let e' : (task_at {V = V} flow k.task >>= λ task.
            if is_approval_required task.approval
            then ok g
            else map_err failed (mark_completed g k))
                ≡ ok h =
              rw i at e in
            let (own, q, e') = >>=-eq-ok (task_at flow k.task) _ e' in
            let f : lookup k.task flow.tasks ≡ some own =
              ok_or-eq-ok (lookup k.task flow.tasks) _ q in
            elim (Bool-cases (is_approval_required own.approval)) [
              | inl r ↦
                  (let e'' : ok g ≡ ok h = rw r at e' in
                    subst (λ y. Completes y j) (sym (ok_inj e'')) n)
              | inr r ↦
                  let e'' : map_err {F = Exit V} failed (mark_completed g k) ≡ ok h = rw r at e' in
                  elim (set_state-Completes completed g k (map_err-eq-ok failed _ e'') n) [
                    | inl c ↦ c
                    | inr (s, _) ↦
                        let same : own ≡ task =
                          some_inj.0 (sym f ∙ (ap (λ y. lookup y.task flow.tasks) (sym s) ∙ l)) in
                        let yes : is_approval_required own.approval ≡ true = rw (same, a) refl in cc
                  ]
            ]
      ]

  complete_results-Completes :
      (results : List (TaskKey × PluginTaskResult)) (g : TaskGraph) {h : TaskGraph}
      → complete_results {V = V} flow results g ≡ ok h
      → (j : TaskKey) → RequiresApproval flow j
      → Completes h j
      → Completes g j
  unfolding complete_results
  complete_results-Completes [] g e j r n = subst (λ y. Completes y j) (sym (ok_inj e)) n
  complete_results-Completes ((k, x) ∷ more) g {h} e j r n =
      let (m, q, e) = >>=-eq-ok (complete_one flow k x g) _ e in
      complete_one-Completes k x g q j r (complete_results-Completes more m {h = h} e j r n)

settled-Completes :
    (flow : PluginFlow) (limit : ℕ) (k : TaskKey) (x : PluginTaskResult) (c d : Collected)
    → IsSettled flow limit k x c d
    → (j : TaskKey) → Completes d.graph j
    → Completes c.graph j
settled-Completes flow limit k x c d (IsSettled.succeeds _ q) j n =
    subst (λ y. Completes y.graph j) q n
settled-Completes flow limit k x c d (IsSettled.asks r _ e q) j n =
    restart_from-Completes c.graph k e (subst (λ y. Completes y.graph j) q n)
settled-Completes flow limit k x c d (IsSettled.defers r _ e q) j n =
    restart_from-Completes c.graph k e (subst (λ y. Completes y.graph j) q n)
settled-Completes flow limit k x c d (IsSettled.excludes _ _ _ _ q) j n =
    subst (λ y. Completes y.graph j) q n
settled-Completes flow limit k x c d (IsSettled.exceeds h t r _ _ _ e q) j n =
    restart_from-Completes c.graph t e (subst (λ y. Completes y.graph j) q n)
settled-Completes flow limit k x c d (IsSettled.requests h t _ _ _ l q) j n =
    subst (λ y. Completes y.graph j) q n

module _ {V : Type 0} (o : Outside V) (flow : PluginFlow) (limit : ℕ) where
  record_wave-Guards :
      (s : LifecycleState V) (ks : List TaskKey) {t : LifecycleState V}
      → record_wave o flow limit s ks ≡ ok t
      → Guards flow s.graph t.graph
  unfolding Guards
  record_wave-Guards s ks {t} h j r n =
      let (g, e, p) = record_wave-eq-ok o flow limit s ks h in
      let results = successes (executions o flow limit s ks) in
      elim (replan_cases o flow limit results (record (record_results results s) { graph = g }) p) [
        | inl same ↦ inl (
            complete_results-Completes V flow results s.graph e j r
              (subst (λ y. Completes y.graph j) same n))
        | inr (registry, b, f, q, i) ↦
            let (items, m, _, _, new, kept, same) =
              install_items-eq-ok o flow limit registry b.1 _ i in
            elim (set_all-Completes completed m
              (keep (λ k. contains_key k m.states) (completed_keys g)) kept n) [
                | inl c ↦ inr (for_work_items-Completes flow items new c)
                | inr (c, _) ↦ inl (
                    complete_results-Completes V flow results s.graph e j r (
                      (completed_keys_iff g j).0 (
                        mem_contains
                          (keep_mem (λ k. contains_key k m.states) (completed_keys g) c).0)))
              ]
      ]

  wave-Guards : (s t : LifecycleState V) → IsWave o flow limit s t → Guards flow s.graph t.graph
  unfolding Guards
  wave-Guards s t w j r n =
      let left : Completes w.fed.graph j = subst (λ y. Completes y.graph j) w.leaves n in
      let fed : Completes w.settled.graph j =
        apply_feedback_invariant flow w.recorded.execution_plan
          (λ c. Completes c.graph j → Completes w.settled.graph j) w.settled.feedback
          (λ t c r _ e p n. p (restart_from-Completes c.graph t e n)) w.settled w.feeds (λ n. n)
          left in
      let settled : Completes w.recorded.graph j =
        settle_all_invariant flow limit (λ c. Completes c.graph j → Completes w.recorded.graph j)
          w.recorded _ (λ k x c d _ i p n. p (settled-Completes flow limit k x c d i j n)) _
          w.settles (λ n. n) fed in
      elim (record_wave-Guards w.started w.tasks w.records j r settled) [
        | inr q ↦ inr q
        | inl c ↦
            let (_, _, _, _, m, _, _) = start_wave-eq-ok o flow limit s w.starts in
            elim (set_all-Completes running s.graph w.tasks m c) [ inl c ↦ inl c | inr (_, q) ↦ cc ]
      ]

  -- A run completes no task of the flow that requires approval, but the start task: one that is
  -- completed in the state in which the run ends or pauses was completed when it began.
  pub run-RequiresApproval :
      (fuel : ℕ) (s : LifecycleState V) {t : LifecycleState V}
      {r : Result (Exit V) (LifecycleState V)}
      → run o flow limit fuel s ≡ some r
      → left r ≡ some t
      → (k : TaskKey) → RequiresApproval flow k
      → (k.task == flow.start) ≡ false
      → contains (completed_keys t.graph) k ≡ true
      → contains (completed_keys s.graph) k ≡ true
  unfolding Guards
  run-RequiresApproval fuel s {t} {r} e h k a n c =
      elim (guarded k a ((completed_keys_iff t.graph k).0 c)) [
        | inl d ↦ (completed_keys_iff s.graph k).1 d
        | inr q ↦ cc ((==_iff k.task flow.start).1 q)
      ]
    where
      trans :
          (u v : LifecycleState V)
          → IsWave o flow limit u v
          → Guards flow s.graph u.graph
          → Guards flow s.graph v.graph
      trans u v w g j a c = elim (wave-Guards u v w j a c) [ inl d ↦ g j a d | inr q ↦ inr q ]

      guarded : Guards flow s.graph t.graph
      guarded =
          run_invariant o flow limit (λ u. Guards flow s.graph u.graph) trans (λ u g. g) fuel s
            {t = t} {r = r} e h (λ j a c. inl c)
