-- ===== src/ExecutionPlan/Applies.antt =====
-- A plan that `resolve` has made applies to the flow it was made for.
use donkeyspace.Prelude.{
  ℕ, ◌≡◌, refl, ap, ◌∙◌, true, List, [], ◌∷◌, Option, none, some, ok, ok_or, if◌then◌else◌,
  for_each, >>=-eq-ok, >>-eq-ok, text_eq, list_eq_iff, ==_iff, lookup, keys, keys_mem, contains_key,
  contains_key_cases, arith, Memᴰ,
}
use donkeyspace.Text.{Text}
use donkeyspace.Plugin.{TextMap, PluginFlow, PluginTask}
use donkeyspace.ExecutionPlan.{
  ExecutionPlan, ExecutionPlanTask, ExecutionPlanProposal, no_proposal, or_value, plan_tasks,
  check_names, check_excluded, resolve, tasks_eq, task_eq, retain_included, set_approvals, apply,
}
use donkeyspace.ExecutionPlan.Effective.{plan_tasks_entry, retain_included_sound, resolve_tasks}

task_eq_refl : (a : ExecutionPlanTask) → task_eq a a ≡ true
task_eq_refl a =
    ground (arith, ==_iff a.display_name a.display_name, list_eq_iff a.dependencies a.dependencies)

tasks_eq_refl : (a : TextMap ExecutionPlanTask) → tasks_eq a a ≡ true
unfolding tasks_eq
tasks_eq_refl [] = refl
tasks_eq_refl ((n, x) ∷ a) = ground (arith, ==_iff n n, task_eq_refl x, tasks_eq_refl a)

module _ (entries : TextMap ExecutionPlanTask) where
  retain_total :
      (tasks : TextMap PluginTask)
      → ((n : Text) → Memᴰ n (keys tasks) → contains_key n entries ≡ true)
      → (kept : TextMap PluginTask) × (retain_included entries tasks ≡ ok kept)
  unfolding retain_included
  retain_total [] known = ([], refl)
  retain_total ((n, t) ∷ more) known =
      let (x, e) = contains_key_cases n entries (known n (Memᴰ.head refl)) in
      let (rest, q) = retain_total more (λ m i. known m (Memᴰ.tail i)) in
      ((if x.included then (n, t) ∷ rest else rest), rw (e, q) refl)

  approvals_total :
      (tasks : TextMap PluginTask)
      → ((n : Text) → Memᴰ n (keys tasks) → contains_key n entries ≡ true)
      → (done : TextMap PluginTask) × (set_approvals entries tasks ≡ ok done)
  unfolding set_approvals
  approvals_total [] known = ([], refl)
  approvals_total ((n, t) ∷ more) known =
      let (x, e) = contains_key_cases n entries (known n (Memᴰ.head refl)) in
      let (rest, q) = approvals_total more (λ m i. known m (Memᴰ.tail i)) in
      ((n, record t { approval = x.approval }) ∷ rest, rw (e, q) refl)

resolve_default :
    (flow : PluginFlow) (proposed : Option ExecutionPlanProposal) (work_items : List Text)
    (revision : ℕ)
    → resolve flow (some (or_value proposed no_proposal)) work_items revision
      ≡ resolve flow proposed work_items revision
unfolding resolve
resolve_default flow none work_items revision = refl
resolve_default flow (some p) work_items revision = refl

resolve_fields :
    (flow : PluginFlow) (proposal : ExecutionPlanProposal) (work_items : List Text) (revision : ℕ)
    (plan : ExecutionPlan)
    → resolve flow (some proposal) work_items revision ≡ ok plan
    → (plan.proposal ≡ proposal) × (plan.work_items ≡ work_items) × (plan.revision ≡ revision)
unfolding resolve
resolve_fields flow proposal work_items revision plan h =
    let (policy, _, a) = >>=-eq-ok (ok_or flow.execution_plan _) _ h in
    let (_, b) = >>-eq-ok (check_names flow _ [] proposal.excluded_tasks) _ a in
    let (_, c) = >>-eq-ok (check_names flow _ [] proposal.approval_tasks) _ b in
    let (_, d) =
      >>-eq-ok (for_each (check_excluded flow policy proposal) proposal.excluded_tasks) _ c in
    let (tasks, e, f) = >>=-eq-ok (plan_tasks flow proposal flow.tasks) _ d in
    (ground (arith, f), ground (arith, f), ground (arith, f))

-- What `apply` does once the plan is resolved again to itself.
apply_runs :
    (plan : ExecutionPlan) (flow : PluginFlow) (kept approved : TextMap PluginTask)
    → resolve flow (some plan.proposal) plan.work_items plan.revision ≡ ok plan
    → retain_included plan.tasks flow.tasks ≡ ok kept
    → set_approvals plan.tasks kept ≡ ok approved
    → apply plan flow ≡ ok (record flow { tasks = approved })
unfolding apply
apply_runs plan flow kept approved r k a = rw (r, tasks_eq_refl plan.tasks, k, a) refl

-- A plan that `resolve` has made for a flow, by whatever proposal or by none, applies to that flow:
-- `apply` does not refuse it, and no lookup of a task in the plan panics.
pub resolve-apply :
    (flow : PluginFlow) (proposed : Option ExecutionPlanProposal) (work_items : List Text)
    (revision : ℕ) (plan : ExecutionPlan)
    → resolve flow proposed work_items revision ≡ ok plan
    → (effective : PluginFlow) × (apply plan flow ≡ ok effective)
resolve-apply flow proposed work_items revision plan h =
    let (p, i, r) =
      resolve_fields flow (or_value proposed no_proposal) work_items revision plan
        (resolve_default flow proposed work_items revision ∙ h) in
    let again : resolve flow (some plan.proposal) plan.work_items plan.revision ≡ ok plan =
      ap (λ q. resolve flow (some q) plan.work_items plan.revision) p
      ∙ ap (λ is. resolve flow (some (or_value proposed no_proposal)) is plan.revision) i
      ∙ ap (λ n. resolve flow (some (or_value proposed no_proposal)) work_items n) r
      ∙ resolve_default flow proposed work_items revision
      ∙ h in
    let planned = resolve_tasks flow plan.proposal plan.work_items plan.revision plan again in
    let entry : (n : Text) (t : PluginTask)
        → lookup n flow.tasks ≡ some t
        → contains_key n plan.tasks ≡ true =
      λ n t e.
        let (g, _) = plan_tasks_entry flow plan.proposal flow.tasks plan.tasks planned n t e in
        rw g refl in
    let (kept, k) = retain_total plan.tasks flow.tasks (λ n m.
      let (t, e) = contains_key_cases n flow.tasks (keys_mem n flow.tasks m) in entry n t e) in
    let (approved, a) = approvals_total plan.tasks kept (λ n m.
      let (t, e) = contains_key_cases n kept (keys_mem n kept m) in
      entry n t (retain_included_sound plan.tasks flow.tasks kept k n t e).0) in
    (record flow { tasks = approved }, apply_runs plan flow kept approved again k a)
