-- ===== src/ExecutionPlan/Effective.antt =====
-- The effective flow of an approved plan can be scheduled.
use donkeyspace.Prelude.{
  not-false, ℕ, for_each, subst, ◌≡◌, refl, sym, ap, ◌∙◌, true, false, not, ◌&&◌, List, [], ◌∷◌,
  some, Result, ok, err, map_err, fail_if, fail_if-eq-ok, ok_or, >>=-eq-ok, >>-eq-ok, text_eq, ◌==◌,
  list_eq_iff, ==_iff, contains, any, any_intro, if◌then◌else◌, lookup, contains_key,
  contains_key_cases, arith, Memᴰ, Bool-cases, inl, inr,
}
use donkeyspace.Text.{Text}
use donkeyspace.Plugin.{TextMap, fails, panics, PluginFlow, PluginTask}
use donkeyspace.Plugin.Graph.{HasKnownDependencies}
use donkeyspace.ExecutionPlan.{
  ExecutionPlan, ExecutionPlanTask, ExecutionPlanProposal, plan_tasks, resolve, tasks_eq, task_eq,
  retain_included, set_approvals, apply, check_names, check_excluded, entry_of,
}

task_eq_sound : (a b : ExecutionPlanTask) → task_eq a b ≡ true → a ≡ b
task_eq_sound a b h =
    ground (arith, ==_iff a.display_name b.display_name, list_eq_iff a.dependencies b.dependencies)

map_err-ok :
    {A : Type 0} {E : Type 0} {F : Type 0} (f : E → F) (r : Result E A) {a : A}
    → map_err f r ≡ ok a
    → r ≡ ok a
map_err-ok f (ok b) h = ground (arith, h)
map_err-ok f (err e) h = cc

tasks_eq_sound : (a b : TextMap ExecutionPlanTask) → tasks_eq a b ≡ true → a ≡ b
unfolding tasks_eq
tasks_eq_sound [] [] h = refl
tasks_eq_sound [] (y ∷ b) h = cc
tasks_eq_sound (x ∷ a) [] h = cc
tasks_eq_sound ((n, x) ∷ a) ((m, y) ∷ b) h =
    ground (arith, ==_iff n m, task_eq_sound x y, tasks_eq_sound a b)

module _ (flow : PluginFlow) (proposal : ExecutionPlanProposal) where
  -- The entry of a task, and the check that it has passed.
  pub plan_tasks_entry :
      (tasks : TextMap PluginTask) (entries : TextMap ExecutionPlanTask)
      → plan_tasks flow proposal tasks ≡ ok entries
      → (name : Text) (task : PluginTask) → lookup name tasks ≡ some task
      → (lookup name entries ≡ some (entry_of flow proposal name task))
        × (contains proposal.excluded_tasks name ≡ false
            → any (contains proposal.excluded_tasks) task.dependencies ≡ false)
  unfolding plan_tasks lookup
  plan_tasks_entry [] entries h name task e = cc
  plan_tasks_entry ((n, t) ∷ more) entries h name task e =
      let (a, k) =
        >>-eq-ok
          (fail_if
            (not (contains proposal.excluded_tasks n)
              && any (contains proposal.excluded_tasks) t.dependencies)
            _)
          _ h in
      let (rest, b, c) = >>=-eq-ok (plan_tasks flow proposal more) _ k in
      let same : (n, entry_of flow proposal n t) ∷ rest ≡ entries = ground (arith, c) in
      let checked = fail_if-eq-ok _ _ a in
      rw (← same) (elim (Bool-cases (n == name)) [
        | inl q ↦
            let names = (==_iff n name).0 q in
            let tasks : t ≡ task = ground (arith, e, q) in
            rw (← names, ← tasks) (ground (arith, ==_iff n n), λ f. ground (arith, checked, f))
        | inr q ↦ rw q (plan_tasks_entry more rest b name task (ground (arith, e, q)))
      ])

module _ (entries : TextMap ExecutionPlanTask) where
  pub retain_included_sound :
      (tasks kept : TextMap PluginTask)
      → retain_included entries tasks ≡ ok kept
      → (name : Text) (task : PluginTask) → lookup name kept ≡ some task
      → (lookup name tasks ≡ some task)
        × ((x : ExecutionPlanTask) × (lookup name entries ≡ some x) × (x.included ≡ true))
  unfolding retain_included lookup
  retain_included_sound [] kept h name task e = absurd (ground (arith, h, e))
  retain_included_sound ((n, t) ∷ more) kept h name task e =
      let (x, a, k) = >>=-eq-ok (ok_or (lookup n entries) (panics n)) _ h in
      let (rest, b, c) = >>=-eq-ok (retain_included entries more) _ k in
      let found : lookup n entries ≡ some x = ground (arith, a) in
      let same : (if x.included then (n, t) ∷ rest else rest) ≡ kept = ground (arith, c) in
      let looked : lookup name (if x.included then (n, t) ∷ rest else rest) ≡ some task =
        ap (lookup name) same ∙ e in
      elim (Bool-cases (n == name)) [
        | inl q ↦ elim (Bool-cases x.included) [
          | inl i ↦
              let names = (==_iff n name).0 q in
              (ground (arith, q, i, looked), (x, ap (λ k. lookup k entries) (sym names) ∙ found, i))
          | inr i ↦
              let later : lookup name rest ≡ some task = ground (arith, i, looked) in
              let (l, (y, f, j)) = retain_included_sound more rest b name task later in
              let two : x ≡ y =
                ground (arith, sym found ∙ ap (λ k. lookup k entries) ((==_iff n name).0 q) ∙ f) in
              absurd (cc (ap (λ (z : ExecutionPlanTask). z.included) two))
        ]
        | inr q ↦
            let later : lookup name rest ≡ some task = ground (arith, q, looked) in
            let (l, m) = retain_included_sound more rest b name task later in
            (ground (arith, q, l), m)
      ]

  retain_included_keeps :
      (tasks kept : TextMap PluginTask)
      → retain_included entries tasks ≡ ok kept
      → (name : Text) (x : ExecutionPlanTask) → contains_key name tasks ≡ true
      → lookup name entries ≡ some x
      → x.included ≡ true
      → contains_key name kept ≡ true
  unfolding retain_included lookup
  retain_included_keeps [] kept h name x c f i = cc
  retain_included_keeps ((n, t) ∷ more) kept h name x c f i =
      let (y, a, k) = >>=-eq-ok (ok_or (lookup n entries) (panics n)) _ h in
      let (rest, b, d) = >>=-eq-ok (retain_included entries more) _ k in
      let found : lookup n entries ≡ some y = ground (arith, a) in
      let same : (if y.included then (n, t) ∷ rest else rest) ≡ kept = ground (arith, d) in
      rw (← same) (elim (Bool-cases (n == name)) [
        | inl q ↦
            let two : y ≡ x =
              ground (arith, sym found ∙ ap (λ k. lookup k entries) ((==_iff n name).0 q) ∙ f) in
            rw (two, i) (rw q refl)
        | inr q ↦ ground (arith, q, c, retain_included_keeps more rest b name x)
      ])

  set_approvals_same :
      (tasks done : TextMap PluginTask)
      → set_approvals entries tasks ≡ ok done
      → (name : Text)
      → (contains_key name done ≡ contains_key name tasks)
        × ((task : PluginTask)
            → lookup name done ≡ some task
            → (t : PluginTask) × (lookup name tasks ≡ some t)
              × (task.dependencies ≡ t.dependencies))
  unfolding set_approvals lookup
  set_approvals_same [] done h name = (ground (arith, h), λ task e. absurd (ground (arith, h, e)))
  set_approvals_same ((n, t) ∷ more) done h name =
      let (y, a, k) = >>=-eq-ok (ok_or (lookup n entries) (panics n)) _ h in
      let (rest, b, d) = >>=-eq-ok (set_approvals entries more) _ k in
      let same : (n, record t { approval = y.approval }) ∷ rest ≡ done = ground (arith, d) in
      let (c, f) = set_approvals_same more rest b name in
      rw (← same) (elim (Bool-cases (n == name)) [
        | inl q ↦ rw q (refl, λ task e. (t, refl, ground (arith, e)))
        | inr q ↦ rw q (c, f)
      ])

module _ (flow : PluginFlow) (proposal : ExecutionPlanProposal)
    (entries : TextMap ExecutionPlanTask) (kept approved : TextMap PluginTask)
    (planned : plan_tasks flow proposal flow.tasks ≡ ok entries)
    (retained : retain_included entries flow.tasks ≡ ok kept)
    (copied : set_approvals entries kept ≡ ok approved) where
  -- A kept task is a configured one that is not excluded, and depends on no excluded one.
  kept_task :
      (name : Text) (task : PluginTask)
      → lookup name kept ≡ some task
      → (lookup name flow.tasks ≡ some task)
        × (contains proposal.excluded_tasks name ≡ false)
        × (any (contains proposal.excluded_tasks) task.dependencies ≡ false)
  kept_task name task e =
      let (l, (x, f, i)) = retain_included_sound entries flow.tasks kept retained name task e in
      let (g, free) = plan_tasks_entry flow proposal flow.tasks entries planned name task l in
      let same : x ≡ entry_of flow proposal name task = ground (arith, sym f ∙ g) in
      let included : contains proposal.excluded_tasks name ≡ false =
        ground (arith, sym (ap (λ (z : ExecutionPlanTask). z.included) same) ∙ i) in
      (l, included, free included)

  kept_keys :
      (name : Text)
      → contains_key name kept
        ≡ (contains_key name flow.tasks && not (contains proposal.excluded_tasks name))
  kept_keys name = elim (Bool-cases (contains_key name kept)) [
    | inl c ↦
        let (t, e) = contains_key_cases name kept c in
        let (l, x, _) = kept_task name t e in ground (arith, c, l, x)
    | inr c ↦ elim (Bool-cases (contains_key name flow.tasks)) [
      | inr n ↦ ground (arith, c, n)
      | inl n ↦
          let (t, e) = contains_key_cases name flow.tasks n in
          let (g, _) = plan_tasks_entry flow proposal flow.tasks entries planned name t e in
          let keeps =
            retain_included_keeps entries flow.tasks kept retained name
              (entry_of flow proposal name t) n g in
          ground (arith, c, n, keeps)
    ]
  ]

  approved_keys :
      (name : Text)
      → contains_key name approved
        ≡ (contains_key name flow.tasks && not (contains proposal.excluded_tasks name))
  approved_keys name = (set_approvals_same entries kept approved copied name).0 ∙ kept_keys name

  approved_known :
      HasKnownDependencies flow
      → (name : Text) (task : PluginTask) → lookup name approved ≡ some task
      → (d : Text) → Memᴰ d task.dependencies
      → contains_key d approved ≡ true
  approved_known known name task e d m =
      let (t, k, same) = (set_approvals_same entries kept approved copied name).1 task e in
      let (l, _, free) = kept_task name t k in
      let n : Memᴰ d t.dependencies = subst (Memᴰ d) same m in
      let stays = any_intro (contains proposal.excluded_tasks) n in
      ground (arith, approved_keys d, known name t l d n, stays, free)

pub resolve_tasks :
    (flow : PluginFlow) (proposal : ExecutionPlanProposal) (work_items : List Text) (revision : ℕ)
    (plan : ExecutionPlan)
    → resolve flow (some proposal) work_items revision ≡ ok plan
    → plan_tasks flow proposal flow.tasks ≡ ok plan.tasks
unfolding resolve
resolve_tasks flow proposal work_items revision plan h =
    let (policy, _, a) = >>=-eq-ok (ok_or flow.execution_plan _) _ h in
    let (_, b) = >>-eq-ok (check_names flow _ [] proposal.excluded_tasks) _ a in
    let (_, c) = >>-eq-ok (check_names flow _ [] proposal.approval_tasks) _ b in
    let (_, d) =
      >>-eq-ok (for_each (check_excluded flow policy proposal) proposal.excluded_tasks) _ c in
    let (tasks, e, f) = >>=-eq-ok (plan_tasks flow proposal flow.tasks) _ d in
    let same : tasks ≡ plan.tasks = ground (arith, f) in e ∙ ap ok same

-- If `apply` succeeds and every dependency of a configured task is a task, the same holds in the flow
-- that `apply` gives, and that flow has exactly the configured tasks that the plan does not exclude.
pub apply-HasKnownDependencies :
    (plan : ExecutionPlan) (flow effective : PluginFlow)
    → apply plan flow ≡ ok effective
    → HasKnownDependencies flow
    → HasKnownDependencies effective
      × ((name : Text)
          → contains_key name effective.tasks
            ≡ (contains_key name flow.tasks && not (contains plan.proposal.excluded_tasks name)))
unfolding apply
apply-HasKnownDependencies plan flow effective h known =
    let (resolved, a, k) =
      >>=-eq-ok (map_err fails (resolve flow (some plan.proposal) plan.work_items plan.revision)) _
        h in
    let (b, c) = >>-eq-ok (fail_if (not (tasks_eq plan.tasks resolved.tasks)) _) _ k in
    let (kept, d, e) = >>=-eq-ok (retain_included plan.tasks flow.tasks) _ c in
    let (approved, f, g) = >>=-eq-ok (set_approvals plan.tasks kept) _ e in
    let same = tasks_eq_sound plan.tasks resolved.tasks (not-false _ (fail_if-eq-ok _ _ b)) in
    let planned =
      resolve_tasks flow plan.proposal plan.work_items plan.revision resolved (map_err-ok fails _ a)
      ∙ ap ok (sym same) in
    let tasks : approved ≡ effective.tasks = ground (arith, g) in
    (
      λ name task q i m.
          subst (λ ts. contains_key i ts ≡ true) tasks
            (approved_known flow plan.proposal plan.tasks kept approved planned d f known name task
              (ap (lookup name) tasks ∙ q) i m),
      λ name.
          ap (contains_key name) (sym tasks)
          ∙ approved_keys flow plan.proposal plan.tasks kept approved planned d f name,
    )
