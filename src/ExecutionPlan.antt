-- ===== src/ExecutionPlan.antt =====
-- crates/donkeyspace-core/src/execution_plan.rs: the scheduling choices that a human approves. The
-- serialization of the records and `markdown` are left out.
pub mod Effective
pub mod Applies
mod Tests
use donkeyspace.Prelude.{
  ℕ, ◌≡◌, refl, Bool, true, false, not, ◌&&◌, ◌||◌, List, [], ◌∷◌, ◌++◌, Option, none, some, Result,
  ok, err, map_err, fail_if, ok_or, ◌>>=◌, ◌>>◌, for_each, text_eq, ◌==◌, list_eq, list_eq_iff,
  ==_iff, contains, any, if◌then◌else◌, lookup, contains_key, arith,
}
use donkeyspace.Text.{Text, lit}
use donkeyspace.Plugin.{
  TextMap, Abort, fails, panics, PluginFlow, PluginTask, PluginApprovalMode, no_approval, required,
  ExecutionPlanPolicy,
}

pub record ExecutionPlanProposal : Type 0 where
  pub excluded_tasks : List Text
  pub approval_tasks : List Text
  pub reason : Text

pub record ExecutionPlanTask : Type 0 where
  pub display_name : Text
  pub included : Bool
  pub approval : PluginApprovalMode
  pub dependencies : List Text

pub record ExecutionPlan : Type 0 where
  pub revision : ℕ
  pub proposal : ExecutionPlanProposal
  pub work_items : List Text
  pub tasks : TextMap ExecutionPlanTask
  pub approved : Bool

abbrev pub no_proposal : ExecutionPlanProposal
no_proposal = record { excluded_tasks = []; approval_tasks = []; reason = [] }

-- `unwrap_or_default` and `unwrap_or_else`.
abbrev pub or_value {ℓ} : {A : Type ℓ} → Option A → A → A
or_value none a = a
or_value (some b) a = b

-- One of the two loops over the names of a proposal.
pub check_names : PluginFlow → Text → List Text → List Text → Result Text (Unit {0})
check_names flow kind seen [] = ok tt
check_names flow kind seen (name ∷ names) = do
  fail_if (not (contains_key name flow.tasks) || contains seen name)
      (lit "unknown or duplicate " ++ (kind ++ (lit " task `" ++ (name ++ lit "`"))))
  check_names flow kind (name ∷ seen) names

unfoldable pub check_excluded :
    PluginFlow → ExecutionPlanPolicy → ExecutionPlanProposal → Text → Result Text (Unit {0})
check_excluded flow policy proposal name = do
  fail_if (name == flow.start || not (contains policy.optional_tasks name))
      (lit "task `" ++ (name ++ lit "` cannot be excluded"))
  fail_if (contains proposal.approval_tasks name)
      (lit "excluded task `" ++ (name ++ lit "` cannot require approval"))

abbrev pub entry_of : PluginFlow → ExecutionPlanProposal → Text → PluginTask → ExecutionPlanTask
entry_of flow proposal name task = record {
  display_name = or_value task.display_name name;
  included = not (contains proposal.excluded_tasks name);
  approval =
      if name == flow.start || contains proposal.approval_tasks name
      then required
      else task.approval;
  dependencies = task.dependencies;
}

-- The `map` over the tasks, which stops at the first error.
unfoldable pub plan_tasks :
    PluginFlow
    → ExecutionPlanProposal
    → TextMap PluginTask
    → Result Text (TextMap ExecutionPlanTask)
plan_tasks flow proposal [] = ok []
plan_tasks flow proposal ((name, task) ∷ more) = do
  fail_if
      (not (contains proposal.excluded_tasks name)
        && any (contains proposal.excluded_tasks) task.dependencies)
      (lit "included task `" ++ (name ++ lit "` depends on an excluded task"))
  rest ← plan_tasks flow proposal more
  ok ((name, entry_of flow proposal name task) ∷ rest)

unfoldable pub resolve :
    PluginFlow → Option ExecutionPlanProposal → List Text → ℕ → Result Text ExecutionPlan
unfolding plan_tasks check_names check_excluded
resolve flow proposed work_items revision = do
  policy ← ok_or flow.execution_plan (lit "flow does not support execution plans")
  check_names flow (lit "excluded") [] (or_value proposed no_proposal).excluded_tasks
  check_names flow (lit "approval") [] (or_value proposed no_proposal).approval_tasks
  for_each (check_excluded flow policy (or_value proposed no_proposal))
      (or_value proposed no_proposal).excluded_tasks
  tasks ← plan_tasks flow (or_value proposed no_proposal) flow.tasks
  ok (record {
    revision = revision;
    proposal = or_value proposed no_proposal;
    work_items = work_items;
    tasks = tasks;
    approved = false;
  })

abbrev pub approval_eq : PluginApprovalMode → PluginApprovalMode → Bool
approval_eq no_approval no_approval = true
approval_eq required required = true
approval_eq _ _ = false

abbrev pub bool_eq : Bool → Bool → Bool
bool_eq true b = b
bool_eq false b = not b

abbrev pub task_eq : ExecutionPlanTask → ExecutionPlanTask → Bool
task_eq a b =
    a.display_name == b.display_name
    && bool_eq a.included b.included
    && approval_eq a.approval b.approval
    && list_eq a.dependencies b.dependencies

-- The derived equality of the maps of tasks.
unfoldable pub tasks_eq : TextMap ExecutionPlanTask → TextMap ExecutionPlanTask → Bool
tasks_eq [] [] = true
tasks_eq ((n, a) ∷ left) ((m, b) ∷ right) = n == m && task_eq a b && tasks_eq left right
tasks_eq _ _ = false

-- `retain` by `self.tasks[name].included`.
unfoldable pub retain_included :
    TextMap ExecutionPlanTask → TextMap PluginTask → Result (Abort Text) (TextMap PluginTask)
retain_included entries [] = ok []
retain_included entries ((name, task) ∷ more) = do
  entry ← ok_or (lookup name entries) (panics name)
  rest ← retain_included entries more
  ok (if entry.included then (name, task) ∷ rest else rest)

-- The loop that copies the approvals.
unfoldable pub set_approvals :
    TextMap ExecutionPlanTask → TextMap PluginTask → Result (Abort Text) (TextMap PluginTask)
set_approvals entries [] = ok []
set_approvals entries ((name, task) ∷ more) = do
  entry ← ok_or (lookup name entries) (panics name)
  rest ← set_approvals entries more
  ok ((name, record task { approval = entry.approval }) ∷ rest)

abbrev pub plan_changed : Text
plan_changed =
    lit
      "execution plan no longer matches the configured flow; restore that flow or request a revised plan"

unfoldable pub apply : ExecutionPlan → PluginFlow → Result (Abort Text) PluginFlow
unfolding resolve tasks_eq retain_included set_approvals
apply plan flow = do
  resolved ← map_err fails (resolve flow (some plan.proposal) plan.work_items plan.revision)
  fail_if (not (tasks_eq plan.tasks resolved.tasks)) (fails plan_changed)
  kept ← retain_included plan.tasks flow.tasks
  approved ← set_approvals plan.tasks kept
  ok (record flow { tasks = approved })
