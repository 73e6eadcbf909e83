-- ===== src/Lifecycle.antt =====
-- The lifecycle coordinator: the loop over task waves in crates/donkeyspace-worker/src/plugin_flow.rs
-- (`run_lifecycle`'s `while` and what follows it), with `LifecycleState` of
-- crates/donkeyspace-worker/src/plugin_flow/checkpoint.rs. What the loop calls outside is a parameter,
-- `Outside`: the agents, the checkpoint store, the registry in the checkout and its specification
-- files. Tracked jobs, published events and commits, projected issues, and the texts of summaries
-- and pause reasons are left out; no decision of the loop reads them.
pub mod Settle
pub mod Wave
mod Tests
use donkeyspace.Prelude.{
  ℕ, zero, suc, ◌≡◌, refl, Bool, true, false, not, ◌&&◌, ◌||◌, List, [], ◌∷◌, ◌++◌, Option, none,
  some, Result, ok, err, ok_or, map_err, fail_if, when_some, ◌>>=◌, ◌>>◌, Eq, Ord, text_eq, ◌==◌,
  ==_iff, option_eq, option_eq_iff, find, length, any, all, keep, ltb, is_empty, is_some,
  if◌then◌else◌, lookup, insert, contains, contains_key, keys, map, arith, ◌↔◌,
}
use donkeyspace.Text.{Text, lit}
use donkeyspace.RunResult.{
  RunResult, Outcome, Risk, Confidence, TestResult, AgentHandoff, PluginTaskResult,
}
use donkeyspace.RunResult.Merge.{max_risk, min_confidence}
use donkeyspace.Plugin.{
  PluginFlow, PluginTask, PluginWorkItem, Abort, fails, panics, out_of_fuel, PluginApprovalMode,
  no_approval,
}
use donkeyspace.Plugin.WorkItems.{validate_work_items, select_lifecycle_work_items}
use donkeyspace.ExecutionPlan.{ExecutionPlan, or_value}
use donkeyspace.Approvals.{
  ApprovalTrigger, required, agent_requested, is_agent_requested, PendingApproval,
  normalize_handoff_target,
}
use donkeyspace.TaskGraph.{
  TaskKey, key_Eq, key_eq, text_before, item_before, TaskState, waiting, running, completed,
  TaskGraph, ready, set_all, mark_completed, restart_from, completed_keys, is_complete,
}
use donkeyspace.TaskGraph.Build.{for_work_items}

-- An edge of a handoff: work item, source and target.
pub record Edge : Type 0 where
  pub work_item : Option Text
  pub from : Text
  pub to : Text

abbrev pub edge_eq : Edge → Edge → Bool
edge_eq a b = option_eq a.work_item b.work_item && (a.from == b.from && a.to == b.to)

pub edge_eq_iff : (a b : Edge) → (edge_eq a b ≡ true) ↔ (a ≡ b)
edge_eq_iff a b = (
  λ h.
      ground (arith, option_eq_iff a.work_item b.work_item, ==_iff a.from b.from, ==_iff a.to b.to),
  λ h.
      ground (arith, option_eq_iff a.work_item b.work_item, ==_iff a.from b.from, ==_iff a.to b.to),
)

instance abbrev pub edge_Eq : Eq Edge
edge_Eq = record { eq = edge_eq; eq_iff = edge_eq_iff }

unfoldable pub edge_before : Edge → Edge → Bool
unfolding item_before text_before
edge_before a b =
    item_before a.work_item b.work_item
    || (option_eq a.work_item b.work_item
        && (text_before a.from b.from || (a.from == b.from && text_before a.to b.to)))

instance abbrev pub edge_Ord : Ord Edge
edge_Ord = record { before = edge_before }

pub record LifecycleState (V : Type 0) : Type 0 where
  pub execution_plan : Option ExecutionPlan
  pub attempt : ℕ
  pub accumulated_tests : List TestResult
  pub aggregate_risk : Risk
  pub aggregate_confidence : Confidence
  pub last_result : RunResult
  pub graph : TaskGraph
  pub handoffs : List (Edge × ℕ)
  pub work_items : List (PluginWorkItem V)

-- What a wave has collected from its results.
pub record Collected : Type 0 where
  pub graph : TaskGraph
  pub handoffs : List (Edge × ℕ)
  pub feedback : List TaskKey
  pub approvals : List PendingApproval
  pub clarifications : List (TaskKey × List Text)

-- How the loop is left: by an error of its own or one from outside, by a panic at an index, by a task
-- with another outcome, by a pause, or at the end. `endless` is a search that does not end.
pub data Exit (V : Type 0) : Type 0 where
  no_runnable_tasks too_many_waves endless : Exit V
  failed : Text → Exit V
  panicked : Text → Exit V
  stopped : (tests : List TestResult) → RunResult → Exit V
  paused :
      LifecycleState V
      → (approvals : List PendingApproval) (clarifications : List (TaskKey × List Text)) → Exit V

pub record Outside (V : Type 0) : Type 0 where
  -- `execute_task` in the wave that the state has started.
  pub execute : LifecycleState V → TaskKey → Result Text PluginTaskResult
  pub save : LifecycleState V → List PendingApproval → Result Text (Unit {0})
  pub read_registry : LifecycleState V → Result Text (List (PluginWorkItem V))
  pub has_specification : Text → Bool

abbrev pub is_implemented : Outcome → Bool
is_implemented Outcome.implemented = true
is_implemented _ = false

abbrev pub is_approval_required : PluginApprovalMode → Bool
is_approval_required PluginApprovalMode.required = true
is_approval_required no_approval = false

-- `take`.
abbrev pub take {ℓ} : {A : Type ℓ} → ℕ → List A → List A
take zero xs = []
take (suc n) [] = []
take (suc n) (x ∷ xs) = x ∷ take n xs

-- The successful executions, and the first error.
unfoldable pub successes :
    List (TaskKey × Result Text PluginTaskResult) → List (TaskKey × PluginTaskResult)
successes [] = []
successes ((k, ok x) ∷ more) = (k, x) ∷ successes more
successes ((k, err e) ∷ more) = successes more

abbrev pub is_plan : PluginFlow → TaskKey × PluginTaskResult → Bool
is_plan flow (k, x) = k.task == flow.start && is_implemented x.result.outcome

module _ {V : Type 0} where
  -- `flow.tasks[name]`.
  abbrev pub task_at : PluginFlow → Text → Result (Exit V) PluginTask
  task_at flow name = ok_or (lookup name flow.tasks) (panicked name)

  unfoldable pub lift_abort : Abort Text → Exit V
  lift_abort (fails e) = failed e
  lift_abort (panics e) = panicked e
  lift_abort out_of_fuel = endless

  restarted :
      Option (Result Text (TaskGraph × List TaskKey)) → Result (Exit V) (TaskGraph × List TaskKey)
  restarted none = err endless
  restarted (some r) = map_err failed r

  unfoldable pub restart : TaskGraph → TaskKey → Result (Exit V) (TaskGraph × List TaskKey)
  unfolding restart_from restarted
  restart g k = restarted (restart_from g k)

  unfoldable pub check_errors :
      List (TaskKey × Result Text PluginTaskResult) → Result (Exit V) (Unit {0})
  check_errors [] = ok tt
  check_errors ((k, ok x) ∷ more) = check_errors more
  check_errors ((k, err e) ∷ more) = err (failed e)

  unfoldable pub record_results :
      List (TaskKey × PluginTaskResult) → LifecycleState V → LifecycleState V
  record_results [] s = s
  record_results ((k, x) ∷ more) s = record_results more (record s {
    accumulated_tests = s.accumulated_tests ++ x.result.tests;
    aggregate_risk = max_risk s.aggregate_risk x.result.risk;
    aggregate_confidence = min_confidence s.aggregate_confidence x.result.confidence;
    last_result = x.result;
  })

  -- Completes an implemented task that needs no approval.
  abbrev pub complete_one :
      PluginFlow → TaskKey → PluginTaskResult → TaskGraph → Result (Exit V) TaskGraph
  complete_one flow k x g =
      if is_implemented x.result.outcome
      then (task_at flow k.task >>= λ task.
          if is_approval_required task.approval then ok g else map_err failed (mark_completed g k))
      else ok g

  unfoldable pub complete_results :
      PluginFlow → List (TaskKey × PluginTaskResult) → TaskGraph → Result (Exit V) TaskGraph
  complete_results flow [] g = ok g
  complete_results flow ((k, x) ∷ more) g =
      complete_one flow k x g >>= λ h. complete_results flow more h

  -- Every work item has its specification file.
  unfoldable pub check_specifications :
      Outside V → List (PluginWorkItem V) → Result (Exit V) (Unit {0})
  check_specifications o items =
      when_some (find (λ (i : PluginWorkItem V). not (o.has_specification i.spec)) items) λ i. err (
        failed (
          lit "architect work item `"
          ++ (i.id ++ (lit "` references missing specification `" ++ (i.spec ++ lit "`")))))

  -- After the start task has planned: the graph of the selected work items, with the completed tasks
  -- that it still has.
  unfoldable pub install_items :
      Outside V
      → PluginFlow
      → List (PluginWorkItem V)
      → PluginTaskResult
      → LifecycleState V
      → Result (Exit V) (LifecycleState V)
  install_items o flow registry plan s = do
    map_err lift_abort (validate_work_items registry)
    items ← map_err failed (select_lifecycle_work_items registry plan.work_items)
    check_specifications o items
    g ← map_err panicked (for_work_items flow items)
    h ←
        map_err failed
          (set_all completed g (keep (λ k. contains_key k g.states) (completed_keys s.graph)))
    ok (record s { graph = h; work_items = items })

  replan_with :
      Outside V
      → PluginFlow
      → Option (TaskKey × PluginTaskResult)
      → LifecycleState V
      → Result (Exit V) (LifecycleState V)
  replan_with o flow none s = ok s
  replan_with o flow (some (k, x)) s = do
    registry ← map_err failed (o.read_registry s)
    install_items o flow registry x s

  unfoldable pub replan :
      Outside V
      → PluginFlow
      → List (TaskKey × PluginTaskResult)
      → LifecycleState V
      → Result (Exit V) (LifecycleState V)
  unfolding replan_with install_items
  replan o flow results s = replan_with o flow (find (is_plan flow) results) s
