-- ===== src/Lifecycle/Wave.antt =====
-- One wave of the coordinator's loop, and the loop.
pub mod Frame
pub mod Unpaused
pub mod Settled
pub mod Runs
pub mod Pauses
use donkeyspace.Prelude.{
  ℕ, zero, suc, ◌≡◌, refl, Bool, true, false, not, ◌&&◌, ◌||◌, List, [], ◌∷◌, ◌++◌, Option, none,
  some, Result, ok, err, ok_or, map_err, fail_if, when_some, ◌>>=◌, ◌>>◌, Eq, Ord, text_eq, ◌==◌,
  ==_iff, option_eq, option_eq_iff, find, length, any, all, keep, ltb, is_empty, is_some,
  if◌then◌else◌, lookup, insert, contains, contains_key, keys, map, arith, ◌↔◌,
}
use donkeyspace.Text.{Text, lit}
use donkeyspace.RunResult.{
  RunResult, Outcome, Risk, Confidence, TestResult, AgentHandoff, PluginTaskResult,
}
use donkeyspace.RunResult.Merge.{max_risk, min_confidence}
use donkeyspace.Plugin.{
  PluginFlow, PluginTask, PluginWorkItem, Abort, fails, panics, out_of_fuel, PluginApprovalMode,
  no_approval,
}
use donkeyspace.Plugin.WorkItems.{validate_work_items, select_lifecycle_work_items}
use donkeyspace.ExecutionPlan.{ExecutionPlan, or_value}
use donkeyspace.Approvals.{
  ApprovalTrigger, required, agent_requested, is_agent_requested, PendingApproval,
  normalize_handoff_target,
}
use donkeyspace.TaskGraph.{
  TaskKey, key_Eq, key_eq, text_before, item_before, TaskState, waiting, running, completed,
  TaskGraph, ready, set_all, mark_completed, restart_from, completed_keys, is_complete,
}
use donkeyspace.TaskGraph.Build.{for_work_items}
use donkeyspace.Lifecycle.{
  Edge, edge_Eq, edge_Ord, LifecycleState, Collected, Exit, failed, panicked, stopped, paused,
  endless, no_runnable_tasks, too_many_waves, Outside, is_implemented, is_approval_required, take,
  task_at, restart, successes, check_errors, record_results, complete_results, replan,
}
use donkeyspace.Lifecycle.Settle.{required_approvals, settle_all, apply_feedback, gates}

module _ {V : Type 0} (o : Outside V) (flow : PluginFlow) (limit : ℕ) where
  -- The loop goes on when nothing waits for a human.
  abbrev pub conclusion : LifecycleState V → Collected → Result (Exit V) (LifecycleState V)
  conclusion s c =
      let t = record s { graph = c.graph; handoffs = c.handoffs } in
      if is_empty (gates c) && is_empty c.clarifications
      then ok t
      else err (paused t (gates c) c.clarifications)

  unfoldable pub conclude : LifecycleState V → Collected → Result (Exit V) (LifecycleState V)
  conclude s c =
      map_err failed (o.save (record s { graph = c.graph; handoffs = c.handoffs }) (gates c))
      >>= λ _. conclusion s c

  -- The ready tasks are started, as many as the flow allows at once.
  unfoldable pub start_wave : LifecycleState V → Result (Exit V) (LifecycleState V × List TaskKey)
  start_wave s = do
    rs ← map_err failed (ready s.graph)
    fail_if (is_empty (take flow.max_parallel_tasks rs)) no_runnable_tasks
    g ← map_err failed (set_all running s.graph (take flow.max_parallel_tasks rs))
    fail_if (ltb 64 (suc s.attempt)) too_many_waves
    ok (record s { graph = g; attempt = suc s.attempt }, take flow.max_parallel_tasks rs)

  abbrev pub executions :
      LifecycleState V → List TaskKey → List (TaskKey × Result Text PluginTaskResult)
  executions s ks = map (λ k. (k, o.execute s k)) ks

  -- The results are recorded, the completed tasks marked and a new plan installed.
  unfoldable pub record_wave : LifecycleState V → List TaskKey → Result (Exit V) (LifecycleState V)
  unfolding record_results complete_results replan
  record_wave s ks = do
    map_err failed (o.save s [])
    g ← complete_results flow (successes (executions s ks)) s.graph
    map_err failed
        (o.save (record (record_results (successes (executions s ks)) s) { graph = g }) [])
    replan o flow (successes (executions s ks))
        (record (record_results (successes (executions s ks)) s) { graph = g })

  unfoldable pub settle_wave :
      LifecycleState V → List (TaskKey × PluginTaskResult) → Result (Exit V) (LifecycleState V)
  unfolding required_approvals settle_all apply_feedback conclude
  settle_wave s results = do
    approvals ← required_approvals flow results
    c ← settle_all flow limit s results (record {
      graph = s.graph;
      handoffs = s.handoffs;
      feedback = [];
      approvals = approvals;
      clarifications = [];
    })
    d ← apply_feedback flow s.execution_plan c.feedback c
    conclude s d

  unfoldable pub wave : LifecycleState V → Result (Exit V) (LifecycleState V)
  unfolding start_wave record_wave settle_wave check_errors successes
  wave s = do
    started ← start_wave s
    recorded ← record_wave started.0 started.1
    check_errors (executions started.0 started.1)
    settle_wave recorded (successes (executions started.0 started.1))

  -- The result of a completed lifecycle, but for its summary.
  abbrev pub finish : LifecycleState V → LifecycleState V
  finish s = record s {
    last_result = record s.last_result {
      outcome = Outcome.implemented;
      risk = s.aggregate_risk;
      confidence = s.aggregate_confidence;
    };
  }

  -- The loop, with `none` where the fuel is out.
  unfoldable pub run : ℕ → LifecycleState V → Option (Result (Exit V) (LifecycleState V))
  unfolding wave
  run zero s = none
  run (suc fuel) s = elim (is_complete s.graph) [
    | true ↦ some (map_err failed (o.save (finish s) []) >>= λ _. ok (finish s))
    | false ↦ elim (wave s) [ ok t ↦ run fuel t | err e ↦ some (err e) ]
  ]
