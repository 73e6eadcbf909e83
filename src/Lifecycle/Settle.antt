-- ===== src/Lifecycle/Settle.antt =====
-- What the coordinator makes of the results of a wave: handoffs, questions and approvals.
pub mod Cases
use donkeyspace.Prelude.{
  ℕ, zero, suc, ◌≡◌, refl, Bool, true, false, not, ◌&&◌, ◌||◌, List, [], ◌∷◌, ◌++◌, Option, none,
  some, Result, ok, err, ok_or, map_err, fail_if, when_some, ◌>>=◌, ◌>>◌, Eq, Ord, text_eq, ◌==◌,
  ==_iff, option_eq, option_eq_iff, find, length, any, all, keep, ltb, is_empty, is_some,
  if◌then◌else◌, lookup, insert, contains, contains_key, keys, map, arith, ◌↔◌,
}
use donkeyspace.Text.{Text, lit}
use donkeyspace.RunResult.{
  RunResult, Outcome, Risk, Confidence, TestResult, AgentHandoff, PluginTaskResult,
}
use donkeyspace.RunResult.Merge.{max_risk, min_confidence}
use donkeyspace.Plugin.{
  PluginFlow, PluginTask, PluginWorkItem, Abort, fails, panics, out_of_fuel, PluginApprovalMode,
  no_approval,
}
use donkeyspace.Plugin.WorkItems.{validate_work_items, select_lifecycle_work_items}
use donkeyspace.ExecutionPlan.{ExecutionPlan, or_value}
use donkeyspace.Approvals.{
  ApprovalTrigger, required, agent_requested, is_agent_requested, PendingApproval,
  normalize_handoff_target,
}
use donkeyspace.TaskGraph.{
  TaskKey, key_Eq, key_eq, text_before, item_before, TaskState, waiting, running, completed,
  TaskGraph, ready, set_all, mark_completed, restart_from, completed_keys, is_complete,
}
use donkeyspace.TaskGraph.Build.{for_work_items}
use donkeyspace.Lifecycle.{
  Edge, edge_Eq, edge_Ord, LifecycleState, Collected, Exit, failed, panicked, stopped, paused,
  endless, no_runnable_tasks, too_many_waves, Outside, is_implemented, is_approval_required, take,
  task_at, restart, successes, check_errors, record_results, complete_results, replan,
}

abbrev pub add_approval : PendingApproval → List PendingApproval → List PendingApproval
add_approval a approvals =
    if any (λ (b : PendingApproval). key_eq b.key a.key) approvals
    then approvals
    else approvals ++ a ∷ []

abbrev pub agent_approval : TaskKey → PendingApproval
agent_approval k = record { key = k; trigger = agent_requested }

abbrev pub plan_approvals : PluginFlow → Option ExecutionPlan → TaskKey → List PendingApproval
plan_approvals flow plan t =
    if is_some plan && t.task == flow.start then agent_approval t ∷ [] else []

-- The approvals once the results of a target and its dependents are invalidated.
abbrev pub retained :
    PluginFlow
    → Option ExecutionPlan
    → TaskKey
    → List TaskKey
    → List PendingApproval
    → List PendingApproval
retained flow plan t invalidated approvals =
    keep (λ (a : PendingApproval). is_agent_requested a.trigger || not (contains invalidated a.key))
      (approvals ++ plan_approvals flow plan t)

abbrev pub add_clarified : List (TaskKey × List Text) → List PendingApproval → List PendingApproval
add_clarified [] approvals = approvals
add_clarified ((k, questions) ∷ more) approvals =
    add_clarified more (add_approval (agent_approval k) approvals)

abbrev pub edge_of : TaskKey → AgentHandoff → Edge
edge_of k h = record { work_item = k.work_item; from = k.task; to = h.target }

-- A clarification alone does not become an approval.
abbrev pub gates : Collected → List PendingApproval
gates c = if is_empty c.approvals then [] else add_clarified c.clarifications c.approvals

module _ {V : Type 0} where
  unfoldable pub required_approval :
      PluginFlow → TaskKey → PluginTaskResult → Result (Exit V) (List PendingApproval)
  required_approval flow k x =
      if is_implemented x.result.outcome
      then (task_at flow k.task >>= λ task. ok (
          if is_approval_required task.approval
          then record { key = k; trigger = required } ∷ []
          else []))
      else ok []

  -- The implemented tasks that need approval.
  unfoldable pub required_approvals :
      PluginFlow → List (TaskKey × PluginTaskResult) → Result (Exit V) (List PendingApproval)
  unfolding required_approval
  required_approvals flow [] = ok []
  required_approvals flow ((k, x) ∷ more) = do
    here ← required_approval flow k x
    rest ← required_approvals flow more
    ok (here ++ rest)

  -- A handoff over the limit of its edge: its target waits for a human at once, and the count starts
  -- anew.
  unfoldable pub exceed_handoff :
      PluginFlow → TaskKey → AgentHandoff → Collected → Result (Exit V) Collected
  exceed_handoff flow k h c = do
    t ← map_err failed (normalize_handoff_target flow k h.target)
    r ← restart c.graph t
    ok (record c {
      graph = r.0;
      handoffs = insert (edge_of k h) 0 c.handoffs;
      approvals = add_approval (agent_approval t) c.approvals;
    })

  -- One within it: its target is to be restarted after the results.
  unfoldable pub request_handoff :
      PluginFlow → ℕ → TaskKey → AgentHandoff → Collected → Result (Exit V) Collected
  request_handoff flow count k h c = do
    t ← map_err failed (normalize_handoff_target flow k h.target)
    ok (record c {
      handoffs = insert (edge_of k h) count c.handoffs;
      feedback = c.feedback ++ t ∷ [];
    })

  unfoldable pub count_handoff :
      PluginFlow → ℕ → TaskKey → AgentHandoff → Collected → Result (Exit V) Collected
  unfolding exceed_handoff request_handoff
  count_handoff flow limit k h c =
      let count = suc (or_value (lookup (edge_of k h) c.handoffs) 0) in
      if ltb limit count then exceed_handoff flow k h c else request_handoff flow count k h c

  unfoldable pub settle_handoff :
      PluginFlow → ℕ → TaskKey → PluginTaskResult → Collected → Result (Exit V) Collected
  unfolding count_handoff
  settle_handoff flow limit k x c = do
    h ←
        ok_or x.handoff
          (failed (lit "task `" ++ (k.task ++ lit "` returned needs_changes without a handoff")))
    task ← task_at flow k.task
    fail_if (not (contains task.allowed_handoffs h.target)) (
        failed
          (lit "task `" ++ (k.task ++ (lit "` cannot hand off to `" ++ (h.target ++ lit "`")))))
    if contains_key h.target flow.tasks
        then count_handoff flow limit k h c
        else ok (record c { approvals = c.approvals ++ agent_approval k ∷ [] })

  -- One result of the wave, by its outcome.
  unfoldable pub settle_outcome :
      PluginFlow
      → ℕ
      → LifecycleState V
      → Outcome
      → TaskKey
      → PluginTaskResult
      → Collected
      → Result (Exit V) Collected
  unfolding settle_handoff restart
  settle_outcome flow limit s Outcome.implemented k x c = ok c
  settle_outcome flow limit s Outcome.needs_changes k x c = settle_handoff flow limit k x c
  settle_outcome flow limit s Outcome.needs_info k x c = do
    r ← restart c.graph k
    ok (record c { graph = r.0; clarifications = c.clarifications ++ (k, x.result.questions) ∷ [] })
  settle_outcome flow limit s Outcome.needs_human k x c = do
    r ← restart c.graph k
    ok (record c { graph = r.0; approvals = add_approval (agent_approval k) c.approvals })
  settle_outcome flow limit s _ k x c = err (stopped s.accumulated_tests x.result)

  unfoldable pub settle_all :
      PluginFlow
      → ℕ
      → LifecycleState V
      → List (TaskKey × PluginTaskResult)
      → Collected
      → Result (Exit V) Collected
  unfolding settle_outcome
  settle_all flow limit s [] c = ok c
  settle_all flow limit s ((k, x) ∷ more) c =
      settle_outcome flow limit s x.result.outcome k x c >>= λ d. settle_all flow limit s more d

  -- The targets of the handoffs are restarted; an approval of an invalidated result falls.
  unfoldable pub apply_feedback :
      PluginFlow → Option ExecutionPlan → List TaskKey → Collected → Result (Exit V) Collected
  unfolding restart
  apply_feedback flow plan [] c = ok c
  apply_feedback flow plan (t ∷ more) c = do
    r ← restart c.graph t
    apply_feedback flow plan more
        (record c { graph = r.0; approvals = retained flow plan t r.1 c.approvals })
