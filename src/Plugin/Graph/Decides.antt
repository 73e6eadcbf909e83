-- ===== src/Plugin/Graph/Decides.antt =====
-- `validate_task_graph` decides whether the tasks of a flow can be ordered.
use mathlib.Core.WellFounded.{Acc}
use donkeyspace.Prelude.{
  suc, ◌≡◌, refl, ◌⊎◌, inl, inr, Bool-cases, false, Result, ok, err, text_eq, keys, length, arith,
  contains_key, keys_mem, mem-keys, contains_key_cases,
}
use donkeyspace.Text.{Text}
use donkeyspace.DepthFirst.{Fault, Marks, search_all}
use donkeyspace.DepthFirst.Sound.{search_all_sound}
use donkeyspace.DepthFirst.Cycles.{Leads, search_all_cycle}
use donkeyspace.DepthFirst.Total.{IsClosed, search_all_decided}
use donkeyspace.Plugin.{fails, PluginFlow}
use donkeyspace.Plugin.Graph.{
  dependencies_of, cycle_error, graph_outcome, validate_task_graph, DependsOn, HasKnownDependencies,
}

module _ (flow_name : Text) (flow : PluginFlow) where
  flow-IsClosed : HasKnownDependencies flow → IsClosed (dependencies_of flow) (keys flow.tasks)
  flow-IsClosed known name m =
      let (task, e) = contains_key_cases name flow.tasks (keys_mem name flow.tasks m) in
      (task.dependencies, rw e, λ a i. mem-keys a flow.tasks (known name task e a i))

  -- A name that is no task has no dependencies.
  unknown-Acc : (name : Text) → contains_key name flow.tasks ≡ false → Acc (DependsOn flow) name
  unknown-Acc name e = Acc.intro name (λ b r. absurd (ground (arith, r.of_children)))

  outcome :
      HasKnownDependencies flow
      → (r : Result (Fault Text) (Marks Text))
      → search_all (dependencies_of flow) (suc (length (keys flow.tasks))) (keys flow.tasks) ≡ r
      → ((graph_outcome flow_name r ≡ ok tt) × ((name : Text) → Acc (DependsOn flow) name))
        ⊎ ((name : Text) × (graph_outcome flow_name r ≡ err (fails (cycle_error flow_name name)))
            × Leads (dependencies_of flow) name name)
  unfolding graph_outcome
  outcome known (ok s) e = inl (
    refl,
    λ name. elim (Bool-cases (contains_key name flow.tasks)) [
      | inl k ↦ search_all_sound (dependencies_of flow) _ _ e name (mem-keys name flow.tasks k)
      | inr k ↦ unknown-Acc name k
    ],
  )
  outcome known (err f) e =
      let (name, q) =
        search_all_decided (dependencies_of flow) (keys flow.tasks) (flow-IsClosed known) e in
      inr (name, rw q, search_all_cycle (dependencies_of flow) _ _ (rw q at e))

  -- If every dependency of a task is a task, then either `validate_task_graph` accepts the flow, and
  -- every chain of dependencies ends, or it reports a cycle at a task that depends on itself through
  -- one or more dependencies. It neither panics nor runs out of fuel.
  pub validate_task_graph_decides :
      HasKnownDependencies flow
      → ((validate_task_graph flow_name flow ≡ ok tt) × ((name : Text) → Acc (DependsOn flow) name))
        ⊎ ((name : Text) × (validate_task_graph flow_name flow
              ≡ err (fails (cycle_error flow_name name)))
            × Leads (dependencies_of flow) name name)
  unfolding validate_task_graph
  validate_task_graph_decides known = outcome known _ refl

  pub validate_task_graph-Acc :
      HasKnownDependencies flow
      → validate_task_graph flow_name flow ≡ ok tt
      → (name : Text) → Acc (DependsOn flow) name
  validate_task_graph-Acc known h = elim (validate_task_graph_decides known) [
    | inl (e, a) ↦ a
    | inr (n, e, l) ↦ absurd (cc)
  ]
