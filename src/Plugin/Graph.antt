-- ===== src/Plugin/Graph.antt =====
-- `validate_task_graph` of crates/donkeyspace-core/src/plugin.rs: the dependencies between the
-- tasks of a flow have no cycle.
pub mod Decides
use mathlib.Core.Option
use donkeyspace.Prelude.{
  suc, Bool, List, ◌++◌, Option, Result, ok, err, text_eq, lookup, keys, length, ◌≡◌, some, Memᴰ,
  contains_key, true,
}
use donkeyspace.Text.{Text, lit}
use donkeyspace.DepthFirst.{Fault, Marks, search_all, Requires}
use donkeyspace.Plugin.{
  PluginError, invalid, Abort, fails, panics, out_of_fuel, PluginFlow, PluginTask,
}

-- `flow.tasks[name].dependencies`.
abbrev pub dependencies_of : PluginFlow → Text → Option (List Text)
dependencies_of flow name = Option.map (λ (t : PluginTask). t.dependencies) (lookup name flow.tasks)

abbrev pub cycle_error : Text → Text → PluginError
cycle_error flow_name name = invalid (
    lit "flow `"
    ++ (flow_name ++ (lit "` contains a dependency cycle at task `" ++ (name ++ lit "`"))))

unfoldable pub graph_outcome :
    Text → Result (Fault Text) (Marks Text) → Result (Abort PluginError) (Unit {0})
graph_outcome flow_name (ok s) = ok tt
graph_outcome flow_name (err (Fault.cycle name)) = err (fails (cycle_error flow_name name))
graph_outcome flow_name (err (Fault.unknown name)) = err (panics name)
graph_outcome flow_name (err Fault.out_of_fuel) = err out_of_fuel

unfoldable pub validate_task_graph : Text → PluginFlow → Result (Abort PluginError) (Unit {0})
unfolding search_all graph_outcome
validate_task_graph flow_name flow =
    graph_outcome flow_name
      (search_all (dependencies_of flow) (suc (length (keys flow.tasks))) (keys flow.tasks))

-- `b` is a dependency of `a` in the flow.
abbrev pub DependsOn : PluginFlow → Text → Text → Type 0
DependsOn flow = Requires (dependencies_of flow)

-- Every dependency of a task is a task.
abbrev pub HasKnownDependencies : PluginFlow → Type 0
HasKnownDependencies flow =
    (name : Text) (task : PluginTask)
    → lookup name flow.tasks ≡ some task
    → (d : Text) → Memᴰ d task.dependencies
    → contains_key d flow.tasks ≡ true
