-- ===== src/TaskGraph/Build/Accepted.antt =====
-- From the checks of the manifest and of the registry to the scheduler's graph.
use donkeyspace.Prelude.{◌≡◌, subst, true, List, ok, Memᴰ, is_distinct, keys, text_eq}
use donkeyspace.Text.{Text}
use donkeyspace.Plugin.{PluginManifest, PluginFlow, PluginWorkItem}
use donkeyspace.Plugin.Validate.{validate}
use donkeyspace.Plugin.Validate.Accepted.{validate-IsRunnable, links_known}
use donkeyspace.Plugin.WorkItems.{validate_work_items}
use donkeyspace.Plugin.WorkItems.Decides.{Explains, validate_work_items_explained}
use donkeyspace.TaskGraph.{TaskGraph}
use donkeyspace.TaskGraph.Progress.{IsWellFormed}
use donkeyspace.TaskGraph.Build.{for_work_items}
use donkeyspace.TaskGraph.Build.WellFormed.{HasScopedDependencies, for_work_items-IsWellFormed}

-- For a flow of a manifest that `validate` accepts, with distinct task names, whose workflow tasks
-- depend on workflow tasks only, and a registry that `validate_work_items` accepts,
-- `for_work_items` does not panic, and the graph that it builds is well formed.
pub accepted-IsWellFormed :
    {V : Type 0} (m : PluginManifest) (name : Text) (flow : PluginFlow)
    (items : List (PluginWorkItem V))
    → validate m ≡ ok tt
    → Memᴰ (name, flow) m.flows
    → is_distinct (keys flow.tasks) ≡ true
    → HasScopedDependencies flow items
    → validate_work_items items ≡ ok tt
    → (g : TaskGraph) × (for_work_items flow items ≡ ok g) × IsWellFormed g
accepted-IsWellFormed m name flow items accepted member distinct scoped registry =
    let r = validate-IsRunnable m name flow accepted member in
    let (_, finite) = subst (Explains items) registry (validate_work_items_explained items) in
    for_work_items-IsWellFormed flow items distinct (links_known flow r.links) scoped r.acyclic
      finite
