-- ===== src/TaskGraph/Build.antt =====
-- `TaskGraph::for_work_items`: the graph of a flow and the active work items. An error is
-- a panic at the index of the named task, which the flow does not have.
pub mod WellFormed
pub mod Starts
pub mod Entries
pub mod Accepted
use mathlib.Core.Option
use donkeyspace.Prelude.{
  Bool, true, false, List, [], ◌∷◌, ◌++◌, Option, none, some, Result, ok, err, ok_or, ◌>>=◌,
  text_eq, ◌==◌, map, keep, contains, to_set, if◌then◌else◌, lookup, insert, insert_key, text_eq,
}
use donkeyspace.Text.{Text}
use donkeyspace.Plugin.{
  PluginFlow, PluginTask, PluginTaskScope, PluginWorkItem, workflow, work_item,
}
use donkeyspace.Plugin.WorkItems.{ids, find_item}
use donkeyspace.TaskGraph.{TaskKey, key_Eq, key_Ord, TaskState, waiting, completed, TaskGraph}

-- `required.extend(…)`.
abbrev pub extend : List TaskKey → List TaskKey → List TaskKey
extend [] found = found
extend (k ∷ ks) found = extend ks (insert_key k found)

abbrev pub item_key : Text → Text → TaskKey
item_key name d = record { work_item = some d; task = name }

abbrev pub key_of : Text → Option Text → TaskKey
key_of name w = record { work_item = w; task = name }

-- The work item of a dependency of that scope.
abbrev pub item_of : PluginTaskScope → Option Text → Option Text
item_of workflow w = none
item_of work_item w = w

module _ {V : Type 0} (flow : PluginFlow) (items : List (PluginWorkItem V)) where
  -- `item_ids`.
  abbrev pub item_ids : PluginTaskScope → List (Option Text)
  item_ids workflow = none ∷ []
  item_ids work_item = map some (ids items)

  -- The keys that a task requires for its own dependencies; a set, whose order nothing reads.
  pub own_dependencies : Option Text → List Text → Result Text (List TaskKey)
  own_dependencies w [] = ok []
  own_dependencies w (d ∷ ds) = do
    task ← ok_or (lookup d flow.tasks) d
    rest ← own_dependencies w ds
    ok (insert_key (record { work_item = item_of task.scope w; task = d }) rest)

  -- The same task for the active items that the item depends on.
  abbrev pub item_dependencies_of : Text → Option (PluginWorkItem V) → List TaskKey
  item_dependencies_of name none = []
  item_dependencies_of name (some item) =
      map (item_key name) (keep (contains (to_set (ids items))) item.depends_on)

  pub by_items : Text → PluginTask → Option Text → List TaskKey
  by_items name task none = []
  by_items name task (some id) =
      if task.depends_on_work_items then item_dependencies_of name (find_item items id) else []

  pub required : Text → PluginTask → Option Text → Result Text (List TaskKey)
  unfolding own_dependencies by_items
  required name task w =
      own_dependencies w task.dependencies >>= λ own. ok (extend (by_items name task w) own)

  abbrev pub start_state : Text → TaskState
  start_state name = if name == flow.start then completed else waiting

  abbrev pub add_key : Text → Option Text → List TaskKey → TaskGraph → TaskGraph
  add_key name w ds g = record {
    states = insert (key_of name w) (start_state name) g.states;
    dependencies = insert (key_of name w) ds g.dependencies;
  }

  pub add_items : Text → PluginTask → List (Option Text) → TaskGraph → Result Text TaskGraph
  unfolding required
  add_items name task [] g = ok g
  add_items name task (w ∷ ws) g = do
    ds ← required name task w
    add_items name task ws (add_key name w ds g)

  pub add_tasks : List (Text × PluginTask) → TaskGraph → Result Text TaskGraph
  unfolding add_items
  add_tasks [] g = ok g
  add_tasks ((name, task) ∷ more) g = do
    h ← add_items name task (item_ids task.scope) g
    add_tasks more h

  unfoldable pub for_work_items : Result Text TaskGraph
  unfolding add_tasks
  for_work_items = add_tasks flow.tasks (record { states = []; dependencies = [] })
