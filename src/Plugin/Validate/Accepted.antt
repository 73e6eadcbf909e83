-- ===== src/Plugin/Validate/Accepted.antt =====
-- What an accepted manifest promises to the scheduler.
use mathlib.Core.WellFounded.{Acc}
use donkeyspace.Prelude.{
  ◌≡◌, ◌≢◌, ◌<◌, refl, true, List, [], ◌∷◌, none, some, is_some, Result, ok, err, map_err, ok_or,
  for_each, for_each_iff, All_elim, Memᴰ, >>-eq-ok, >>=-eq-ok, >>=-eq-err, text_eq, ==_iff,
  contains_key, lookup, lookup_mem, arith, inl, inr, Option-cases,
}
use donkeyspace.Text.{Text}
use donkeyspace.Plugin.{
  PluginError, Abort, fails, panics, PluginManifest, PluginFlow, PluginTask, workflow,
}
use donkeyspace.Plugin.Graph.{cycle_error, validate_task_graph, DependsOn, HasKnownDependencies}
use donkeyspace.Plugin.Graph.Decides.{validate_task_graph-Acc, validate_task_graph_decides}
use donkeyspace.Plugin.Validate.Task.{
  validate_task, task_links, task_files, check_dependency, check_handoff,
}
use donkeyspace.Plugin.Validate.{
  validate, validate_flow, flow_header, flow_limits, flow_options, manifest_header,
}

-- What `task_links` has checked of one task.
pub record HasLinks (flow : PluginFlow) (name : Text) (task : PluginTask) : Type 0 where
  pub dependencies :
      (d : Text) → Memᴰ d task.dependencies → (contains_key d flow.tasks ≡ true) × (d ≢ name)
  pub handoffs : (t : Text) → Memᴰ t task.allowed_handoffs → contains_key t flow.tasks ≡ true

task_links-HasLinks :
    (flow : PluginFlow) (name : Text) (task : PluginTask)
    → task_links flow name task ≡ ok tt
    → HasLinks flow name task
unfolding task_links
task_links-HasLinks flow name task h =
    let (a, k) = >>-eq-ok (for_each (check_dependency flow name) task.dependencies) _ h in
    let (b, c) = >>-eq-ok (for_each (check_handoff flow name) task.allowed_handoffs) _ k in
    record {
      dependencies = λ d m. dependency_ok d (
          All_elim _ task.dependencies
            ((for_each_iff (check_dependency flow name) task.dependencies).0 a) m);
      handoffs = λ t m. handoff_ok t (
          All_elim _ task.allowed_handoffs
            ((for_each_iff (check_handoff flow name) task.allowed_handoffs).0 b) m);
    }
  where
    dependency_ok :
        (d : Text)
        → check_dependency flow name d ≡ ok tt
        → (contains_key d flow.tasks ≡ true) × (d ≢ name)
    dependency_ok d e = (ground arith, λ q. absurd (ground (arith, ==_iff d name)))

    handoff_ok : (t : Text) → check_handoff flow name t ≡ ok tt → contains_key t flow.tasks ≡ true
    handoff_ok t e = ground arith

validate_task-HasLinks :
    (m : PluginManifest) (flow : PluginFlow) (name : Text) (task : PluginTask)
    → validate_task m flow (name, task) ≡ ok tt
    → HasLinks flow name task
unfolding validate_task
validate_task-HasLinks m flow name task h =
    task_links-HasLinks flow name task
      (>>-eq-ok (task_files m name task) (task_links flow name task) h).1

-- What holds of a flow before its tasks are read.
pub record HasHeader (flow : PluginFlow) : Type 0 where
  pub start : (t : PluginTask) × (lookup flow.start flow.tasks ≡ some t) × (t.scope ≡ workflow)
  pub handoffs : 0 < flow.max_handoffs_per_edge
  pub parallel : 0 < flow.max_parallel_tasks
  pub items : is_some flow.work_items_path ≡ true

limits :
    (n : Text) (flow : PluginFlow)
    → flow_limits n flow ≡ ok tt
    → (flow.replaces_default_lifecycle ≡ true)
      × (0 < flow.max_handoffs_per_edge)
      × (0 < flow.max_parallel_tasks)
      × (is_some flow.work_items_path ≡ true)
unfolding flow_limits
limits n flow h = (ground arith, ground arith, ground arith, ground arith)

options :
    (m : PluginManifest) (n : Text) (flow : PluginFlow) (start : PluginTask)
    → flow.replaces_default_lifecycle ≡ true
    → flow_options m n flow start ≡ ok tt
    → start.scope ≡ workflow
unfolding flow_options
options m n flow start r h = ground arith

map_err_ok : {E F : Type 0} (f : E → F) (r : Result E (Unit {0})) → map_err f r ≡ ok tt → r ≡ ok tt
map_err_ok f (ok tt) h = refl
map_err_ok f (err e) h = cc

flow_header-HasHeader :
    (m : PluginManifest) (n : Text) (flow : PluginFlow)
    → flow_header m n flow ≡ ok tt
    → HasHeader flow
unfolding flow_header
flow_header-HasHeader m n flow h =
    let (a, k) = >>-eq-ok (map_err fails (flow_limits n flow)) _ h in
    let (t, e, o) = >>=-eq-ok (ok_or (lookup flow.start flow.tasks) (panics flow.start)) _ k in
    let (r, x, y, z) = limits n flow (map_err_ok fails _ a) in
    record {
      start = (t, ground arith, options m n flow t r (map_err_ok fails _ o));
      handoffs = x;
      parallel = y;
      items = z;
    }

-- A flow that the scheduler can run.
pub record IsRunnable (flow : PluginFlow) : Type 0 where
  pub header : HasHeader flow
  pub links :
      (name : Text) (task : PluginTask) → Memᴰ (name, task) flow.tasks → HasLinks flow name task
  pub acyclic : (name : Text) → Acc (DependsOn flow) name

pub links_known :
    (flow : PluginFlow)
    → ((name : Text) (task : PluginTask) → Memᴰ (name, task) flow.tasks → HasLinks flow name task)
    → HasKnownDependencies flow
links_known flow links name task e d m =
    ((links name task (lookup_mem name flow.tasks e)).dependencies d m).0

-- An error of a map of errors is one of them.
map_err_fails :
    (r : Result PluginError (Unit {0})) {a : Abort PluginError}
    → map_err fails r ≡ err a
    → (e : PluginError) × (a ≡ fails e)
map_err_fails (ok u) h = absurd (cc)
map_err_fails (err e) h = (e, cc)

limits_start :
    (n : Text) (flow : PluginFlow)
    → flow_limits n flow ≡ ok tt
    → contains_key flow.start flow.tasks ≡ true
unfolding flow_limits
limits_start n flow h = ground arith

module _ (m : PluginManifest) (n : Text) (flow : PluginFlow) where
  -- The task checks of a flow, with their errors as those of the whole.
  abbrev tasks_check : Result (Abort PluginError) (Unit {0})
  tasks_check = map_err fails (for_each (validate_task m flow) flow.tasks)

  tasks-HasLinks :
      tasks_check ≡ ok tt
      → (name : Text) (task : PluginTask) → Memᴰ (name, task) flow.tasks
      → HasLinks flow name task
  tasks-HasLinks h name task k = validate_task-HasLinks m flow name task (
      All_elim _ flow.tasks
        ((for_each_iff (validate_task m flow) flow.tasks).0 (map_err_ok fails _ h)) k)

  validate_flow-IsRunnable : validate_flow m (n, flow) ≡ ok tt → IsRunnable flow
  unfolding validate_flow
  validate_flow-IsRunnable h =
      let (a, k) = >>-eq-ok (flow_header m n flow) _ h in
      let (b, c) = >>-eq-ok tasks_check (validate_task_graph n flow) k in
      let links = tasks-HasLinks b in
      record {
        header = flow_header-HasHeader m n flow a;
        links = links;
        acyclic = validate_task_graph-Acc n flow (links_known flow links) c;
      }

  flow_header_fails :
      {a : Abort PluginError} → flow_header m n flow ≡ err a → (e : PluginError) × (a ≡ fails e)
  unfolding flow_header
  flow_header_fails {a} h = elim (>>=-eq-err (map_err fails (flow_limits n flow)) _ h) [
    | inl p ↦ map_err_fails (flow_limits n flow) p
    | inr (u, p, q) ↦ elim (Option-cases (lookup flow.start flow.tasks)) [
      | inl e ↦ absurd (start_known (map_err_ok fails _ p) e)
      | inr (t, e) ↦ map_err_fails (flow_options m n flow t) (rw e at q)
    ]
  ]
    where
      start_known : flow_limits n flow ≡ ok tt → lookup flow.start flow.tasks ≡ none → ⊥
      start_known l e = let c = limits_start n flow l in ground arith

  validate_flow_fails :
      {a : Abort PluginError}
      → validate_flow m (n, flow) ≡ err a
      → (e : PluginError) × (a ≡ fails e)
  unfolding validate_flow
  validate_flow_fails {a} h = elim (>>=-eq-err (flow_header m n flow) _ h) [
    | inl p ↦ flow_header_fails p
    | inr (u, p, q) ↦ elim (>>=-eq-err tasks_check _ q) [
      | inl r ↦ map_err_fails (for_each (validate_task m flow) flow.tasks) r
      | inr (v, r, s) ↦
          elim (validate_task_graph_decides n flow (links_known flow (tasks-HasLinks r))) [
            | inl (x, y) ↦ absurd (cc)
            | inr (name, x, y) ↦ (cycle_error n name, cc)
          ]
    ]
  ]

-- If a manifest passes `validate`, every flow of it can be run: its start task exists and has
-- workflow scope, its limits are positive and it names its registry of work items; each task
-- depends on tasks of the flow other than itself and hands off to tasks of the flow; and every
-- chain of dependencies ends.
pub validate-IsRunnable :
    (m : PluginManifest) (name : Text) (flow : PluginFlow)
    → validate m ≡ ok tt
    → Memᴰ (name, flow) m.flows
    → IsRunnable flow
unfolding validate
validate-IsRunnable m name flow h k =
    let (a, b) = >>-eq-ok (map_err fails (manifest_header m)) _ h in
    validate_flow-IsRunnable m name flow
      (All_elim _ m.flows ((for_each_iff (validate_flow m) m.flows).0 b) k)

flows_fail :
    (m : PluginManifest) (flows : List (Text × PluginFlow)) {a : Abort PluginError}
    → for_each (validate_flow m) flows ≡ err a
    → (e : PluginError) × (a ≡ fails e)
flows_fail m [] h = absurd (cc)
flows_fail m ((n, flow) ∷ flows) h = elim (>>=-eq-err (validate_flow m (n, flow)) _ h) [
  | inl p ↦ validate_flow_fails m n flow p
  | inr (u, p, q) ↦ flows_fail m flows q
]

-- `validate` ends in acceptance or in an error message: the indexing of the start task and of the
-- dependencies never panics, and the search for cycles never runs out of fuel.
pub validate_never_panics :
    (m : PluginManifest) {a : Abort PluginError}
    → validate m ≡ err a
    → (e : PluginError) × (a ≡ fails e)
unfolding validate
validate_never_panics m h = elim (>>=-eq-err (map_err fails (manifest_header m)) _ h) [
  | inl p ↦ map_err_fails (manifest_header m) p
  | inr (u, p, q) ↦ flows_fail m m.flows q
]
