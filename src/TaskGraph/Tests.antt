-- ===== src/TaskGraph/Tests.antt =====
-- The scheduler's graph of the sample plugin with two work items, and runs of its operations.
use donkeyspace.Prelude.{
  ◌≡◌, ◌↔◌, refl, sym, ap, subst, Bool, true, false, List, [], ◌∷◌, Option, none, some, Result, ok,
  ◌>>=◌, err, Memᴰ, lookup, lookup_mem, contains, contains_key, any, values, is_distinct, keys,
  ==_iff, text_eq, arith,
}
use donkeyspace.Text.{Text, lit}
use donkeyspace.Plugin.{PluginTask, workflow}
use donkeyspace.Plugin.Samples.{sample_manifest, stuck_flow, sample_flow, sample_items}
use donkeyspace.Plugin.Validate.Samples.{sample_accepted}
use donkeyspace.Plugin.WorkItems.{validate_work_items}
use donkeyspace.TaskGraph.{
  TaskKey, key_Eq, TaskState, waiting, running, completed, is_running, TaskGraph, ready,
  is_complete, affected_by, restart_from, restore_completed,
}
use donkeyspace.TaskGraph.Build.{for_work_items}
use donkeyspace.TaskGraph.Build.WellFormed.{HasScopedDependencies}
use donkeyspace.TaskGraph.Build.Accepted.{accepted-IsWellFormed}
use donkeyspace.TaskGraph.Progress.{IsWellFormed, IsStartable, ready_iff, ready_never_stalls}
use donkeyspace.TaskGraph.Affected.{IsAffected, affected_by_iff}
use donkeyspace.TaskGraph.Updates.{Sets, restore_completed_lem, restart_from_lem}

abbrev plan_key : TaskKey
plan_key = record { work_item = none; task = lit "plan" }

abbrev build_key : Text → TaskKey
build_key id = record { work_item = some id; task = lit "build" }

abbrev sample_graph : TaskGraph
sample_graph = record {
  states =
      (plan_key, completed) ∷ (build_key (lit "a"), waiting) ∷ (build_key (lit "b"), waiting) ∷ [];
  dependencies =
      (plan_key, [])
      ∷ (build_key (lit "a"), plan_key ∷ [])
      ∷ (build_key (lit "b"), plan_key ∷ build_key (lit "a") ∷ [])
      ∷ [];
}

sample_built : for_work_items sample_flow sample_items ≡ ok sample_graph
unfolding for_work_items lit lookup donkeyspace.Prelude.list_eq donkeyspace.Prelude.insert
    donkeyspace.TaskGraph.key_before donkeyspace.Prelude.insert_key donkeyspace.Prelude.to_set
sample_built = refl

items_accepted : validate_work_items sample_items ≡ ok tt
unfolding validate_work_items lit donkeyspace.Prelude.to_set donkeyspace.Prelude.list_eq
    donkeyspace.Text.is_ascii_alphanumeric donkeyspace.Plugin.Paths.is_absolute
    donkeyspace.Plugin.Paths.components donkeyspace.DepthFirst.visit_each
    donkeyspace.DepthFirst.visit
items_accepted = refl

sample_distinct : is_distinct (keys sample_flow.tasks) ≡ true
unfolding lit donkeyspace.Prelude.list_eq
sample_distinct = refl

plan_only :
    (name d : Text) (task : PluginTask)
    → Memᴰ (name, task) sample_flow.tasks
    → Memᴰ d task.dependencies
    → task.scope ≡ workflow
    → ⊥
plan_only name d task (Memᴰ.head q) m s = cc
plan_only name d task (Memᴰ.tail (Memᴰ.head q)) m s =
    elim (subst (λ (t : PluginTask). Memᴰ d t.dependencies) (ap (λ (b : Text × PluginTask). b.1) q)
      m) [ ]
plan_only name d task (Memᴰ.tail (Memᴰ.tail n)) m s = elim n [ ]

sample_scoped : HasScopedDependencies sample_flow sample_items
sample_scoped name d task other e m f s =
    absurd (plan_only name d task (lookup_mem name sample_flow.tasks e) m s)

accepted-IsWellFormed_example :
    (g : TaskGraph) × (for_work_items sample_flow sample_items ≡ ok g) × IsWellFormed g
accepted-IsWellFormed_example =
    accepted-IsWellFormed sample_manifest (lit "main") sample_flow sample_items sample_accepted
      (Memᴰ.head refl) sample_distinct sample_scoped items_accepted

IsWellFormed-of :
    (g : TaskGraph)
    → for_work_items sample_flow sample_items ≡ ok g
    → IsWellFormed g
    → IsWellFormed sample_graph
IsWellFormed-of g e w =
    let same : g ≡ sample_graph = ground (arith, e, sample_built) in subst IsWellFormed same w

sample_graph-IsWellFormed : IsWellFormed sample_graph
sample_graph-IsWellFormed =
    let (g, e, w) =
      accepted-IsWellFormed sample_manifest (lit "main") sample_flow sample_items sample_accepted
        (Memᴰ.head refl) sample_distinct sample_scoped items_accepted in
    IsWellFormed-of g e w

ready_iff_example :
    (rs : List TaskKey) × (ready sample_graph ≡ ok rs)
    × ((k : TaskKey)
        → Memᴰ k rs ↔ ((lookup k sample_graph.states ≡ some waiting) × IsStartable sample_graph k))
ready_iff_example = ready_iff sample_graph sample_graph-IsWellFormed

sample_ready : ready sample_graph ≡ ok (build_key (lit "a") ∷ [])
unfolding ready lit lookup donkeyspace.Prelude.list_eq
sample_ready = refl

ready_never_stalls_example :
    (k : TaskKey) × (ks : List TaskKey) × (ready sample_graph ≡ ok (k ∷ ks))
unfolding is_complete
ready_never_stalls_example = ready_never_stalls sample_graph sample_graph-IsWellFormed refl refl

a_known : contains_key (build_key (lit "a")) sample_graph.states ≡ true
unfolding lookup lit donkeyspace.Prelude.list_eq
a_known = refl

affected_by_iff_example :
    (found : List TaskKey) × (affected_by sample_graph (build_key (lit "a")) ≡ some (ok found))
    × ((j : TaskKey)
        → (contains found j ≡ true) ↔ IsAffected sample_graph.dependencies (build_key (lit "a")) j)
affected_by_iff_example = affected_by_iff sample_graph (build_key (lit "a")) a_known

a_affects_b :
    affected_by sample_graph (build_key (lit "a"))
    ≡ some (ok (build_key (lit "a") ∷ build_key (lit "b") ∷ []))
unfolding affected_by lit lookup donkeyspace.Prelude.list_eq donkeyspace.Prelude.insert_key
    donkeyspace.TaskGraph.key_before
a_affects_b = refl

restart_from_example :
    (h : TaskGraph) × (found : List TaskKey) × (restart_from sample_graph (build_key (lit "a"))
      ≡ some (ok (h, found)))
    × ((j : TaskKey)
        → (contains found j ≡ true) ↔ IsAffected sample_graph.dependencies (build_key (lit "a")) j)
    × IsWellFormed h
    × Sets waiting found sample_graph h
restart_from_example =
    restart_from_lem sample_graph (build_key (lit "a")) sample_graph-IsWellFormed a_known

only_a_known :
    (k : TaskKey)
    → contains (build_key (lit "a") ∷ []) k ≡ true
    → contains_key k sample_graph.states ≡ true
only_a_known k h =
    let same : build_key (lit "a") ≡ k = ground (arith, ==_iff (build_key (lit "a")) k) in
    subst (λ k. contains_key k sample_graph.states ≡ true) same a_known

restore_completed_example :
    (h : TaskGraph) × (restore_completed sample_graph (build_key (lit "a") ∷ []) ≡ ok h)
    × IsWellFormed h
    × Sets completed (build_key (lit "a") ∷ []) sample_graph h
restore_completed_example =
    restore_completed_lem sample_graph (build_key (lit "a") ∷ []) sample_graph-IsWellFormed
      only_a_known

-- A task of the workflow that depends on a task of the work items waits for ever: every other task
-- is completed, and nothing is ready.
stuck_ready :
    (for_work_items stuck_flow sample_items >>= λ g.
    restore_completed g (build_key (lit "a") ∷ build_key (lit "b") ∷ []) >>= ready)
    ≡ ok []
unfolding for_work_items lit restore_completed ready lookup donkeyspace.Prelude.list_eq
    donkeyspace.Prelude.insert donkeyspace.TaskGraph.key_before donkeyspace.Prelude.insert_key
stuck_ready = refl
