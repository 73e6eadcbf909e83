-- ===== src/Plugin/Tests.antt =====
-- Templates, the registry of work items and the search for cycles at small inputs.
use donkeyspace.Prelude.{
  ◌≡◌, ◌↔◌, ◌⊎◌, refl, true, false, List, [], ◌∷◌, none, some, Result, ok, err, text_eq, is_empty,
  is_distinct, All, Memᴰ,
}
use mathlib.Core.WellFounded.{Acc}
use donkeyspace.Text.{Text, lit}
use donkeyspace.DepthFirst.Cycles.{Leads}
use donkeyspace.Plugin.{PluginWorkItem, fails}
use donkeyspace.Plugin.Samples.{sample_manifest, sample_flow, sample_items, item_of_id}
use donkeyspace.Plugin.Templates.{placeholders}
use donkeyspace.Plugin.Templates.Placeholders.{Template, placeholders_iff}
use donkeyspace.Plugin.Graph.{validate_task_graph, cycle_error, dependencies_of, DependsOn}
use donkeyspace.Plugin.Graph.Decides.{validate_task_graph_decides}
use donkeyspace.Plugin.Validate.Samples.{sample_accepted}
use donkeyspace.Plugin.Validate.Accepted.{IsRunnable, links_known, validate-IsRunnable}
use donkeyspace.Plugin.WorkItems.{ids, select_lifecycle_work_items, validate_work_items}
use donkeyspace.Plugin.WorkItems.Selection.{select_lifecycle_work_items_lem}
use donkeyspace.Plugin.WorkItems.Decides.{Explains, validate_work_items_explained}

validate-IsRunnable_example : IsRunnable sample_flow
validate-IsRunnable_example =
    validate-IsRunnable sample_manifest (lit "main") sample_flow sample_accepted (Memᴰ.head refl)

sample-IsRunnable : IsRunnable sample_flow
sample-IsRunnable =
    validate-IsRunnable sample_manifest (lit "main") sample_flow sample_accepted (Memᴰ.head refl)

validate_task_graph_decides_example :
    ((validate_task_graph (lit "main") sample_flow ≡ ok tt)
      × ((name : Text) → Acc (DependsOn sample_flow) name))
    ⊎ ((name : Text) × (validate_task_graph (lit "main") sample_flow
          ≡ err (fails (cycle_error (lit "main") name)))
        × Leads (dependencies_of sample_flow) name name)
validate_task_graph_decides_example =
    validate_task_graph_decides (lit "main") sample_flow
      (links_known sample_flow sample-IsRunnable.links)

validate_work_items_explained_example : Explains sample_items (validate_work_items sample_items)
validate_work_items_explained_example = validate_work_items_explained sample_items

items_selected :
    select_lifecycle_work_items sample_items (some (lit "b" ∷ []))
    ≡ ok (item_of_id (lit "b") (lit "a" ∷ []) ∷ [])
unfolding select_lifecycle_work_items lit donkeyspace.Prelude.to_set donkeyspace.Prelude.list_eq
items_selected = refl

select_lifecycle_work_items_example :
    (ids (item_of_id (lit "b") (lit "a" ∷ []) ∷ []) ≡ lit "b" ∷ [])
    × (is_distinct (lit "b" ∷ []) ≡ true)
    × (is_empty (item_of_id (lit "b") (lit "a" ∷ []) ∷ []) ≡ false)
    × All
        (λ (i : PluginWorkItem Text). Memᴰ i sample_items)
        (item_of_id (lit "b") (lit "a" ∷ []) ∷ [])
select_lifecycle_work_items_example =
    select_lifecycle_work_items_lem sample_items (lit "b" ∷ [])
      (item_of_id (lit "b") (lit "a" ∷ []) ∷ []) items_selected

placeholders_iff_example :
    (placeholders (lit "a}b{issue_title}") ≡ ok (lit "issue_title" ∷ []))
    ↔ Template (lit "a}b{issue_title}") (lit "issue_title" ∷ [])
placeholders_iff_example = placeholders_iff (lit "a}b{issue_title}") (lit "issue_title" ∷ [])

-- The stray brace of this text is not reported.
stray_brace_accepted : placeholders (lit "a}b{issue_title}") ≡ ok (lit "issue_title" ∷ [])
unfolding placeholders lit donkeyspace.Text.split_once
stray_brace_accepted = refl
