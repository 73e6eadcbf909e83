-- ===== src/Plugin/WorkItems.antt =====
-- The registry of work items: `validate_work_items` and `select_lifecycle_work_items` of
-- crates/donkeyspace-worker/src/plugin_flow.rs. Their boxed errors carry the text of the message.
pub mod Decides
pub mod Selection
use mathlib.Core.Option
use donkeyspace.Prelude.{
  suc, ◌≡◌, Bool, true, false, not, ◌&&◌, ◌||◌, List, [], ◌∷◌, ◌++◌, Option, none, some, Result, ok,
  err, map_err, fail_if, ok_or, ◌>>=◌, ◌>>◌, for_each, when_some, text_eq, ◌==◌, map, length,
  nat_eq, to_set, contains, find, any, all, is_empty, if◌then◌else◌, Memᴰ,
}
use donkeyspace.Text.{Text, lit}
use donkeyspace.DepthFirst.{Fault, Marks, search_all, Requires}
use donkeyspace.Plugin.{Abort, fails, panics, out_of_fuel, PluginWorkItem}
use donkeyspace.Plugin.Paths.{is_absolute, components, is_parent_dir}
use donkeyspace.Plugin.Templates.{is_id_char}

abbrev pub item_cycle : Text → Text
item_cycle id = lit "work item dependency cycle contains `" ++ (id ++ lit "`")

unfoldable pub item_outcome : Result (Fault Text) (Marks Text) → Result (Abort Text) (Unit {0})
item_outcome (ok s) = ok tt
item_outcome (err (Fault.cycle id)) = err (fails (item_cycle id))
item_outcome (err (Fault.unknown id)) = err (panics id)
item_outcome (err Fault.out_of_fuel) = err out_of_fuel

module _ {V : Type 0} where
  abbrev pub ids : List (PluginWorkItem V) → List Text
  ids items = map (λ (i : PluginWorkItem V). i.id) items

  -- `items.iter().find(|item| item.id == id)`.
  abbrev pub find_item : List (PluginWorkItem V) → Text → Option (PluginWorkItem V)
  find_item items id = find (λ (i : PluginWorkItem V). i.id == id) items

  abbrev pub item_dependencies : List (PluginWorkItem V) → Text → Option (List Text)
  item_dependencies items id =
      Option.map (λ (i : PluginWorkItem V). i.depends_on) (find_item items id)

  -- The checks of one item against the ids of the registry.
  unfoldable pub validate_item : List Text → PluginWorkItem V → Result Text (Unit {0})
  validate_item known item = do
    fail_if (is_empty item.id || not (all is_id_char item.id))
        (lit "unsafe work item id `" ++ (item.id ++ lit "`"))
    fail_if (is_absolute item.spec || any is_parent_dir (components item.spec))
        (lit "unsafe work item spec path `" ++ (item.spec ++ lit "`"))
    when_some (find (λ id. not (contains known id)) item.depends_on) λ dependency. err (
        lit "work item `"
        ++ (item.id ++ (lit "` depends on unknown work item `" ++ (dependency ++ lit "`"))))

  -- The checks before the search.
  unfoldable pub check_items : List (PluginWorkItem V) → Result Text (Unit {0})
  unfolding validate_item
  check_items items = do
    fail_if (is_empty items) (lit "architect produced an empty work item registry")
    fail_if (not (nat_eq (length (to_set (ids items))) (length items)))
        (lit "architect produced duplicate work item ids")
    for_each (validate_item (to_set (ids items))) items

  unfoldable pub validate_work_items : List (PluginWorkItem V) → Result (Abort Text) (Unit {0})
  unfolding check_items search_all item_outcome
  validate_work_items items = do
    map_err fails (check_items items)
    item_outcome (search_all (item_dependencies items) (suc (length (ids items))) (ids items))

  -- `filter_map(|id| catalog.iter().find(…).cloned())`.
  unfoldable pub select_all : List (PluginWorkItem V) → List Text → List (PluginWorkItem V)
  select_all catalog [] = []
  select_all catalog (id ∷ more) = elim (find_item catalog id) [
    | none ↦ select_all catalog more
    | some item ↦ item ∷ select_all catalog more
  ]

  unfoldable pub select_lifecycle_work_items :
      List (PluginWorkItem V) → Option (List Text) → Result Text (List (PluginWorkItem V))
  unfolding select_all
  select_lifecycle_work_items catalog requested = do
    wanted ← ok_or requested (
        lit
          "architect result is missing `work_items`; list only the repository block ids participating in this lifecycle")
    fail_if (is_empty wanted) (lit "architect selected no work items for this lifecycle")
    fail_if (not (nat_eq (length (to_set wanted)) (length wanted)))
        (lit "architect selected duplicate lifecycle work item ids")
    when_some (find (λ id. not (any (λ (i : PluginWorkItem V). i.id == id) catalog)) wanted)
        λ id. err (lit "architect selected unknown lifecycle work item `" ++ (id ++ lit "`"))
    ok (select_all catalog wanted)

  -- The item `a` lists `b`.
  abbrev pub ItemDependsOn : List (PluginWorkItem V) → Text → Text → Type 0
  ItemDependsOn items = Requires (item_dependencies items)
