-- ===== src/TaskGraph/Build/WellFormed.antt =====
-- The graph that `for_work_items` builds is well formed.
use mathlib.Core.WellFounded.{Acc}
use mathlib.Core.List.Memᴰ
use donkeyspace.Prelude.{
  ◌≡◌, refl, sym, ap, ◌∙◌, subst, true, List, [], Option, none, some, ok, arith, Memᴰ, Bool-cases,
  inl, inr, ◌⊎◌, contains, mem_contains, text_eq, lookup, keys, contains_key, mem_lookup,
  is_distinct, >>=-eq-ok, lookup_mem,
}
use donkeyspace.Text.{Text}
use donkeyspace.DepthFirst.{Requires}
use donkeyspace.Plugin.{
  PluginFlow, PluginTask, PluginTaskScope, PluginWorkItem, workflow, work_item,
}
use donkeyspace.Plugin.WorkItems.{ids, item_dependencies}
use donkeyspace.Plugin.Graph.{DependsOn, HasKnownDependencies}
use donkeyspace.TaskGraph.{TaskKey, key_Eq, key_Ord, TaskGraph}
use donkeyspace.TaskGraph.Progress.{IsWellFormed, Needs}
use donkeyspace.TaskGraph.Build.{
  item_ids, item_of, own_dependencies, extend, item_key, by_items, required, key_of, for_work_items,
}
use donkeyspace.TaskGraph.Build.Entries.{
  contains-extend, own_mem, by_items_mem, IsRequired, IsBuilt, add_tasks-IsBuilt,
}

module _ {V : Type 0} (flow : PluginFlow) (items : List (PluginWorkItem V)) where
  -- A key in a dependency set: of a dependency of the task, or of the same task for an item that
  -- the item depends on.
  OwnKey : TaskKey → TaskKey → PluginTask → Type 0
  OwnKey j k task =
      (t : PluginTask) × Memᴰ j.task task.dependencies
      × (lookup j.task flow.tasks ≡ some t)
      × (j.work_item ≡ item_of t.scope k.work_item)

  ItemKey : TaskKey → TaskKey → Type 0
  ItemKey j k =
      (i : Text) × (d : Text) × (k.work_item ≡ some i)
      × (j ≡ item_key k.task d)
      × Requires (item_dependencies items) d i
      × Memᴰ d (ids items)

  required_mem :
      (k : TaskKey) (ds : List TaskKey) (r : IsRequired flow items k ds) (j : TaskKey)
      → Memᴰ j ds
      → OwnKey j k r.task ⊎ ItemKey j k
  unfolding required OwnKey ItemKey
  required_mem k ds r j m =
      let (own, q, e) =
        >>=-eq-ok (own_dependencies flow items k.work_item r.task.dependencies) _ r.requires in
      let these : extend (by_items flow items k.task r.task k.work_item) own ≡ ds =
        ground (arith, e) in
      let found = contains-extend (by_items flow items k.task r.task k.work_item) own j in
      elim (Bool-cases (contains own j)) [
        | inl o ↦ inl (own_mem flow items k.work_item r.task.dependencies own q j o)
        | inr o ↦ inr (
            by_items_mem flow items k.task r.task k.work_item j
              (ground (arith, mem_contains m, found, ap (λ ks. contains ks j) these)))
      ]

  -- A task of the workflow depends on tasks of the workflow only.
  abbrev pub HasScopedDependencies : Type 0
  HasScopedDependencies =
      (name d : Text) (task other : PluginTask)
      → lookup name flow.tasks ≡ some task
      → Memᴰ d task.dependencies
      → lookup d flow.tasks ≡ some other
      → task.scope ≡ workflow
      → other.scope ≡ workflow

  scope_mem :
      (s u : PluginTaskScope) (w : Option Text)
      → Memᴰ w (item_ids flow items s)
      → (s ≡ workflow → u ≡ workflow)
      → Memᴰ (item_of u w) (item_ids flow items u)
  scope_mem s workflow w m f = Memᴰ.head refl
  scope_mem workflow work_item w m f = absurd (cc (f refl))
  scope_mem work_item work_item w m f = m

  item_scope_mem :
      (s : PluginTaskScope) (i d : Text)
      → Memᴰ (some i) (item_ids flow items s)
      → Memᴰ d (ids items)
      → Memᴰ (some d) (item_ids flow items s)
  item_scope_mem workflow i d (Memᴰ.head q) n = absurd (cc)
  item_scope_mem workflow i d (Memᴰ.tail m) n = elim m [ ]
  item_scope_mem work_item i d m n = Memᴰ.map some n

  module _ (g : TaskGraph) (built : IsBuilt flow items g) where
    Needs-cases : (j k : TaskKey) → Needs g j k → DependsOn flow j.task k.task ⊎ ItemKey j k
    unfolding OwnKey
    Needs-cases j k n =
        let r = built.explained k n.listed n.of_children in
        elim (required_mem k n.listed r j n.is_listed) [
          | inl (t, m, e, q) ↦ inl (record {
            listed = r.task.dependencies;
            of_children = rw r.of_flow refl;
            is_listed = m;
          })
          | inr x ↦ inr x
        ]

    grounded_item :
        (t : Text)
        → ((u : Text) → DependsOn flow u t → (w : Option Text) → Acc (Needs g) (key_of u w))
        → (i : Text) → Acc (Requires (item_dependencies items)) i
        → Acc (Needs g) (key_of t (some i))
    unfolding ItemKey
    grounded_item t outer i (Acc.intro _ below) = Acc.intro _ (λ j n.
        elim (Needs-cases j (key_of t (some i)) n) [
          | inl r ↦ outer j.task r j.work_item
          | inr (x, d, e, q, r, m) ↦
              let same : i ≡ x = ground (arith, e) in
              rw q (grounded_item t outer d (below d (rw same r)))
        ])

    grounded :
        ((i : Text) → Acc (Requires (item_dependencies items)) i)
        → (t : Text) → Acc (DependsOn flow) t
        → (w : Option Text) → Acc (Needs g) (key_of t w)
    unfolding ItemKey
    grounded finite t (Acc.intro _ below) (some i) =
        grounded_item t (λ u r w. grounded finite u (below u r) w) i (finite i)
    grounded finite t (Acc.intro _ below) none = Acc.intro _ (λ j n.
        elim (Needs-cases j (key_of t none) n) [
          | inl r ↦ grounded finite j.task (below j.task r) j.work_item
          | inr (x, d, e, q, r, m) ↦ absurd (cc)
        ])

  built_closed :
      HasScopedDependencies
      → (g : TaskGraph) → IsBuilt flow items g
      → ((name : Text) (task : PluginTask) (w : Option Text)
          → Memᴰ (name, task) flow.tasks
          → Memᴰ w (item_ids flow items task.scope)
          → contains_key (key_of name w) g.states ≡ true)
      → (k j : TaskKey) (ds : List TaskKey) → lookup k g.dependencies ≡ some ds
      → Memᴰ j ds
      → contains_key j g.states ≡ true
  unfolding OwnKey ItemKey
  built_closed scoped g b present k j ds e m =
      let r = b.explained k ds e in
      elim (required_mem k ds r j m) [
        | inl (t, n, x, q) ↦ present j.task t j.work_item (lookup_mem j.task flow.tasks x) (
            rw q (
              scope_mem r.task.scope t.scope k.work_item r.of_scope
                (scoped k.task j.task r.task t r.of_flow n x)))
        | inr (i, d, x, q, y, n) ↦ rw q (
            present k.task r.task (some d) (lookup_mem k.task flow.tasks r.of_flow) (
              item_scope_mem r.task.scope i d
                (subst (λ w. Memᴰ w (item_ids flow items r.task.scope)) x r.of_scope) n))
      ]

-- For a flow with distinct task names whose dependencies are tasks, whose workflow tasks depend on
-- workflow tasks only and in which every chain of dependencies ends, and for work items in which it
-- ends too, `for_work_items` does not panic, and the graph that it builds is well formed.
pub for_work_items-IsWellFormed :
    {V : Type 0} (flow : PluginFlow) (items : List (PluginWorkItem V))
    → is_distinct (keys flow.tasks) ≡ true
    → HasKnownDependencies flow
    → HasScopedDependencies flow items
    → ((name : Text) → Acc (DependsOn flow) name)
    → ((id : Text) → Acc (Requires (item_dependencies items)) id)
    → (g : TaskGraph) × (for_work_items flow items ≡ ok g) × IsWellFormed g
unfolding for_work_items lookup
for_work_items-IsWellFormed flow items distinct known scoped acyclic finite =
    let empty : IsBuilt flow items (record { states = []; dependencies = [] }) = record {
      distinct = refl;
      agree = λ k. refl;
      explained = λ k ds e. absurd (ground (arith, e));
    } in
    let (g, e, b, x, present) =
      add_tasks-IsBuilt flow items known flow.tasks _
        (λ n t m. mem_lookup n t flow.tasks distinct m) empty in
    (
      g,
      e,
      record {
        has_distinct_keys = b.distinct;
        has_dependencies = λ k c. sym (b.agree k) ∙ c;
        has_states = λ k c. b.agree k ∙ c;
        is_closed = λ k d ds q m. built_closed flow items scoped g b present k d ds q m;
        is_grounded = λ k. grounded flow items g b finite k.task (acyclic k.task) k.work_item;
      },
    )
