-- ===== src/TaskGraph/Build/Entries.antt =====
-- The entries of the graph that `for_work_items` builds.
use mathlib.Core.List.Memᴰ
use donkeyspace.Prelude.{
  ◌≡◌, refl, sym, ap, ◌∙◌, subst, true, ◌||◌, List, [], ◌∷◌, Option, none, some, ok, ok_or, arith,
  Memᴰ, keep, keep_mem, map, Bool-cases, Option-cases, inl, inr, ==_iff, ◌==◌, contains,
  contains_mem, text_eq, to_set, contains-to_set, lookup, keys, contains_key, insert_key,
  contains-insert_key, lookup-insert, distinct-insert, contains_key_cases, is_distinct, >>=-eq-ok,
}
use donkeyspace.Text.{Text}
use donkeyspace.DepthFirst.{Requires}
use donkeyspace.Plugin.{PluginFlow, PluginTask, PluginWorkItem}
use donkeyspace.Plugin.WorkItems.{ids, find_item, item_dependencies}
use donkeyspace.Plugin.Graph.{HasKnownDependencies}
use donkeyspace.TaskGraph.{TaskKey, key_Eq, key_Ord, TaskGraph}
use donkeyspace.TaskGraph.Build.{
  item_ids, item_of, own_dependencies, extend, item_key, by_items, required, start_state, key_of,
  add_key, add_items, add_tasks,
}

pub contains-extend :
    (ks found : List TaskKey) (j : TaskKey)
    → contains (extend ks found) j ≡ (contains ks j || contains found j)
contains-extend [] found j = refl
contains-extend (k ∷ ks) found j =
    ground (arith, contains-insert_key k found j, contains-extend ks (insert_key k found) j)

module _ {V : Type 0} (flow : PluginFlow) (items : List (PluginWorkItem V)) where
  -- A key that `own_dependencies` lists stands for one of the dependencies.
  pub own_mem :
      (w : Option Text) (ds : List Text) (ks : List TaskKey)
      → own_dependencies flow items w ds ≡ ok ks
      → (j : TaskKey) → contains ks j ≡ true
      → (t : PluginTask) × Memᴰ j.task ds
        × (lookup j.task flow.tasks ≡ some t)
        × (j.work_item ≡ item_of t.scope w)
  unfolding own_dependencies
  own_mem w [] ks h j m = absurd (ground (arith, h))
  own_mem w (d ∷ ds) ks h j m =
      let (t, a, rest) = >>=-eq-ok (ok_or (lookup d flow.tasks) d) _ h in
      let (more, b, c) = >>=-eq-ok (own_dependencies flow items w ds) _ rest in
      let found : lookup d flow.tasks ≡ some t = ground (arith, a) in
      let key : TaskKey = record { work_item = item_of t.scope w; task = d } in
      let listed : insert_key key more ≡ ks = ground (arith, c) in
      elim (Bool-cases (contains more j)) [
        | inl q ↦ let (u, x, y, z) = own_mem w ds more b j q in (u, Memᴰ.tail x, y, z)
        | inr q ↦
            let same : key ≡ j =
              (==_iff key j).0
                (ground (arith, contains-insert_key key more j, ap (λ ks. contains ks j) listed)) in
            (
              t,
              Memᴰ.head (ap (λ (k : TaskKey). k.task) (sym same)),
              ap (λ (k : TaskKey). lookup k.task flow.tasks) (sym same) ∙ found,
              ap (λ (k : TaskKey). k.work_item) (sym same),
            )
      ]

  own_total :
      (w : Option Text) (ds : List Text)
      → ((d : Text) → Memᴰ d ds → contains_key d flow.tasks ≡ true)
      → (ks : List TaskKey) × (own_dependencies flow items w ds ≡ ok ks)
  unfolding own_dependencies
  own_total w [] known = ([], refl)
  own_total w (d ∷ ds) known =
      let (t, e) = contains_key_cases d flow.tasks (known d (Memᴰ.head refl)) in
      let (ks, q) = own_total w ds (λ c m. known c (Memᴰ.tail m)) in
      (insert_key (record { work_item = item_of t.scope w; task = d }) ks, rw (e, q) refl)

  -- A key that comes from the work items is the same task for an item that the item depends on.
  pub by_items_mem :
      (name : Text) (task : PluginTask) (w : Option Text) (j : TaskKey)
      → contains (by_items flow items name task w) j ≡ true
      → (i : Text) × (d : Text) × (w ≡ some i)
        × (j ≡ item_key name d)
        × Requires (item_dependencies items) d i
        × Memᴰ d (ids items)
  unfolding by_items
  by_items_mem name task none j m = cc
  by_items_mem name task (some i) j m = elim (Option-cases (find_item items i)) [
    | inl q ↦ absurd (ground arith)
    | inr (item, q) ↦
        let listed : contains
              (map (item_key name) (keep (contains (to_set (ids items))) item.depends_on)) j
            ≡ true =
          ground arith in
        let (d, x, e) = Memᴰ.of_map (item_key name) _ (contains_mem _ j listed) in
        let (n, act) = keep_mem (contains (to_set (ids items))) item.depends_on x in
        (
          i,
          d,
          refl,
          sym e,
          record { listed = item.depends_on; of_children = rw q refl; is_listed = n },
          contains_mem (ids items) d (sym (contains-to_set (ids items) d) ∙ act),
        )
  ]

  -- The dependency set of a key is the one that its task requires, for a work item of its scope.
  pub record IsRequired (k : TaskKey) (ds : List TaskKey) : Type 0 where
    pub task : PluginTask
    pub of_flow : lookup k.task flow.tasks ≡ some task
    pub of_scope : Memᴰ k.work_item (item_ids flow items task.scope)
    pub requires : required flow items k.task task k.work_item ≡ ok ds

  pub record IsBuilt (g : TaskGraph) : Type 0 where
    pub distinct : is_distinct (keys g.states) ≡ true
    pub agree : (k : TaskKey) → contains_key k g.states ≡ contains_key k g.dependencies
    pub explained :
        (k : TaskKey) (ds : List TaskKey) → lookup k g.dependencies ≡ some ds → IsRequired k ds

  unfoldable pub Extends : TaskGraph → TaskGraph → Type 0
  Extends g h = (k : TaskKey) → contains_key k g.states ≡ true → contains_key k h.states ≡ true

  add_key-IsBuilt :
      (name : Text) (w : Option Text) (ds : List TaskKey) (g : TaskGraph)
      → IsRequired (key_of name w) ds
      → IsBuilt g
      → IsBuilt (add_key flow items name w ds g)
        × Extends g (add_key flow items name w ds g)
        × (contains_key (key_of name w) (add_key flow items name w ds g).states ≡ true)
  unfolding Extends
  add_key-IsBuilt name w ds g r b =
      let key = key_of name w in
      (
        record {
          distinct = distinct-insert key (start_state flow items name) g.states b.distinct;
          agree = λ k. ground (
            arith,
            lookup-insert key k (start_state flow items name) g.states,
            lookup-insert key k ds g.dependencies,
            b.agree k,
          );
          explained = λ k es e. elim (Bool-cases (key == k)) [
            | inl q ↦
                let same = (==_iff key k).0 q in
                let these : ds ≡ es = ground (arith, lookup-insert key k ds g.dependencies) in
                subst (λ k. IsRequired k es) same (subst (IsRequired key) these r)
            | inr q ↦ b.explained k es (ground (arith, lookup-insert key k ds g.dependencies))
          ];
        },
        λ k c. ground (arith, lookup-insert key k (start_state flow items name) g.states),
        ground
            (arith, lookup-insert key key (start_state flow items name) g.states, ==_iff key key),
      )

  module _ (known : HasKnownDependencies flow) where
    required_total :
        (name : Text) (task : PluginTask) (w : Option Text)
        → lookup name flow.tasks ≡ some task
        → (ds : List TaskKey) × (required flow items name task w ≡ ok ds)
    unfolding required
    required_total name task w e =
        let (own, q) = own_total w task.dependencies (known name task e) in
        (extend (by_items flow items name task w) own, rw q refl)

    add_items-IsBuilt :
        (name : Text) (task : PluginTask) (ws : List (Option Text)) (g : TaskGraph)
        → lookup name flow.tasks ≡ some task
        → ((w : Option Text) → Memᴰ w ws → Memᴰ w (item_ids flow items task.scope))
        → IsBuilt g
        → (h : TaskGraph) × (add_items flow items name task ws g ≡ ok h)
          × IsBuilt h
          × Extends g h
          × ((w : Option Text) → Memᴰ w ws → contains_key (key_of name w) h.states ≡ true)
    unfolding add_items Extends
    add_items-IsBuilt name task [] g e inside b = (g, refl, b, (λ k c. c), λ w m. elim m [ ])
    add_items-IsBuilt name task (w ∷ ws) g e inside b =
        let (ds, q) = required_total name task w e in
        let r : IsRequired (key_of name w) ds = record {
          task = task;
          of_flow = e;
          of_scope = inside w (Memᴰ.head refl);
          requires = q;
        } in
        let (c, x, here) = add_key-IsBuilt name w ds g r b in
        let (h, p, d, y, later) =
          add_items-IsBuilt name task ws (add_key flow items name w ds g) e
            (λ v m. inside v (Memᴰ.tail m)) c in
        (
          h,
          rw q p,
          d,
          (λ k i. y k (x k i)),
          λ v m. here_or_later (λ q. y (key_of name v) (rw q here)) (later v) m,
        )
      where
        here_or_later :
            {v : Option Text} {R : Type 0} → (v ≡ w → R) → (Memᴰ v ws → R) → Memᴰ v (w ∷ ws) → R
        here_or_later f g (Memᴰ.head q) = f q
        here_or_later f g (Memᴰ.tail m) = g m

    pub add_tasks-IsBuilt :
        (tasks : List (Text × PluginTask)) (g : TaskGraph)
        → ((name : Text) (task : PluginTask)
            → Memᴰ (name, task) tasks
            → lookup name flow.tasks ≡ some task)
        → IsBuilt g
        → (h : TaskGraph) × (add_tasks flow items tasks g ≡ ok h)
          × IsBuilt h
          × Extends g h
          × ((name : Text) (task : PluginTask) (w : Option Text)
              → Memᴰ (name, task) tasks
              → Memᴰ w (item_ids flow items task.scope)
              → contains_key (key_of name w) h.states ≡ true)
    unfolding add_tasks Extends
    add_tasks-IsBuilt [] g inside b = (g, refl, b, (λ k c. c), λ n t w m. elim m [ ])
    add_tasks-IsBuilt ((name, task) ∷ more) g inside b =
        let (f, q, c, x, here) =
          add_items-IsBuilt name task (item_ids flow items task.scope) g
            (inside name task (Memᴰ.head refl)) (λ w m. m) b in
        let (h, p, d, y, later) = add_tasks-IsBuilt more f (λ n t m. inside n t (Memᴰ.tail m)) c in
        (
          h,
          rw q p,
          d,
          (λ k i. y k (x k i)),
          λ n t w m. here_or_later h (λ i. y _ (here w i)) later m,
        )
      where
        here_or_later :
            {n : Text} {t : PluginTask} {w : Option Text} (f : TaskGraph)
            → (Memᴰ w (item_ids flow items task.scope)
                → contains_key (key_of name w) f.states ≡ true)
            → ((n : Text) (t : PluginTask) (w : Option Text)
                → Memᴰ (n, t) more
                → Memᴰ w (item_ids flow items t.scope)
                → contains_key (key_of n w) f.states ≡ true)
            → Memᴰ (n, t) ((name, task) ∷ more)
            → Memᴰ w (item_ids flow items t.scope)
            → contains_key (key_of n w) f.states ≡ true
        here_or_later {w} f first later (Memᴰ.head q) =
            let same = ap (λ (p : Text × PluginTask). p.0) q in
            let these = ap (λ (p : Text × PluginTask). p.1) q in
            λ i. rw same (first (rw (← these) i))
        here_or_later f first later (Memᴰ.tail m) = λ i. later _ _ _ m i
