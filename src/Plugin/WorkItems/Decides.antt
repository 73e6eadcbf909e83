-- ===== src/Plugin/WorkItems/Decides.antt =====
-- `validate_work_items` against the order that the scheduler needs.
use mathlib.Core.WellFounded.{Acc}
use mathlib.Core.List.Memᴰ
use donkeyspace.Prelude.{
  not-false, suc, ◌≡◌, refl, sym, ◌∙◌, ◌⊎◌, inl, inr, true, false, not, List, none, some, Result,
  ok, err, map_err, text_eq, ◌==◌, ==_iff, length, Memᴰ, arith, find, find_sound, find_finds,
  contains, contains_mem, contains-to_set, to_set, to_set-is_distinct, is_distinct, nat_eq,
  Option-cases, for_each_iff, All_elim, >>-eq-ok, ◌>>◌, is_empty, fail_if, fail_if-eq-ok,
  length-map, find-none,
}
use donkeyspace.Text.{Text}
use donkeyspace.DepthFirst.{Fault, Marks, search_all}
use donkeyspace.DepthFirst.Sound.{search_all_sound}
use donkeyspace.DepthFirst.Cycles.{Leads, search_all_cycle}
use donkeyspace.DepthFirst.Total.{IsClosed, search_all_decided}
use donkeyspace.Plugin.{Abort, fails, panics, out_of_fuel, PluginWorkItem}
use donkeyspace.Plugin.WorkItems.{
  ids, find_item, item_dependencies, validate_item, check_items, item_outcome, item_cycle,
  validate_work_items, ItemDependsOn,
}

module _ {V : Type 0} (items : List (PluginWorkItem V)) where
  -- What the checks before the search establish.
  pub record IsRegistry : Type 0 where
    pub not_empty : is_empty items ≡ false
    pub distinct : is_distinct (ids items) ≡ true
    pub known :
        (i : PluginWorkItem V)
        → Memᴰ i items
        → (d : Text) → Memᴰ d i.depends_on
        → Memᴰ d (ids items)

  validate_item_known :
      (i : PluginWorkItem V)
      → validate_item (to_set (ids items)) i ≡ ok tt
      → (d : Text) → Memᴰ d i.depends_on
      → Memᴰ d (ids items)
  unfolding validate_item
  validate_item_known i h d m =
      let n : find (λ id. not (contains (to_set (ids items)) id)) i.depends_on ≡ none =
        ground arith in
      let c = find-none (λ id. not (contains (to_set (ids items)) id)) m n in
      contains_mem (ids items) d (ground (arith, contains-to_set (ids items) d))

  check_items-IsRegistry : check_items items ≡ ok tt → IsRegistry
  unfolding check_items
  check_items-IsRegistry h =
      let (a, k) = >>-eq-ok (fail_if (is_empty items) _) _ h in
      let (b, c) =
        >>-eq-ok (fail_if (not (nat_eq (length (to_set (ids items))) (length items))) _) _ k in
      record {
        not_empty = fail_if-eq-ok _ _ a;
        distinct =
            sym (to_set-is_distinct (ids items))
            ∙ rw (length-map (λ (i : PluginWorkItem V). i.id) items)
                (not-false _ (fail_if-eq-ok _ _ b));
        known = λ i m d n.
            validate_item_known i
              (All_elim _ items ((for_each_iff (validate_item (to_set (ids items))) items).0 c) m) d
              n;
      }

  find_item_mem :
      (id : Text)
      → Memᴰ id (ids items)
      → (i : PluginWorkItem V) × (find_item items id ≡ some i) × Memᴰ i items
  find_item_mem id m =
      let (i, n, e) = Memᴰ.of_map (λ (j : PluginWorkItem V). j.id) items m in
      let (j, f) = find_finds (λ (j : PluginWorkItem V). j.id == id) n ((==_iff i.id id).1 e) in
      (j, f, (find_sound (λ (j : PluginWorkItem V). j.id == id) items f).0)

  items-IsClosed : IsRegistry → IsClosed (item_dependencies items) (ids items)
  items-IsClosed r id m =
      let (i, e, n) = find_item_mem id m in (i.depends_on, rw e, λ a k. r.known i n a k)

  item-unknown-Acc : (id : Text) → find_item items id ≡ none → Acc (ItemDependsOn items) id
  item-unknown-Acc id e = Acc.intro id (λ b r. absurd (ground (arith, r.of_children)))

  item_outcome_cases :
      IsRegistry
      → (r : Result (Fault Text) (Marks Text))
      → search_all (item_dependencies items) (suc (length (ids items))) (ids items) ≡ r
      → ((item_outcome r ≡ ok tt) × ((id : Text) → Acc (ItemDependsOn items) id))
        ⊎ ((id : Text) × (item_outcome r ≡ err (fails (item_cycle id)))
            × Leads (item_dependencies items) id id)
  unfolding item_outcome
  item_outcome_cases g (ok s) e = inl (
    refl,
    λ id. elim (Option-cases (find_item items id)) [
      | inl q ↦ item-unknown-Acc id q
      | inr (i, q) ↦
          let (m, k) = find_sound (λ (j : PluginWorkItem V). j.id == id) items q in
          search_all_sound (item_dependencies items) _ _ e id
            (Memᴰ.cast (sym ((==_iff i.id id).0 k)) (Memᴰ.map (λ (j : PluginWorkItem V). j.id) m))
    ],
  )
  item_outcome_cases g (err f) e =
      let (id, q) = search_all_decided (item_dependencies items) (ids items) (items-IsClosed g) e in
      inr (id, rw q, search_all_cycle (item_dependencies items) _ _ (rw q at e))

  -- What the answers of `validate_work_items` mean.
  abbrev pub Explains : Result (Abort Text) (Unit {0}) → Type 0
  Explains (ok u) = IsRegistry × ((id : Text) → Acc (ItemDependsOn items) id)
  Explains (err (fails message)) =
      (check_items items ≡ err message)
      ⊎ ((id : Text) × (message ≡ item_cycle id) × Leads (item_dependencies items) id id)
  Explains (err (panics id)) = ⊥
  Explains (err out_of_fuel) = ⊥

  explain :
      (r : Result Text (Unit {0}))
      → check_items items ≡ r
      → Explains (
          map_err fails r
          >> item_outcome
              (search_all (item_dependencies items) (suc (length (ids items))) (ids items)))
  explain (err message) e = inl e
  explain (ok tt) e = elim (item_outcome_cases (check_items-IsRegistry e) _ refl) [
    | inl (q, acc) ↦ rw q (check_items-IsRegistry e, acc)
    | inr (id, q, l) ↦ rw q (inr (id, refl, l))
  ]

  -- A registry that `validate_work_items` accepts is not empty, repeats no id, depends on its own
  -- items only, and has no endless chain of dependencies. It is refused only for one of the checks
  -- of its items or for a cycle that is there; the `expect` never panics, and the search ends.
  pub validate_work_items_explained : Explains (validate_work_items items)
  unfolding validate_work_items
  validate_work_items_explained = explain (check_items items) refl
