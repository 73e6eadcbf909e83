-- ===== src/Plugin/WorkItems/Selection.antt =====
-- `select_lifecycle_work_items`: exactly the requested items, in the order of the request.
use donkeyspace.Prelude.{
  not-false, ◌≡◌, refl, sym, ◌∙◌, Bool, true, false, not, List, [], ◌∷◌, Option, none, some, ok,
  err, text_eq, ◌==◌, ==_iff, length, Memᴰ, arith, find, find_sound, find_finds, find-none, to_set,
  to_set-is_distinct, is_distinct, nat_eq, All, any, any_elim, >>-eq-ok, fail_if, fail_if-eq-ok,
  when_some, is_empty,
}
use donkeyspace.Text.{Text}
use donkeyspace.Plugin.{PluginWorkItem}
use donkeyspace.Plugin.WorkItems.{ids, select_all, select_lifecycle_work_items}

nothing_found :
    (o : Option Text) (message : Text → Text)
    → when_some o (λ id. err (message id)) ≡ ok tt
    → o ≡ none
nothing_found none message h = refl
nothing_found (some id) message h = cc

module _ {V : Type 0} (catalog : List (PluginWorkItem V)) where
  abbrev is_listed : Text → Bool
  is_listed id = any (λ (i : PluginWorkItem V). i.id == id) catalog

  select_all_lem :
      (wanted : List Text)
      → ((id : Text) → Memᴰ id wanted → is_listed id ≡ true)
      → (ids (select_all catalog wanted) ≡ wanted)
        × All (λ (i : PluginWorkItem V). Memᴰ i catalog) (select_all catalog wanted)
  unfolding select_all
  select_all_lem [] h = (refl, tt)
  select_all_lem (id ∷ more) h =
      let (j, m, e) =
        any_elim (λ (i : PluginWorkItem V). i.id == id) catalog (h id (Memᴰ.head refl)) in
      let (i, f) = find_finds (λ (i : PluginWorkItem V). i.id == id) m e in
      let (n, g) = find_sound (λ (i : PluginWorkItem V). i.id == id) catalog f in
      let (p, q) = select_all_lem more (λ k l. h k (Memᴰ.tail l)) in
      rw (f, select_all) (ground (arith, ==_iff i.id id), (n, q))

  -- A successful selection has the requested ids, in their order and none of them twice, at least
  -- one, and every selected item is the catalog's own.
  pub select_lifecycle_work_items_lem :
      (wanted : List Text) (items : List (PluginWorkItem V))
      → select_lifecycle_work_items catalog (some wanted) ≡ ok items
      → (ids items ≡ wanted)
        × (is_distinct wanted ≡ true)
        × (is_empty items ≡ false)
        × All (λ (i : PluginWorkItem V). Memᴰ i catalog) items
  unfolding select_lifecycle_work_items
  select_lifecycle_work_items_lem wanted items h =
      let (a, k) = >>-eq-ok (fail_if (is_empty wanted) _) _ h in
      let (b, l) =
        >>-eq-ok (fail_if (not (nat_eq (length (to_set wanted)) (length wanted))) _) _ k in
      let (c, d) = >>-eq-ok (when_some (find (λ id. not (is_listed id)) wanted) _) _ l in
      let same : select_all catalog wanted ≡ items = ground arith in
      let (p, q) = select_all_lem wanted (λ id m.
        not-false (is_listed id) (find-none (λ id. not (is_listed id)) m (nothing_found _ _ c))) in
      rw (← same) (
        p,
        sym (to_set-is_distinct wanted) ∙ not-false _ (fail_if-eq-ok _ _ b),
        kept (select_all catalog wanted) p (fail_if-eq-ok _ _ a),
        q,
      )
    where
      kept :
          (xs : List (PluginWorkItem V))
          → ids xs ≡ wanted
          → is_empty wanted ≡ false
          → is_empty xs ≡ false
      kept [] p e = let q : is_empty wanted ≡ true = rw (← p) in absurd (cc)
      kept (x ∷ xs) p e = refl
