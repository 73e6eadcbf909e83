-- ===== src/TaskGraph/Build/Starts.antt =====
-- Which tasks a new graph completes.
use donkeyspace.Prelude.{
  ◌≡◌, sym, ap, ◌∙◌, subst, List, [], ◌∷◌, Option, ok, >>=-eq-ok, ==_iff, text_eq, ok_inj, arith,
  inl, inr, insert_mem,
}
use donkeyspace.Text.{Text}
use donkeyspace.Plugin.{PluginFlow, PluginTask, PluginWorkItem}
use donkeyspace.TaskGraph.{TaskKey, key_Eq, key_Ord, completed, TaskGraph}
use donkeyspace.TaskGraph.Build.{
  for_work_items, add_tasks, add_items, key_of, start_state, item_ids, required, add_key,
}
use donkeyspace.TaskGraph.Completed.{Completes}

module _ {V : Type 0} (flow : PluginFlow) (items : List (PluginWorkItem V)) where
  StartsOnly : TaskGraph → Type 0
  StartsOnly g = (j : TaskKey) → Completes g j → j.task ≡ flow.start

  add_key-StartsOnly :
      (name : Text) (w : Option Text) (ds : List TaskKey) (g : TaskGraph)
      → StartsOnly g
      → StartsOnly (add_key flow items name w ds g)
  unfolding StartsOnly
  add_key-StartsOnly name w ds g h j n =
      elim (insert_mem (key_of name w) (start_state flow items name) g.states n) [
        | inl m ↦ h j m
        | inr q ↦ ap (λ p. p.0.task) q ∙ starts (sym (ap (λ p. p.1) q))
      ]
    where
      starts : start_state flow items name ≡ completed → name ≡ flow.start
      starts h = ground (arith, ==_iff name flow.start)

  add_items-StartsOnly :
      (name : Text) (task : PluginTask) (ws : List (Option Text)) (g : TaskGraph) {h : TaskGraph}
      → add_items flow items name task ws g ≡ ok h
      → StartsOnly g
      → StartsOnly h
  unfolding add_items
  add_items-StartsOnly name task [] g e s = subst StartsOnly (ok_inj e) s
  add_items-StartsOnly name task (w ∷ ws) g {h} e s =
      let (ds, _, e) = >>=-eq-ok (required flow items name task w) _ e in
      add_items-StartsOnly name task ws (add_key flow items name w ds g) {h = h} e
        (add_key-StartsOnly name w ds g s)

  add_tasks-StartsOnly :
      (tasks : List (Text × PluginTask)) (g : TaskGraph) {h : TaskGraph}
      → add_tasks flow items tasks g ≡ ok h
      → StartsOnly g
      → StartsOnly h
  unfolding add_tasks
  add_tasks-StartsOnly [] g e s = subst StartsOnly (ok_inj e) s
  add_tasks-StartsOnly ((name, task) ∷ more) g {h} e s =
      let (m, q, e) =
        >>=-eq-ok (add_items flow items name task (item_ids flow items task.scope) g) _ e in
      add_tasks-StartsOnly more m {h = h} e (add_items-StartsOnly name task _ g q s)

  -- A new graph has the start task completed and no other.
  pub for_work_items-Completes :
      {g : TaskGraph} {j : TaskKey}
      → for_work_items flow items ≡ ok g
      → Completes g j
      → j.task ≡ flow.start
  unfolding for_work_items StartsOnly
  for_work_items-Completes {g} {j} e n =
      add_tasks-StartsOnly flow.tasks (record { states = []; dependencies = [] }) {h = g} e
        (λ i m. elim m [ ]) j n
