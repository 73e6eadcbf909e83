-- ===== src/TaskGraph/Updates.antt =====
-- The updates of the scheduler's graph: `set_state` and the loops over it, `restore_completed` and
-- `restart_from`, keep it well formed and change the listed tasks only.
use mathlib.Core.WellFounded.{Acc}
use donkeyspace.Prelude.{
  ◌≡◌, refl, sym, ap, ◌∙◌, true, List, [], ◌∷◌, some, ok, arith, Bool-cases, inl, inr, ◌↔◌,
  if◌then◌else◌, ==_iff, contains, lookup, keys, contains_key, assign, lookup-assign, keys-assign,
  mem_contains_key, subst, is_distinct,
}
use donkeyspace.DepthFirst.{Requires}
use donkeyspace.TaskGraph.{
  TaskKey, key_Eq, TaskState, waiting, completed, TaskGraph, affected_by, restart_from, set_state,
  set_all, restore_completed,
}
use donkeyspace.TaskGraph.Progress.{IsWellFormed}
use donkeyspace.TaskGraph.Affected.{IsAffected, affected_by_iff}

-- What setting the state of some tasks does.
pub record Sets (s : TaskState) (ks : List TaskKey) (g h : TaskGraph) : Type 0 where
  pub same_dependencies : h.dependencies ≡ g.dependencies
  pub same_keys : keys h.states ≡ keys g.states
  pub state_of :
      (j : TaskKey) → lookup j h.states ≡ (if contains ks j then some s else lookup j g.states)

module _ (s : TaskState) where
  pub set_state-Sets :
      (g : TaskGraph) (k : TaskKey)
      → contains_key k g.states ≡ true
      → Sets s (k ∷ []) g (record g { states = assign k s g.states })
  set_state-Sets g k c = record {
    same_dependencies = refl;
    same_keys = keys-assign k s g.states;
    state_of = λ j. ground (arith, lookup-assign k j s g.states, ==_iff k j);
  }

  Sets-trans :
      (k : TaskKey) (ks : List TaskKey) {f g h : TaskGraph}
      → Sets s (k ∷ []) f g
      → Sets s ks g h
      → Sets s (k ∷ ks) f h
  Sets-trans k ks a b = record {
    same_dependencies = b.same_dependencies ∙ a.same_dependencies;
    same_keys = b.same_keys ∙ a.same_keys;
    state_of = λ j. ground (arith, a.state_of j, b.state_of j);
  }

  -- A key is known after an update exactly when it was before.
  pub Sets-contains_key :
      (ks : List TaskKey) {g h : TaskGraph}
      → Sets s ks g h
      → ((k : TaskKey) → contains ks k ≡ true → contains_key k g.states ≡ true)
      → (j : TaskKey) → contains_key j h.states ≡ contains_key j g.states
  Sets-contains_key ks a known j = elim (Bool-cases (contains ks j)) [
    | inl e ↦ ground (arith, a.state_of j, known j)
    | inr e ↦ ground (arith, a.state_of j)
  ]

  pub set_all-Sets :
      (g : TaskGraph) (ks : List TaskKey)
      → ((k : TaskKey) → contains ks k ≡ true → contains_key k g.states ≡ true)
      → (h : TaskGraph) × (set_all s g ks ≡ ok h) × Sets s ks g h
  unfolding set_all set_state
  set_all-Sets g [] known =
      (g, refl, record { same_dependencies = refl; same_keys = refl; state_of = λ j. refl })
  set_all-Sets g (k ∷ ks) known =
      let c = known k (ground (arith, ==_iff k k)) in
      let a = set_state-Sets g k c in
      let (h, e, b) =
        set_all-Sets (record g { states = assign k s g.states }) ks
          (λ j m.
            Sets-contains_key (k ∷ []) a (λ i n. known i (ground arith)) j
            ∙ known j (ground arith)) in
      (h, rw c e, Sets-trans k ks a b)

  pub Sets-IsWellFormed :
      (ks : List TaskKey) {g h : TaskGraph}
      → Sets s ks g h
      → ((k : TaskKey) → contains ks k ≡ true → contains_key k g.states ≡ true)
      → IsWellFormed g
      → IsWellFormed h
  Sets-IsWellFormed ks {g} {h} a known w =
      let same = Sets-contains_key ks a known in
      record {
        has_distinct_keys = ap (is_distinct) a.same_keys ∙ w.has_distinct_keys;
        has_dependencies = λ k c. rw a.same_dependencies (w.has_dependencies k (sym (same k) ∙ c));
        has_states = λ k c.
            same k ∙ w.has_states k (ap (λ m. contains_key k m) (sym a.same_dependencies) ∙ c);
        is_closed = λ k d ds e m.
            same d ∙ w.is_closed k d ds (ap (λ m. lookup k m) (sym a.same_dependencies) ∙ e) m;
        is_grounded = λ k.
            subst (λ m. Acc (Requires (λ i. lookup i m)) k) (sym a.same_dependencies)
              (w.is_grounded k);
      }

-- If every listed task is in a well-formed graph, `restore_completed` succeeds; the graph stays
-- well formed, exactly the listed tasks become completed and every other state stays.
pub restore_completed_lem :
    (g : TaskGraph) (ks : List TaskKey)
    → IsWellFormed g
    → ((k : TaskKey) → contains ks k ≡ true → contains_key k g.states ≡ true)
    → (h : TaskGraph) × (restore_completed g ks ≡ ok h) × IsWellFormed h × Sets completed ks g h
unfolding restore_completed
restore_completed_lem g ks w known =
    let (h, e, a) = set_all-Sets completed g ks known in
    (h, e, Sets-IsWellFormed completed ks a known w, a)

-- Only tasks are affected.
affected_known :
    (g : TaskGraph)
    → IsWellFormed g
    → (k : TaskKey) → contains_key k g.states ≡ true
    → (j : TaskKey) → IsAffected g.dependencies k j
    → contains_key j g.states ≡ true
affected_known g w k c j IsAffected.itself = c
affected_known g w k c j (IsAffected.through m n a) = w.has_states j (mem_contains_key m)

restart_from_found :
    (g h : TaskGraph) (k : TaskKey) (found : List TaskKey)
    → affected_by g k ≡ some (ok found)
    → set_all waiting g found ≡ ok h
    → restart_from g k ≡ some (ok (h, found))
unfolding restart_from
restart_from_found g h k found e q = rw (e, q) refl

-- For a task of a well-formed graph `restart_from` ends and succeeds. The tasks that it returns are
-- exactly the task itself and those that depend on it, directly or through others; exactly these
-- wait again, every other state stays, and the graph stays well formed.
pub restart_from_lem :
    (g : TaskGraph) (k : TaskKey)
    → IsWellFormed g
    → contains_key k g.states ≡ true
    → (h : TaskGraph) × (found : List TaskKey) × (restart_from g k ≡ some (ok (h, found)))
      × ((j : TaskKey) → (contains found j ≡ true) ↔ IsAffected g.dependencies k j)
      × IsWellFormed h
      × Sets waiting found g h
restart_from_lem g k w c =
    let (found, e, iff) = affected_by_iff g k c in
    let known : (j : TaskKey) → contains found j ≡ true → contains_key j g.states ≡ true =
      λ j m. affected_known g w k c j ((iff j).0 m) in
    let (h, q, a) = set_all-Sets waiting g found known in
    (
      h,
      found,
      restart_from_found g h k found e q,
      iff,
      Sets-IsWellFormed waiting found a known w,
      a,
    )
