-- ===== src/TaskGraph/Progress.antt =====
-- The scheduler does not stall: which tasks `ready` lists, that in a graph without cycles some task
-- is ready as long as none runs and not all are done, and that the updates keep such a graph.
use mathlib.Core.WellFounded.{Acc}
use donkeyspace.Prelude.{
  ◌≡◌, ◌≢◌, refl, sym, ap, ◌∙◌, true, false, List, [], ◌∷◌, Option, none, some, ok, arith, Memᴰ,
  all, any, all_elim, all_intro, Bool-cases, inl, inr, ◌⊎◌, ◌↔◌, ◌==◌, lookup, keys, values,
  contains_key, mem_lookup, lookup_mem, contains_key_cases, keys_mem, is_distinct,
}
use donkeyspace.DepthFirst.{Requires}
use donkeyspace.TaskGraph.{
  TaskKey, key_Eq, TaskState, waiting, running, completed, is_waiting, is_running, is_done,
  done_state, TaskGraph, is_completed, ready_from, ready, is_complete,
}

-- `b` is a dependency of `a` in the graph.
abbrev pub Needs : TaskGraph → TaskKey → TaskKey → Type 0
Needs g = Requires (λ k. lookup k g.dependencies)

-- Every task has a dependency set, dependencies are tasks, and every chain of them ends.
pub record IsWellFormed (g : TaskGraph) : Type 0 where
  pub has_distinct_keys : is_distinct (keys g.states) ≡ true
  pub has_dependencies :
      (k : TaskKey) → contains_key k g.states ≡ true → contains_key k g.dependencies ≡ true
  pub has_states :
      (k : TaskKey) → contains_key k g.dependencies ≡ true → contains_key k g.states ≡ true
  pub is_closed :
      (k d : TaskKey) (ds : List TaskKey)
      → lookup k g.dependencies ≡ some ds
      → Memᴰ d ds
      → contains_key d g.states ≡ true
  pub is_grounded : (k : TaskKey) → Acc (Needs g) k

-- The task waits and every task it depends on is completed.
pub record IsStartable (g : TaskGraph) (k : TaskKey) : Type 0 where
  pub needed : List TaskKey
  pub of_dependencies : lookup k g.dependencies ≡ some needed
  pub is_satisfied : (d : TaskKey) → Memᴰ d needed → lookup d g.states ≡ some completed

completed_lookup :
    (g : TaskGraph) (k : TaskKey) → (is_completed g k ≡ true) ↔ (lookup k g.states ≡ some completed)
unfolding is_completed
completed_lookup g k = cases (lookup k g.states)
  where
    cases : (o : Option TaskState) → (done_state o ≡ true) ↔ (o ≡ some completed)
    cases none = (λ h. cc, λ h. cc)
    cases (some waiting) = (λ h. cc, λ h. cc)
    cases (some running) = (λ h. cc, λ h. cc)
    cases (some completed) = (λ h. refl, λ h. refl)

waiting_iff : (s : TaskState) → (is_waiting s ≡ true) ↔ (s ≡ waiting)
waiting_iff waiting = (λ h. refl, λ h. refl)
waiting_iff running = (λ h. cc, λ h. cc)
waiting_iff completed = (λ h. cc, λ h. cc)

not_other : (s : TaskState) → is_running s ≡ false → is_done s ≡ false → s ≡ waiting
not_other waiting r d = refl
not_other running r d = cc
not_other completed r d = cc

startable :
    (g : TaskGraph) (k : TaskKey) (ds : List TaskKey)
    → lookup k g.dependencies ≡ some ds
    → all (is_completed g) ds ≡ true
    → IsStartable g k
startable g k ds e h = record {
  needed = ds;
  of_dependencies = e;
  is_satisfied = λ d m. (completed_lookup g d).0 (all_elim (is_completed g) h m);
}

unstartable :
    (g : TaskGraph) (k : TaskKey) (ds : List TaskKey)
    → lookup k g.dependencies ≡ some ds
    → IsStartable g k
    → all (is_completed g) ds ≡ true
unstartable g k ds e r =
    let same : r.needed ≡ ds = ground (arith, r.of_dependencies) in
    all_intro (is_completed g) ds (λ d m. (completed_lookup g d).1 (r.is_satisfied d (rw same m)))

-- What `ready_from` lists: the waiting entries whose dependencies are completed.
Lists : TaskGraph → List (TaskKey × TaskState) → Type 0
unfolding ready_from
Lists g es =
    (rs : List TaskKey) × (ready_from g es ≡ ok rs)
    × ((k : TaskKey) → Memᴰ k rs ↔ (Memᴰ (k, waiting) es × IsStartable g k))

module _ (g : TaskGraph) (k : TaskKey) (s : TaskState) (more : List (TaskKey × TaskState)) where
  later : {j : TaskKey} → Memᴰ (j, waiting) ((k, s) ∷ more) → s ≢ waiting → Memᴰ (j, waiting) more
  later (Memᴰ.head q) n = absurd (n (sym (ap (λ (b : TaskKey × TaskState). b.1) q)))
  later (Memᴰ.tail m) n = m

  same_or_later :
      {j : TaskKey} → Memᴰ (j, waiting) ((k, s) ∷ more) → (j ≡ k) ⊎ Memᴰ (j, waiting) more
  same_or_later (Memᴰ.head q) = inl (ap (λ (b : TaskKey × TaskState). b.0) q)
  same_or_later (Memᴰ.tail m) = inr m

  -- An entry that can start is listed before the rest.
  lists_first :
      s ≡ waiting
      → IsStartable g k
      → (rs : List TaskKey)
      → ((j : TaskKey) → Memᴰ j rs ↔ (Memᴰ (j, waiting) more × IsStartable g j))
      → (j : TaskKey) → Memᴰ j (k ∷ rs) ↔ (Memᴰ (j, waiting) ((k, s) ∷ more) × IsStartable g j)
  lists_first w r rs ih j = (to, λ (m, q). from (same_or_later m) q)
    where
      to : Memᴰ j (k ∷ rs) → Memᴰ (j, waiting) ((k, s) ∷ more) × IsStartable g j
      to (Memᴰ.head q) = (Memᴰ.head (rw (q, w) refl), rw q r)
      to (Memᴰ.tail m) = let (n, q) = (ih j).0 m in (Memᴰ.tail n, q)

      from : (j ≡ k) ⊎ Memᴰ (j, waiting) more → IsStartable g j → Memᴰ j (k ∷ rs)
      from (inl q) r = Memᴰ.head q
      from (inr m) r = Memᴰ.tail ((ih j).1 (m, r))

  -- One that cannot is left out.
  lists_rest :
      (s ≢ waiting) ⊎ (¬ IsStartable g k)
      → (rs : List TaskKey)
      → ((j : TaskKey) → Memᴰ j rs ↔ (Memᴰ (j, waiting) more × IsStartable g j))
      → (j : TaskKey) → Memᴰ j rs ↔ (Memᴰ (j, waiting) ((k, s) ∷ more) × IsStartable g j)
  lists_rest cannot rs ih j = (
    λ m. let (n, q) = (ih j).0 m in (Memᴰ.tail n, q),
    λ (m, q). elim cannot [
      | inl n ↦ (ih j).1 (later m n, q)
      | inr n ↦ elim (same_or_later m) [
        | inl e ↦ absurd (n (rw (sym e) q))
        | inr m ↦ (ih j).1 (m, q)
      ]
    ],
  )

ready_from-Lists :
    (g : TaskGraph) (es : List (TaskKey × TaskState))
    → ((k : TaskKey) → Memᴰ k (keys es) → contains_key k g.dependencies ≡ true)
    → Lists g es
unfolding Lists ready_from
ready_from-Lists g [] known = ([], refl, λ k. (λ m. elim m [ ], λ (m, r). elim m [ ]))
ready_from-Lists g ((k, s) ∷ more) known =
    let (rs, e, ih) = ready_from-Lists g more (λ j m. known j (Memᴰ.tail m)) in
    let (ds, q) = contains_key_cases k g.dependencies (known k (Memᴰ.head refl)) in
    elim (Bool-cases (is_waiting s)) [
      | inl w ↦ elim (Bool-cases (all (is_completed g) ds)) [
        | inl a ↦ (
          k ∷ rs,
          rw (q, e, w, a) refl,
          lists_first g k s more ((waiting_iff s).0 w) (startable g k ds q a) rs ih,
        )
        | inr a ↦ (
          rs,
          rw (q, e, w, a) refl,
          lists_rest g k s more (inr (λ r. cc (unstartable g k ds q r))) rs ih,
        )
      ]
      | inr w ↦
          (rs, rw (q, e, w) refl, lists_rest g k s more (inl (λ n. cc ((waiting_iff s).1 n))) rs ih)
    ]

mem-keys-lookup :
    (g : TaskGraph)
    → IsWellFormed g
    → (k : TaskKey) → (s : TaskState) → Memᴰ (k, s) g.states
    → lookup k g.states ≡ some s
mem-keys-lookup g w k s = mem_lookup k s g.states w.has_distinct_keys

-- In a well-formed graph `ready` succeeds, and it lists exactly the waiting tasks all of whose
-- dependencies are completed.
pub ready_iff :
    (g : TaskGraph)
    → IsWellFormed g
    → (rs : List TaskKey) × (ready g ≡ ok rs)
      × ((k : TaskKey) → Memᴰ k rs ↔ ((lookup k g.states ≡ some waiting) × IsStartable g k))
unfolding ready Lists
ready_iff g w =
    let (rs, e, r) =
      ready_from-Lists g g.states (λ k m. w.has_dependencies k (keys_mem k g.states m)) in
    (
      rs,
      e,
      λ k. (
        λ m. let (n, q) = (r k).0 m in (mem-keys-lookup g w k waiting n, q),
        λ (n, q). (r k).1 (lookup_mem k g.states n, q),
      ),
    )

idle_lookup :
    (m : List (TaskKey × TaskState)) (k : TaskKey) {s : TaskState}
    → lookup k m ≡ some s
    → any is_running (values m) ≡ false
    → is_running s ≡ false
unfolding lookup
idle_lookup [] k h idle = cc
idle_lookup ((j, t) ∷ m) k {s} h idle = elim (Bool-cases (j == k)) [
  | inl e ↦ ground arith
  | inr e ↦ idle_lookup m k {s = s} (ground arith) (ground arith)
]

not_done :
    (g : TaskGraph) (k : TaskKey) {s : TaskState}
    → lookup k g.states ≡ some s
    → is_completed g k ≡ false
    → is_done s ≡ false
unfolding is_completed
not_done g k h n = cc

-- Below a waiting task there is one that can start.
descend :
    (g : TaskGraph)
    → IsWellFormed g
    → any is_running (values g.states) ≡ false
    → (k : TaskKey) → Acc (Needs g) k
    → lookup k g.states ≡ some waiting
    → (j : TaskKey) × (lookup j g.states ≡ some waiting) × IsStartable g j
descend g w idle k (Acc.intro _ below) h =
    let (ds, q) = contains_key_cases k g.dependencies (w.has_dependencies k (rw h refl)) in
    elim (Bool-cases (all (is_completed g) ds)) [
      | inl a ↦ (k, h, startable g k ds q a)
      | inr a ↦
          let (d, m, n) = open_dependency ds a in
          let (s, e) = contains_key_cases d g.states (w.is_closed k d ds q m) in
          descend g w idle d (below d (record { listed = ds; of_children = q; is_listed = m }))
            (e ∙ ap some (not_other s (idle_lookup g.states d e idle) (not_done g d e n)))
    ]
  where
    open_dependency :
        (ds : List TaskKey)
        → all (is_completed g) ds ≡ false
        → (d : TaskKey) × Memᴰ d ds × (is_completed g d ≡ false)
    open_dependency [] a = cc
    open_dependency (d ∷ ds) a = elim (Bool-cases (is_completed g d)) [
      | inl c ↦ let (e, m, n) = open_dependency ds (ground arith) in (e, Memᴰ.tail m, n)
      | inr c ↦ (d, Memᴰ.head refl, c)
    ]

open_entry :
    (m : List (TaskKey × TaskState))
    → all is_done (values m) ≡ false
    → (k : TaskKey) × (s : TaskState) × Memᴰ (k, s) m × (is_done s ≡ false)
open_entry [] h = cc
open_entry ((k, s) ∷ m) h = elim (Bool-cases (is_done s)) [
  | inl e ↦ let (j, t, i, q) = open_entry m (ground arith) in (j, t, Memᴰ.tail i, q)
  | inr e ↦ (k, s, Memᴰ.head refl, e)
]

nonempty :
    {k : TaskKey} (rs : List TaskKey)
    → Memᴰ k rs
    → (j : TaskKey) × (js : List TaskKey) × (rs ≡ j ∷ js)
nonempty [] m = elim m [ ]
nonempty (j ∷ js) m = (j, js, refl)

-- The scheduler does not stall: in a well-formed graph in which no task is running and not every
-- task is completed, `ready` lists at least one task.
pub ready_never_stalls :
    (g : TaskGraph)
    → IsWellFormed g
    → any is_running (values g.states) ≡ false
    → is_complete g ≡ false
    → (k : TaskKey) × (ks : List TaskKey) × (ready g ≡ ok (k ∷ ks))
unfolding is_complete
ready_never_stalls g w idle h =
    let (k, s, m, q) = open_entry g.states h in
    let found = mem-keys-lookup g w k s m in
    let waits = found ∙ ap some (not_other s (idle_lookup g.states k found idle) q) in
    let (j, e, r) = descend g w idle k (w.is_grounded k) waits in
    let (rs, listed, iff) = ready_iff g w in
    let (i, is, same) = nonempty rs ((iff j).1 (e, r)) in (i, is, listed ∙ ap ok same)
