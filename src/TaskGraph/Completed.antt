-- ===== src/TaskGraph/Completed.antt =====
-- Which tasks the operations of the graph complete.
use mathlib.Core.Option
use mathlib.Core.Option.{some_inj}
use donkeyspace.Prelude.{
  ◌≡◌, refl, sym, ap, subst, true, List, [], ◌∷◌, keep, Option, none, some, Result, ok, err, ◌>>=◌,
  >>=-eq-ok, text_eq, Bool-cases, ok_inj, assign, contains_key, contains, contains_mem,
  mem_contains, ◌⊎◌, inl, inr, Memᴰ, ◌↔◌, keep_mem, mem-keep, mem-map, map_mem, assign_mem,
}
use donkeyspace.Text.{Text}
use donkeyspace.TaskGraph.{
  TaskKey, key_Eq, key_Ord, TaskState, waiting, running, completed, is_done, TaskGraph, set_state,
  set_all, affected_by, restart, restart_from, completed_keys,
}

-- The graph has the task, completed.
abbrev pub Completes : TaskGraph → TaskKey → Type 0
Completes g k = Memᴰ (k, completed) g.states

is_done_iff : (t : TaskState) → (is_done t ≡ true) ↔ (t ≡ completed)
is_done_iff waiting = (λ h. cc, λ h. cc)
is_done_iff running = (λ h. cc, λ h. cc)
is_done_iff completed = (λ h. refl, λ h. refl)

pub completed_keys_iff :
    (g : TaskGraph) (k : TaskKey) → (contains (completed_keys g) k ≡ true) ↔ Completes g k
unfolding completed_keys
completed_keys_iff g k = (
  to,
  λ n. mem_contains (
      mem-map (λ (b : TaskKey × TaskState). b.0)
        (mem-keep (λ (b : TaskKey × TaskState). is_done b.1) n refl)),
)
  where
    entry : (b : TaskKey × TaskState) → k ≡ b.0 → b.1 ≡ completed → b ≡ (k, completed)
    entry (j, t) q d = cc

    to : contains (completed_keys g) k ≡ true → Completes g k
    to h =
        let (b, n, q) =
          map_mem (λ (b : TaskKey × TaskState). b.0)
            (keep (λ (b : TaskKey × TaskState). is_done b.1) g.states) (contains_mem _ k h) in
        let (m, d) = keep_mem (λ (b : TaskKey × TaskState). is_done b.1) g.states n in
        subst (λ p. Memᴰ p g.states) (entry b q ((is_done_iff b.1).0 d)) m

module _ (t : TaskState) where
  pub set_state-Completes :
      (g : TaskGraph) (k : TaskKey) {h : TaskGraph} {j : TaskKey}
      → set_state g k t ≡ ok h
      → Completes h j
      → Completes g j ⊎ ((j ≡ k) × (t ≡ completed))
  unfolding set_state
  set_state-Completes g k {h} {j} e n = elim (Bool-cases (contains_key k g.states)) [
    | inr c ↦ (let e' : err _ ≡ ok h = rw c at e in cc)
    | inl c ↦
        let e' : ok (record g { states = assign k t g.states }) ≡ ok h = rw c at e in
        let n' = subst (λ x. Memᴰ (j, completed) x.states) (sym (ok_inj e')) n in
        elim (assign_mem k t g.states n') [
          | inl m ↦ inl m
          | inr q ↦ inr (ap (λ p. p.0) q, sym (ap (λ p. p.1) q))
        ]
  ]

  pub set_all-Completes :
      (g : TaskGraph) (ks : List TaskKey) {h : TaskGraph} {j : TaskKey}
      → set_all t g ks ≡ ok h
      → Completes h j
      → Completes g j ⊎ (Memᴰ j ks × (t ≡ completed))
  unfolding set_all
  set_all-Completes g [] {j = j} e n = inl (subst (λ x. Completes x j) (sym (ok_inj e)) n)
  set_all-Completes g (k ∷ ks) {h} e n =
      let (m, q, e) = >>=-eq-ok (set_state g k t) _ e in
      elim (set_all-Completes m ks {h = h} e n) [
        | inr (i, d) ↦ inr (Memᴰ.tail i, d)
        | inl c ↦ elim (set_state-Completes g k q c) [
          | inl c ↦ inl c
          | inr (s, d) ↦ inr (Memᴰ.head s, d)
        ]
      ]

pub restart_from-Completes :
    (g : TaskGraph) (k : TaskKey) {r : TaskGraph × List TaskKey} {j : TaskKey}
    → restart_from g k ≡ some (ok r)
    → Completes r.0 j
    → Completes g j
unfolding restart_from
restart_from-Completes g k {r} {j} e n = by_affected (affected_by g k) e
  where
    by_affected :
        (a : Option (Result Text (List TaskKey)))
        → Option.map (λ (found : Result Text (List TaskKey)). found >>= restart g) a ≡ some (ok r)
        → Completes g j
    by_affected none e = cc
    by_affected (some (err x)) e = cc
    by_affected (some (ok ks)) e =
        let (h, q, e) = >>=-eq-ok (set_all waiting g ks) _ (some_inj.0 e) in
        elim (set_all-Completes waiting g ks q (subst (λ x. Completes x.0 j) (sym (ok_inj e)) n)) [
          | inl c ↦ c
          | inr (_, d) ↦ cc
        ]
