-- ===== src/Lifecycle/Wave/Pauses/Required.antt =====
-- The approvals that the flow requires of the implemented results of a wave.
use donkeyspace.Prelude.{
  ◌≡◌, refl, sym, ap, subst, true, List, [], ◌∷◌, ◌++◌, ok, ◌>>=◌, >>=-eq-ok, Bool-cases, text_eq,
  ok_inj, if◌then◌else◌, arith, ◌⊎◌, inl, inr, Memᴰ,
}
use donkeyspace.Plugin.{PluginFlow, PluginTask}
use donkeyspace.RunResult.{PluginTaskResult, Outcome}
use donkeyspace.Approvals.{PendingApproval, required}
use donkeyspace.TaskGraph.{TaskKey, key_Eq}
use donkeyspace.Lifecycle.{edge_Eq, edge_Ord, task_at, is_implemented, is_approval_required}
use donkeyspace.Lifecycle.Settle.{required_approvals, required_approval}
use donkeyspace.Lifecycle.Wave.Runs.Gates.{RequiresApproval}
use donkeyspace.Lifecycle.Wave.Pauses.{OnlyImplemented, append_mem_left}

append_mem {ℓ} :
    {A : Type ℓ} {a : A} (xs : List A) {ys : List A} → Memᴰ a (xs ++ ys) → Memᴰ a xs ⊎ Memᴰ a ys
append_mem [] n = inr n
append_mem (x ∷ xs) (Memᴰ.head q) = inl (Memᴰ.head q)
append_mem (x ∷ xs) (Memᴰ.tail n) = elim (append_mem xs n) [
  | inl i ↦ inl (Memᴰ.tail i)
  | inr i ↦ inr i
]

append_mem_right {ℓ} :
    {A : Type ℓ} {a : A} (xs : List A) {ys : List A} → Memᴰ a ys → Memᴰ a (xs ++ ys)
append_mem_right [] n = n
append_mem_right (x ∷ xs) n = Memᴰ.tail (append_mem_right xs n)

abbrev pub required_entry : TaskKey → PendingApproval
required_entry k = record { key = k; trigger = required }

module _ (V : Type 0) (flow : PluginFlow) where
  required_approval-is_implemented :
      (k : TaskKey) (x : PluginTaskResult) {list : List PendingApproval} {a : PendingApproval}
      → required_approval {V = V} flow k x ≡ ok list
      → Memᴰ a list
      → (a.key ≡ k) × (x.result.outcome ≡ Outcome.implemented)
  unfolding required_approval
  required_approval-is_implemented k x {list} {a} e n =
      elim (Bool-cases (is_implemented x.result.outcome)) [
        | inr i ↦
            (let e' : ok [] ≡ ok list = rw i at e in elim (subst (Memᴰ a) (sym (ok_inj e')) n) [ ])
        | inl i ↦
            let e' : (task_at {V = V} flow k.task >>= λ task. ok (entries task)) ≡ ok list =
              rw i at e in
            let (task, _, e') = >>=-eq-ok (task_at flow k.task) _ e' in
            (of_task task (subst (Memᴰ a) (sym (ok_inj e')) n), implemented x.result.outcome i)
      ]
    where
      entries : PluginTask → List PendingApproval
      entries task =
          if is_approval_required task.approval
          then record { key = k; trigger = required } ∷ []
          else []

      only : Memᴰ a (required_entry k ∷ []) → a.key ≡ k
      only (Memᴰ.head q) = ap (λ b. b.key) q
      only (Memᴰ.tail m) = elim m [ ]

      of_task : (task : PluginTask) → Memᴰ a (entries task) → a.key ≡ k
      of_task task m = elim (Bool-cases (is_approval_required task.approval)) [
        | inl r ↦ only (let m' : Memᴰ a (required_entry k ∷ []) = rw r at m in m')
        | inr r ↦ (let m' : Memᴰ a [] = rw r at m in elim m' [ ])
      ]

      implemented : (b : Outcome) → is_implemented b ≡ true → b ≡ Outcome.implemented
      implemented b i = ground arith

  required_approval-required :
      (k : TaskKey) (x : PluginTaskResult) {list : List PendingApproval}
      → required_approval {V = V} flow k x ≡ ok list
      → x.result.outcome ≡ Outcome.implemented
      → RequiresApproval flow k
      → list ≡ required_entry k ∷ []
  unfolding required_approval RequiresApproval
  required_approval-required k x {list} e i (task, l, a) = ground arith

  pub required_approvals-OnlyImplemented :
      (results : List (TaskKey × PluginTaskResult)) {list : List PendingApproval}
      → required_approvals {V = V} flow results ≡ ok list
      → OnlyImplemented results list
  unfolding required_approvals OnlyImplemented
  required_approvals-OnlyImplemented [] e a n t = elim (subst (Memᴰ a) (sym (ok_inj e)) n) [ ]
  required_approvals-OnlyImplemented ((k, x) ∷ more) {list} e a n t =
      let (first, f, e) = >>=-eq-ok (required_approval flow k x) _ e in
      let (rest, g, e) = >>=-eq-ok (required_approvals flow more) _ e in
      elim (append_mem first (subst (Memᴰ a) (sym (ok_inj e)) n)) [
        | inl m ↦
            (let (q, i) = required_approval-is_implemented k x f m in
              (x, Memᴰ.head (ap (λ j. (j, x)) q), i))
        | inr m ↦
            (let (y, i, o) = required_approvals-OnlyImplemented more {list = rest} g a m t in
              (y, Memᴰ.tail i, o))
      ]

  pub required_approvals_complete :
      (k : TaskKey) (x : PluginTaskResult) (results : List (TaskKey × PluginTaskResult))
      {list : List PendingApproval}
      → required_approvals {V = V} flow results ≡ ok list
      → Memᴰ (k, x) results
      → x.result.outcome ≡ Outcome.implemented
      → RequiresApproval flow k
      → Memᴰ (required_entry k) list
  unfolding required_approvals
  required_approvals_complete k x [] e n i r = elim n [ ]
  required_approvals_complete k x ((j, y) ∷ more) {list} e n i r =
      let (first, f, e) = >>=-eq-ok (required_approval flow j y) _ e in
      let (rest, g, e) = >>=-eq-ok (required_approvals flow more) _ e in
      subst (Memᴰ (required_entry k)) (ok_inj e) (elim (head_or_tail n) [
        | inl q ↦
            let f' = subst (λ b. required_approval {V = V} flow b.0 b.1 ≡ ok first) (sym q) f in
            append_mem_left rest (rw (required_approval-required k x f' i r) (Memᴰ.head refl))
        | inr m ↦
            append_mem_right first (required_approvals_complete k x more {list = rest} g m i r)
      ])
    where
      head_or_tail :
          Memᴰ (k, x) ((j, y) ∷ more)
          → (◌≡◌ {A = TaskKey × PluginTaskResult} (k, x) (j, y)) ⊎ Memᴰ (k, x) more
      head_or_tail (Memᴰ.head q) = inl q
      head_or_tail (Memᴰ.tail n) = inr n
