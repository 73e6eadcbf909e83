-- ===== src/Lifecycle/Wave/Pauses.antt =====
-- A pause lists every task of its wave that waits for a human.
pub mod Required
pub mod Complete
use mathlib.Core.Option.{some_inj}
use donkeyspace.Prelude.{
  ℕ, zero, suc, ◌+◌, ◌-◌, ◌≤◌, ◌<◌, ◌≡◌, ◌≢◌, refl, sym, ap, subst, ◌∙◌, Bool, true, false, List,
  [], ◌∷◌, ◌++◌, Option, none, some, Result, ok, err, map_err, ok_or, fail_if, ◌>>=◌, ◌>>◌,
  >>=-eq-ok, >>-eq-ok, Result-cases, Bool-cases, Option-cases, Eq, Ord, text_eq, ==_iff, ◌==◌,
  is_empty, is_empty-nil, is_distinct, any, any_elim, mem_lookup, if◌then◌else◌, arith, ◌⊎◌, inl,
  inr, not, ◌&&◌, lookup, insert, lookup-insert, ltb, contains, contains_key, Memᴰ, keep, keep_mem,
  find, find_sound, is_some, keys, map, assign, keys_mem, mem_contains_key, lookup_mem,
}
use donkeyspace.Text.{Text, lit}
use donkeyspace.Plugin.{
  PluginFlow, PluginTask, PluginWorkItem, PluginApprovalMode, PluginTaskScope, no_approval,
}
use donkeyspace.RunResult.{PluginTaskResult, Outcome, AgentHandoff}
use donkeyspace.ExecutionPlan.{ExecutionPlan, or_value}
use donkeyspace.Approvals.{
  PendingApproval, ApprovalTrigger, required, agent_requested, is_agent_requested,
  normalize_handoff_target,
}
use donkeyspace.TaskGraph.{
  TaskKey, key_Eq, key_eq, key_eq_iff, TaskState, waiting, running, completed, TaskGraph,
  is_complete, set_state, set_all, mark_completed, restart_from, completed_keys, affected_by,
}
use donkeyspace.TaskGraph.Build.{for_work_items}
use donkeyspace.Lifecycle.{
  Edge, edge_Eq, edge_Ord, LifecycleState, Exit, failed, paused, panicked, stopped, Outside,
  Collected, successes, record_results, install_items, complete_results, complete_one, restart,
  restarted, task_at, is_implemented, is_approval_required,
}
use donkeyspace.Lifecycle.Settle.{
  gates, required_approvals, settle_all, settle_outcome, settle_handoff, count_handoff, edge_of,
  apply_feedback, add_approval, agent_approval, add_clarified, retained,
}
use donkeyspace.Lifecycle.Wave.{
  conclusion, conclude, start_wave, executions, record_wave, settle_wave, wave, finish, run,
}
use donkeyspace.Lifecycle.Wave.Frame.{
  start_wave-eq-ok, record_wave-eq-ok, replan_cases, install_items-eq-ok, attempt-record_results,
  handoffs-record_results,
}
use donkeyspace.Lifecycle.Wave.Settled.{wave_through, settle_wave_through}
use donkeyspace.Lifecycle.Wave.Unpaused.{is_settled}
use donkeyspace.Lifecycle.Settle.Cases.{
  IsSettled, settle_all_invariant, settle_all_reaches, apply_feedback_invariant,
}
use donkeyspace.Lifecycle.Wave.Runs.Left.{left}

pub append_mem_left {ℓ} :
    {A : Type ℓ} {a : A} {xs : List A} (ys : List A) → Memᴰ a xs → Memᴰ a (xs ++ ys)
append_mem_left ys (Memᴰ.head q) = Memᴰ.head q
append_mem_left ys (Memᴰ.tail n) = Memᴰ.tail (append_mem_left ys n)

pub append_last {ℓ} : {A : Type ℓ} (xs : List A) (a : A) → Memᴰ a (xs ++ a ∷ [])
append_last [] a = Memᴰ.head refl
append_last (x ∷ xs) a = Memᴰ.tail (append_last xs a)

mem-add_approval :
    {a : PendingApproval} (b : PendingApproval) {list : List PendingApproval}
    → Memᴰ a list
    → Memᴰ a (add_approval b list)
mem-add_approval {a} b {list} n =
    elim (Bool-cases (any (λ (c : PendingApproval). key_eq c.key b.key) list)) [
      | inl q ↦ rw q n
      | inr q ↦ rw q (append_mem_left (b ∷ []) n)
    ]

mem-add_clarified :
    {a : PendingApproval} (cs : List (TaskKey × List Text)) {list : List PendingApproval}
    → Memᴰ a list
    → Memᴰ a (add_clarified cs list)
mem-add_clarified [] n = n
mem-add_clarified ((k, qs) ∷ cs) n = mem-add_clarified cs (mem-add_approval (agent_approval k) n)

pub mem-gates : {a : PendingApproval} (c : Collected) → Memᴰ a c.approvals → Memᴰ a (gates c)
mem-gates c n = elim (Bool-cases (is_empty c.approvals)) [
  | inl q ↦ absurd (some_entry q n)
  | inr q ↦ rw q (mem-add_clarified c.clarifications n)
]
  where
    some_entry :
        {a : PendingApproval} {list : List PendingApproval} → is_empty list ≡ true → Memᴰ a list → ⊥
    some_entry {list = []} q n = elim n [ ]
    some_entry {list = b ∷ bs} q n = cc

-- An approval of the task, by whichever trigger.
abbrev pub names : TaskKey → PendingApproval → Bool
names k a = key_eq a.key k

module _ {V : Type 0} where
  -- What a wave or run that pauses waits for.
  abbrev pub paused_approvals : Result (Exit V) (LifecycleState V) → List PendingApproval
  paused_approvals (err (paused t approvals clarifications)) = approvals
  paused_approvals _ = []

  abbrev pub paused_clarifications : Result (Exit V) (LifecycleState V) → List (TaskKey × List Text)
  paused_clarifications (err (paused t approvals clarifications)) = clarifications
  paused_clarifications _ = []

module _ {V : Type 0} (o : Outside V) (flow : PluginFlow) (limit : ℕ) where
  pub conclude-paused :
      (s t : LifecycleState V) (c : Collected)
      → left (conclude o flow limit s c) ≡ some t
      → (paused_approvals (conclude o flow limit s c) ≡ gates c)
        × (paused_clarifications (conclude o flow limit s c) ≡ c.clarifications)
  unfolding conclude
  conclude-paused s t c h =
      saved (o.save (record s { graph = c.graph; handoffs = c.handoffs }) (gates c)) h
    where
      goes_on :
          is_empty (gates c) && is_empty c.clarifications ≡ true
          → ([] ≡ gates c) × ([] ≡ c.clarifications)
      goes_on q = (
        sym (is_empty-nil (gates c) (ground arith)),
        sym (is_empty-nil c.clarifications (ground arith)),
      )

      saved :
          (m : Result Text (Unit {0}))
          → left (map_err failed m >>= λ _. conclusion o flow limit s c) ≡ some t
          → (paused_approvals (map_err failed m >>= λ _. conclusion o flow limit s c) ≡ gates c)
            × (paused_clarifications (map_err failed m >>= λ _. conclusion o flow limit s c)
                ≡ c.clarifications)
      saved (err e) h = cc
      saved (ok u) h = elim (Bool-cases (is_empty (gates c) && is_empty c.clarifications)) [
        | inl q ↦ rw q (goes_on q)
        | inr q ↦ rw q (refl, refl)
      ]

append_mem_last {ℓ} :
    {A : Type ℓ} {a b : A} (xs : List A) → Memᴰ a (xs ++ b ∷ []) → Memᴰ a xs ⊎ (a ≡ b)
append_mem_last [] (Memᴰ.head q) = inr q
append_mem_last [] (Memᴰ.tail n) = elim n [ ]
append_mem_last (x ∷ xs) (Memᴰ.head q) = inl (Memᴰ.head q)
append_mem_last (x ∷ xs) (Memᴰ.tail n) = elim (append_mem_last xs n) [
  | inl i ↦ inl (Memᴰ.tail i)
  | inr q ↦ inr q
]

add_approval_mem :
    {a : PendingApproval} (b : PendingApproval) (list : List PendingApproval)
    → Memᴰ a (add_approval b list)
    → Memᴰ a list ⊎ (a ≡ b)
add_approval_mem {a} b list n =
    elim (Bool-cases (any (λ (c : PendingApproval). key_eq c.key b.key) list)) [
      | inl q ↦ inl (let n' : Memᴰ a list = rw q at n in n')
      | inr q ↦ append_mem_last list (let n' : Memᴰ a (list ++ b ∷ []) = rw q at n in n')
    ]

trigger_cases : (t : ApprovalTrigger) → (t ≡ required) ⊎ (t ≡ agent_requested)
trigger_cases required = inl refl
trigger_cases agent_requested = inr refl

-- Approvals that a flow requires are of implemented tasks of the wave.
unfoldable pub OnlyImplemented : List (TaskKey × PluginTaskResult) → List PendingApproval → Type 0
OnlyImplemented results approvals =
    (a : PendingApproval)
    → Memᴰ a approvals
    → a.trigger ≡ required
    → (y : PluginTaskResult) × Memᴰ (a.key, y) results × (y.result.outcome ≡ Outcome.implemented)

-- An agent's request does not touch them.
requested-OnlyImplemented :
    {results : List (TaskKey × PluginTaskResult)} {approvals : List PendingApproval} (k : TaskKey)
    → OnlyImplemented results approvals
    → {a : PendingApproval} → Memᴰ a approvals ⊎ (a ≡ agent_approval k)
    → a.trigger ≡ required
    → (y : PluginTaskResult) × Memᴰ (a.key, y) results × (y.result.outcome ≡ Outcome.implemented)
unfolding OnlyImplemented
requested-OnlyImplemented k p {a} (inl n) t = p a n t
requested-OnlyImplemented k p (inr q) t =
    let wrong : agent_requested ≡ required = sym (ap (λ b. b.trigger) q) ∙ t in cc

module _ (flow : PluginFlow) (limit : ℕ) where
  pub settled-OnlyImplemented :
      (results : List (TaskKey × PluginTaskResult)) (k : TaskKey) (x : PluginTaskResult)
      (c d : Collected)
      → IsSettled flow limit k x c d
      → OnlyImplemented results c.approvals
      → OnlyImplemented results d.approvals
  unfolding OnlyImplemented
  settled-OnlyImplemented results k x c d (IsSettled.succeeds _ q) p = rw q p
  settled-OnlyImplemented results k x c d (IsSettled.asks _ _ _ q) p = rw q p
  settled-OnlyImplemented results k x c d (IsSettled.defers _ _ _ q) p =
      rw q (λ a n t.
        requested-OnlyImplemented k p (add_approval_mem (agent_approval k) c.approvals n) t)
  settled-OnlyImplemented results k x c d (IsSettled.excludes _ _ _ _ q) p =
      rw q (λ a n t. requested-OnlyImplemented k p (append_mem_last c.approvals n) t)
  settled-OnlyImplemented results k x c d (IsSettled.exceeds h u _ _ _ _ _ q) p =
      rw q (λ a n t.
        requested-OnlyImplemented u p (add_approval_mem (agent_approval u) c.approvals n) t)
  settled-OnlyImplemented results k x c d (IsSettled.requests h t _ _ _ l q) p = rw q p

  -- An approval stays.
  pub settled-approvals :
      (a : PendingApproval) (k : TaskKey) (x : PluginTaskResult) (c d : Collected)
      → IsSettled flow limit k x c d
      → Memᴰ a c.approvals
      → Memᴰ a d.approvals
  settled-approvals a k x c d (IsSettled.succeeds _ q) n = rw q n
  settled-approvals a k x c d (IsSettled.asks _ _ _ q) n = rw q n
  settled-approvals a k x c d (IsSettled.defers _ _ _ q) n =
      rw q (mem-add_approval (agent_approval k) n)
  settled-approvals a k x c d (IsSettled.excludes _ _ _ _ q) n =
      rw q (append_mem_left (agent_approval k ∷ []) n)
  settled-approvals a k x c d (IsSettled.exceeds h u _ _ _ _ _ q) n =
      rw q (mem-add_approval (agent_approval u) n)
  settled-approvals a k x c d (IsSettled.requests h t _ _ _ l q) n = rw q n

  requests_approval :
      (k : TaskKey) (list : List PendingApproval)
      → ((a : PendingApproval) → Memᴰ a list → a.key ≡ k → a.trigger ≡ agent_requested)
      → Memᴰ (agent_approval k) (add_approval (agent_approval k) list)
  requests_approval k list only =
      elim (Bool-cases (any (λ (c : PendingApproval). key_eq c.key k) list)) [
        | inl q ↦
            let (a, n, e) = any_elim (λ (c : PendingApproval). key_eq c.key k) list q in
            let same = (key_eq_iff a.key k).0 e in
            rw q (subst (λ b. Memᴰ b list) (both a same (only a n same)) n)
        | inr q ↦ rw q (append_last list (agent_approval k))
      ]
    where
      both : (a : PendingApproval) → a.key ≡ k → a.trigger ≡ agent_requested → a ≡ agent_approval k
      both a e f = cc

  pub defers_approval :
      (results : List (TaskKey × PluginTaskResult)) (k : TaskKey) (x : PluginTaskResult)
      → is_distinct (keys results) ≡ true
      → Memᴰ (k, x) results
      → x.result.outcome ≡ Outcome.needs_human
      → (c d : Collected) → IsSettled flow limit k x c d
      → OnlyImplemented results c.approvals
      → Memᴰ (agent_approval k) d.approvals
  unfolding OnlyImplemented
  defers_approval results k x u n o c d (IsSettled.defers _ _ _ q) p =
      rw q (requests_approval k c.approvals agent)
    where
      agent : (a : PendingApproval) → Memᴰ a c.approvals → a.key ≡ k → a.trigger ≡ agent_requested
      agent a m e = elim (trigger_cases a.trigger) [
        | inr t ↦ t
        | inl t ↦
            let (y, i, f) = p a m t in
            let found = mem_lookup k x results u n in
            let found' = mem_lookup a.key y results u i in
            let same : x ≡ y =
              some_inj.0 (sym found ∙ (ap (λ j. lookup j results) (sym e) ∙ found')) in
            let wrong : Outcome.needs_human ≡ Outcome.implemented =
              sym o ∙ (ap (λ z. z.result.outcome) same ∙ f) in
            cc
      ]
  defers_approval results k x u n o c d (IsSettled.succeeds q _) p =
      let wrong : Outcome.needs_human ≡ Outcome.implemented = sym o ∙ q in cc
  defers_approval results k x u n o c d (IsSettled.asks _ q _ _) p =
      let wrong : Outcome.needs_human ≡ Outcome.needs_info = sym o ∙ q in cc
  defers_approval results k x u n o c d (IsSettled.excludes _ q _ _ _) p =
      let wrong : Outcome.needs_human ≡ Outcome.needs_changes = sym o ∙ q in cc
  defers_approval results k x u n o c d (IsSettled.exceeds _ _ _ q _ _ _ _) p =
      let wrong : Outcome.needs_human ≡ Outcome.needs_changes = sym o ∙ q in cc
  defers_approval results k x u n o c d (IsSettled.requests _ _ q _ _ _ _) p =
      let wrong : Outcome.needs_human ≡ Outcome.needs_changes = sym o ∙ q in cc
