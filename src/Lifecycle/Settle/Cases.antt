-- ===== src/Lifecycle/Settle/Cases.antt =====
-- The cases in which the coordinator settles one result and goes on.
use donkeyspace.Prelude.{
  ℕ, suc, ◌≤◌, ◌≡◌, refl, sym, ap, subst, ◌∙◌, false, List, [], ◌∷◌, ◌++◌, Option, none, some, ok,
  map_err, ok_or, fail_if, >>=-eq-ok, >>-eq-ok, map_err-eq-ok, ok_or-eq-ok, ok_inj, Bool-cases,
  Option-cases, text_eq, arith, ◌⊎◌, inl, inr, not, lookup, insert, ltb, contains, contains_key,
  Memᴰ,
}
use donkeyspace.Plugin.{PluginFlow}
use donkeyspace.RunResult.{PluginTaskResult, Outcome, AgentHandoff}
use donkeyspace.ExecutionPlan.{ExecutionPlan, or_value}
use donkeyspace.Approvals.{normalize_handoff_target}
use donkeyspace.TaskGraph.{TaskKey, key_Eq, TaskGraph, restart_from}
use donkeyspace.Lifecycle.{
  edge_Eq, edge_Ord, LifecycleState, failed, Collected, restart, restarted, task_at,
}
use donkeyspace.Lifecycle.Settle.{
  settle_all, settle_outcome, settle_handoff, count_handoff, exceed_handoff, request_handoff,
  edge_of, add_approval, agent_approval, retained, apply_feedback,
}

module _ (flow : PluginFlow) (limit : ℕ) where
  -- How a result takes what is collected from `c` to `d`.
  pub data IsSettled (k : TaskKey) (x : PluginTaskResult) (c d : Collected) : Type 0 where
    succeeds : x.result.outcome ≡ Outcome.implemented → d ≡ c → IsSettled k x c d
    asks :
        (r : TaskGraph × List TaskKey)
        → x.result.outcome ≡ Outcome.needs_info
        → restart_from c.graph k ≡ some (ok r)
        → d ≡ record c {
          graph = r.0;
          clarifications = c.clarifications ++ (k, x.result.questions) ∷ [];
        }
        → IsSettled k x c d
    defers :
        (r : TaskGraph × List TaskKey)
        → x.result.outcome ≡ Outcome.needs_human
        → restart_from c.graph k ≡ some (ok r)
        → d ≡ record c { graph = r.0; approvals = add_approval (agent_approval k) c.approvals }
        → IsSettled k x c d
    excludes :
        (h : AgentHandoff)
        → x.result.outcome ≡ Outcome.needs_changes
        → x.handoff ≡ some h
        → contains_key h.target flow.tasks ≡ false
        → d ≡ record c { approvals = c.approvals ++ agent_approval k ∷ [] }
        → IsSettled k x c d
    exceeds :
        (h : AgentHandoff) (t : TaskKey) (r : TaskGraph × List TaskKey)
        → x.result.outcome ≡ Outcome.needs_changes
        → x.handoff ≡ some h
        → normalize_handoff_target flow k h.target ≡ ok t
        → restart_from c.graph t ≡ some (ok r)
        → d ≡ record c {
          graph = r.0;
          handoffs = insert (edge_of k h) 0 c.handoffs;
          approvals = add_approval (agent_approval t) c.approvals;
        }
        → IsSettled k x c d
    requests :
        (h : AgentHandoff) (t : TaskKey)
        → x.result.outcome ≡ Outcome.needs_changes
        → x.handoff ≡ some h
        → normalize_handoff_target flow k h.target ≡ ok t
        → suc (or_value (lookup (edge_of k h) c.handoffs) 0) ≤ limit
        → d ≡ record c {
          handoffs =
              insert (edge_of k h) (suc (or_value (lookup (edge_of k h) c.handoffs) 0)) c.handoffs;
          feedback = c.feedback ++ t ∷ [];
        }
        → IsSettled k x c d

pub restart-eq-ok :
    (V : Type 0) (g : TaskGraph) (k : TaskKey) {r : TaskGraph × List TaskKey}
    → restart {V = V} g k ≡ ok r
    → restart_from g k ≡ some (ok r)
unfolding restart restarted
restart-eq-ok V g k {r} h = elim (Option-cases (restart_from g k)) [
  | inl e ↦ let h' : restarted {V = V} none ≡ ok r = rw e at h in cc
  | inr (m, e) ↦
      let h' : restarted {V = V} (some m) ≡ ok r = rw e at h in
      e ∙ ap some (map_err-eq-ok failed m h')
]

module _ {V : Type 0} (flow : PluginFlow) (limit : ℕ) where
  count_handoff-IsSettled :
      (k : TaskKey) (x : PluginTaskResult) (h : AgentHandoff) (c : Collected) {d : Collected}
      → x.result.outcome ≡ Outcome.needs_changes
      → x.handoff ≡ some h
      → count_handoff {V = V} flow limit k h c ≡ ok d
      → IsSettled flow limit k x c d
  unfolding count_handoff exceed_handoff request_handoff
  count_handoff-IsSettled k x h c {d} a b e =
      elim (Bool-cases (ltb limit (suc (or_value (lookup (edge_of k h) c.handoffs) 0)))) [
        | inl l ↦
            let e' : exceed_handoff flow k h c ≡ ok d = rw l at e in
            let (t, n, e') =
              >>=-eq-ok (map_err failed (normalize_handoff_target flow k h.target)) _ e' in
            let (r, q, e') = >>=-eq-ok (restart c.graph t) _ e' in
            exceeds h t r a b (map_err-eq-ok failed _ n) (restart-eq-ok V c.graph t q)
              (sym (ok_inj e'))
        | inr l ↦
            let e' : request_handoff flow (suc (or_value (lookup (edge_of k h) c.handoffs) 0)) k h c
                ≡ ok d =
              rw l at e in
            let (t, n, e') =
              >>=-eq-ok (map_err failed (normalize_handoff_target flow k h.target)) _ e' in
            requests h t a b (map_err-eq-ok failed _ n) (ground arith) (sym (ok_inj e'))
      ]

  settle_handoff-IsSettled :
      (k : TaskKey) (x : PluginTaskResult) (c : Collected) {d : Collected}
      → x.result.outcome ≡ Outcome.needs_changes
      → settle_handoff {V = V} flow limit k x c ≡ ok d
      → IsSettled flow limit k x c d
  unfolding settle_handoff
  settle_handoff-IsSettled k x c {d} a e =
      let (h, b, e) = >>=-eq-ok (ok_or x.handoff (failed _)) _ e in
      let (task, _, e) = >>=-eq-ok (task_at flow k.task) _ e in
      let (_, e) =
        >>-eq-ok (fail_if (not (contains task.allowed_handoffs h.target)) (failed _)) _ e in
      elim (Bool-cases (contains_key h.target flow.tasks)) [
        | inl n ↦
            let e' : count_handoff flow limit k h c ≡ ok d = rw n at e in
            count_handoff-IsSettled k x h c a (ok_or-eq-ok x.handoff _ b) e'
        | inr n ↦
            let e' : ok (record c { approvals = c.approvals ++ agent_approval k ∷ [] }) ≡ ok d =
              rw n at e in
            excludes h a (ok_or-eq-ok x.handoff _ b) n (sym (ok_inj e'))
      ]

  -- A result that is settled is one of the cases.
  pub settle_outcome-IsSettled :
      (s : LifecycleState V) (k : TaskKey) (x : PluginTaskResult) (c : Collected) {d : Collected}
      → settle_outcome flow limit s x.result.outcome k x c ≡ ok d
      → IsSettled flow limit k x c d
  unfolding settle_outcome
  settle_outcome-IsSettled s k x c {d} e = by_outcome x.result.outcome refl e
    where
      by_outcome :
          (a : Outcome)
          → x.result.outcome ≡ a
          → settle_outcome flow limit s a k x c ≡ ok d
          → IsSettled flow limit k x c d
      by_outcome Outcome.implemented q e = succeeds q (sym (ok_inj e))
      by_outcome Outcome.needs_changes q e = settle_handoff-IsSettled k x c q e
      by_outcome Outcome.needs_info q e =
          let (r, h, e) = >>=-eq-ok (restart c.graph k) _ e in
          asks r q (restart-eq-ok V c.graph k h) (sym (ok_inj e))
      by_outcome Outcome.needs_human q e =
          let (r, h, e) = >>=-eq-ok (restart c.graph k) _ e in
          defers r q (restart-eq-ok V c.graph k h) (sym (ok_inj e))
      by_outcome Outcome.ready q e = cc
      by_outcome Outcome.reviewed q e = cc
      by_outcome Outcome.blocked q e = cc
      by_outcome Outcome.failed q e = cc

  -- Induction over the results of a wave: what each of them keeps holds after all of them.
  pub settle_all_invariant {ℓ} :
      (P : Collected → Type ℓ) (s : LifecycleState V) (results : List (TaskKey × PluginTaskResult))
      → ((k : TaskKey) (x : PluginTaskResult) (c d : Collected)
          → Memᴰ (k, x) results
          → IsSettled flow limit k x c d
          → P c
          → P d)
      → (c : Collected) → {d : Collected} → settle_all flow limit s results c ≡ ok d
      → P c
      → P d
  unfolding settle_all
  settle_all_invariant P s [] step c e p = let same = ok_inj e in subst P same p
  settle_all_invariant P s ((k, x) ∷ more) step c {d} e p =
      let (m, q, e) = >>=-eq-ok (settle_outcome flow limit s x.result.outcome k x c) _ e in
      settle_all_invariant P s more (λ j y a b n. step j y a b (Memᴰ.tail n)) m {d = d} e
        (step k x c m (Memᴰ.head refl) (settle_outcome-IsSettled s k x c q) p)

  -- What the result of one task establishes and no later one takes back holds after all of them.
  pub settle_all_reaches {ℓ κ} :
      (P : Collected → Type ℓ) (Q : Collected → Type κ) (s : LifecycleState V)
      → {k : TaskKey} {x : PluginTaskResult} (results : List (TaskKey × PluginTaskResult))
      → ((j : TaskKey) (y : PluginTaskResult) (c d : Collected)
          → Memᴰ (j, y) results
          → IsSettled flow limit j y c d
          → P c
          → P d)
      → ((j : TaskKey) (y : PluginTaskResult) (c d : Collected)
          → IsSettled flow limit j y c d
          → Q c
          → Q d)
      → ((c d : Collected) → IsSettled flow limit k x c d → P c → Q d)
      → Memᴰ (k, x) results
      → (c : Collected) → {d : Collected} → settle_all flow limit s results c ≡ ok d
      → P c
      → Q d
  unfolding settle_all
  settle_all_reaches P Q s [] keeps stays gives n c e p = elim n [ ]
  settle_all_reaches P Q s {k} {x} ((j, y) ∷ more) keeps stays gives n c {d} e p =
      let (m, q, e) = >>=-eq-ok (settle_outcome flow limit s y.result.outcome j y c) _ e in
      let step = settle_outcome-IsSettled s j y c q in
      elim (head_or_tail n) [
        | inl same ↦
            settle_all_invariant Q s more (λ i z a b _ h. stays i z a b h) m {d = d} e
              (gives c m (subst (λ b. IsSettled flow limit b.0 b.1 c m) (sym same) step) p)
        | inr n ↦
            settle_all_reaches P Q s more (λ i z a b n. keeps i z a b (Memᴰ.tail n)) stays gives n m
              {d = d} e (keeps j y c m (Memᴰ.head refl) step p)
      ]
    where
      head_or_tail :
          Memᴰ (k, x) ((j, y) ∷ more)
          → (◌≡◌ {A = TaskKey × PluginTaskResult} (k, x) (j, y)) ⊎ Memᴰ (k, x) more
      head_or_tail (Memᴰ.head q) = inl q
      head_or_tail (Memᴰ.tail n) = inr n

-- Likewise over the targets of the feedback.
pub apply_feedback_invariant {ℓ} :
    {V : Type 0} (flow : PluginFlow) (plan : Option ExecutionPlan) (P : Collected → Type ℓ)
    (ts : List TaskKey)
    → ((t : TaskKey) (c : Collected) (r : TaskGraph × List TaskKey)
        → Memᴰ t ts
        → restart_from c.graph t ≡ some (ok r)
        → P c
        → P (record c { graph = r.0; approvals = retained flow plan t r.1 c.approvals }))
    → (c : Collected) → {d : Collected} → apply_feedback {V = V} flow plan ts c ≡ ok d
    → P c
    → P d
unfolding apply_feedback
apply_feedback_invariant flow plan P [] step c e p = let same = ok_inj e in subst P same p
apply_feedback_invariant {V} flow plan P (t ∷ more) step c {d} e p =
    let (r, q, e) = >>=-eq-ok (restart c.graph t) _ e in
    apply_feedback_invariant flow plan P more (λ u a b n. step u a b (Memᴰ.tail n)) _ {d = d} e
      (step t c r (Memᴰ.head refl) (restart-eq-ok V c.graph t q) p)
