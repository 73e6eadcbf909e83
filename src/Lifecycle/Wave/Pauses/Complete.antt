-- ===== src/Lifecycle/Wave/Pauses/Complete.antt =====
-- Every result of a wave that waits for a human is in the pause that the wave ends with.
use donkeyspace.Prelude.{
  Result, ℕ, ◌≡◌, ◌≢◌, refl, sym, ap, subst, ◌∙◌, true, List, [], some, ok, text_eq, is_distinct,
  ok_inj, mem-keep, Memᴰ, keys,
}
use donkeyspace.Plugin.{PluginFlow}
use donkeyspace.RunResult.{PluginTaskResult, Outcome}
use donkeyspace.Approvals.{PendingApproval}
use donkeyspace.TaskGraph.{TaskKey, key_Eq}
use donkeyspace.Lifecycle.{
  LifecycleState, Exit, edge_Eq, edge_Ord, LifecycleState, Outside, Collected,
}
use donkeyspace.Lifecycle.Settle.{
  gates, required_approvals, settle_all, apply_feedback, agent_approval, retained,
}
use donkeyspace.Lifecycle.Wave.{settle_wave}
use donkeyspace.Lifecycle.Wave.Settled.{settle_wave_through}
use donkeyspace.Lifecycle.Settle.Cases.{
  IsSettled, settle_all_invariant, settle_all_reaches, apply_feedback_invariant,
}
use donkeyspace.Lifecycle.Wave.Runs.Left.{left, left-is_settled}
use donkeyspace.Lifecycle.Wave.Runs.Gates.{RequiresApproval}
use donkeyspace.Lifecycle.Wave.Pauses.{
  paused_approvals, paused_clarifications, conclude-paused, mem-gates, OnlyImplemented,
  settled-OnlyImplemented, settled-approvals, defers_approval, append_mem_left, append_last,
}
use donkeyspace.Lifecycle.Wave.Pauses.Required.{
  required_entry, required_approvals-OnlyImplemented, required_approvals_complete,
}

-- Where the pause lists a task, by the outcome of its result.
abbrev pub Listed :
    {V : Type 0}
    → Outcome
    → TaskKey
    → PluginTaskResult
    → Result (Exit V) (LifecycleState V)
    → Type 0
Listed Outcome.needs_human k x r = Memᴰ (agent_approval k) (paused_approvals r)
Listed Outcome.needs_info k x r = Memᴰ (k, x.result.questions) (paused_clarifications r)
Listed _ k x r = Unit {0}

module _ {V : Type 0} (o : Outside V) (flow : PluginFlow) (limit : ℕ) where
  -- What holds of the settled results and is kept by the feedback holds of the pause.
  settle_wave-paused :
      (s : LifecycleState V) (results : List (TaskKey × PluginTaskResult)) {t : LifecycleState V}
      → left (settle_wave o flow limit s results) ≡ some t
      → (list : List PendingApproval) × (required_approvals {V = V} flow results ≡ ok list)
        × ((c : Collected) × (settle_all flow limit s results (record {
          graph = s.graph;
          handoffs = s.handoffs;
          feedback = [];
          approvals = list;
          clarifications = [];
        })
              ≡ ok c)
            × ((d : Collected) × (apply_feedback {V = V} flow s.execution_plan c.feedback c ≡ ok d)
                × (paused_approvals (settle_wave o flow limit s results) ≡ gates d)
                × (paused_clarifications (settle_wave o flow limit s results) ≡ d.clarifications)))
  settle_wave-paused s results h =
      let (list, e, (c, f, (d, g, q))) =
        settle_wave_through o flow limit s results (left-is_settled _ h) in
      let (a, b) = conclude-paused o flow limit s _ d (ap left (sym q) ∙ h) in
      (list, e, (c, f, (d, g, ap paused_approvals q ∙ a, ap paused_clarifications q ∙ b)))

  -- Every task of the wave that asks for human judgement is among the approvals of the pause.
  settle_wave-needs_human :
      (s : LifecycleState V) (results : List (TaskKey × PluginTaskResult)) {t : LifecycleState V}
      → left (settle_wave o flow limit s results) ≡ some t
      → is_distinct (keys results) ≡ true
      → (k : TaskKey) (x : PluginTaskResult) → Memᴰ (k, x) results
      → x.result.outcome ≡ Outcome.needs_human
      → Memᴰ (agent_approval k) (paused_approvals (settle_wave o flow limit s results))
  settle_wave-needs_human s results h u k x n q =
      let (list, e, (c, f, (d, g, a, _))) = settle_wave-paused s results h in
      let settled : Memᴰ (agent_approval k) c.approvals =
        settle_all_reaches flow limit (λ c. OnlyImplemented results c.approvals)
          (λ c. Memᴰ (agent_approval k) c.approvals) s results
          (λ j y c d _ i p. settled-OnlyImplemented flow limit results j y c d i p)
          (λ j y c d i m. settled-approvals flow limit (agent_approval k) j y c d i m)
          (defers_approval flow limit results k x u n q) n _ f
          (required_approvals-OnlyImplemented V flow results e) in
      let fed : Memᴰ (agent_approval k) d.approvals =
        apply_feedback_invariant flow s.execution_plan (λ c. Memᴰ (agent_approval k) c.approvals)
          c.feedback (λ t c r _ _ m. retains t r.1 c.approvals m) c g settled in
      subst (Memᴰ (agent_approval k)) (sym a) (mem-gates d fed)
    where
      retains :
          (t : TaskKey) (invalidated : List TaskKey) (list : List PendingApproval)
          → Memᴰ (agent_approval k) list
          → Memᴰ (agent_approval k) (retained flow s.execution_plan t invalidated list)
      retains t invalidated list m = mem-keep _ (append_mem_left _ m) refl

  -- Every task of the wave that asks a question is among the clarifications of the pause, with its questions.
  settle_wave-needs_info :
      (s : LifecycleState V) (results : List (TaskKey × PluginTaskResult)) {t : LifecycleState V}
      → left (settle_wave o flow limit s results) ≡ some t
      → (k : TaskKey) (x : PluginTaskResult) → Memᴰ (k, x) results
      → x.result.outcome ≡ Outcome.needs_info
      → Memᴰ (k, x.result.questions) (paused_clarifications (settle_wave o flow limit s results))
  settle_wave-needs_info s results h k x n q =
      let (list, e, (c, f, (d, g, _, b))) = settle_wave-paused s results h in
      let settled : Memᴰ (k, x.result.questions) c.clarifications =
        settle_all_reaches flow limit (λ c. Unit {0})
          (λ c. Memᴰ (k, x.result.questions) c.clarifications) s results (λ j y c d _ i p. tt)
          (λ j y c d i m. stays j y c d i m) (λ c d i _. asked c d i) n _ f tt in
      let fed : Memᴰ (k, x.result.questions) d.clarifications =
        apply_feedback_invariant flow s.execution_plan
          (λ c. Memᴰ (k, x.result.questions) c.clarifications) c.feedback (λ t c r _ _ m. m) c g
          settled in
      subst (Memᴰ (k, x.result.questions)) (sym b) fed
    where
      stays :
          (j : TaskKey) (y : PluginTaskResult) (c d : Collected)
          → IsSettled flow limit j y c d
          → Memᴰ (k, x.result.questions) c.clarifications
          → Memᴰ (k, x.result.questions) d.clarifications
      stays j y c d (IsSettled.succeeds _ q) n = rw q n
      stays j y c d (IsSettled.asks _ _ _ q) n = rw q (append_mem_left _ n)
      stays j y c d (IsSettled.defers _ _ _ q) n = rw q n
      stays j y c d (IsSettled.excludes _ _ _ _ q) n = rw q n
      stays j y c d (IsSettled.exceeds h u _ _ _ _ _ q) n = rw q n
      stays j y c d (IsSettled.requests h t _ _ _ l q) n = rw q n

      asked :
          (c d : Collected)
          → IsSettled flow limit k x c d
          → Memᴰ (k, x.result.questions) d.clarifications
      asked c d (IsSettled.asks _ _ _ e) =
          rw e (append_last c.clarifications (k, x.result.questions))
      asked c d (IsSettled.succeeds e _) =
          let wrong : Outcome.needs_info ≡ Outcome.implemented = sym q ∙ e in cc
      asked c d (IsSettled.defers _ e _ _) =
          let wrong : Outcome.needs_info ≡ Outcome.needs_human = sym q ∙ e in cc
      asked c d (IsSettled.excludes _ e _ _ _) =
          let wrong : Outcome.needs_info ≡ Outcome.needs_changes = sym q ∙ e in cc
      asked c d (IsSettled.exceeds _ _ _ e _ _ _ _) =
          let wrong : Outcome.needs_info ≡ Outcome.needs_changes = sym q ∙ e in cc
      asked c d (IsSettled.requests _ _ e _ _ _ _) =
          let wrong : Outcome.needs_info ≡ Outcome.needs_changes = sym q ∙ e in cc

  -- Every implemented task of the wave that the flow has a human approve is among the approvals of
  -- the pause, when no result of the wave asks for changes.
  pub settle_wave-required :
      (s : LifecycleState V) (results : List (TaskKey × PluginTaskResult)) {t : LifecycleState V}
      → left (settle_wave o flow limit s results) ≡ some t
      → ((j : TaskKey) (y : PluginTaskResult)
          → Memᴰ (j, y) results
          → y.result.outcome ≢ Outcome.needs_changes)
      → (k : TaskKey) (x : PluginTaskResult) → Memᴰ (k, x) results
      → x.result.outcome ≡ Outcome.implemented
      → RequiresApproval flow k
      → Memᴰ (required_entry k) (paused_approvals (settle_wave o flow limit s results))
  unfolding apply_feedback
  settle_wave-required s results h u k x n q r =
      let (list, e, (c, f, (d, g, a, _))) = settle_wave-paused s results h in
      let (m, w) =
        settle_all_invariant flow limit
          (λ c. Memᴰ (required_entry k) c.approvals × (c.feedback ≡ [])) s results
          (λ j y c d i s p. (
            settled-approvals flow limit (required_entry k) j y c d s p.0,
            unasked j y c d (u j y i) s p.1,
          ))
          _ f (required_approvals_complete V flow k x results e n q r, refl) in
      let g' : apply_feedback {V = V} flow s.execution_plan [] c ≡ ok d =
        subst (λ ts. apply_feedback {V = V} flow s.execution_plan ts c ≡ ok d) w g in
      subst (Memᴰ (required_entry k)) (sym a)
        (mem-gates d (subst (λ y. Memᴰ (required_entry k) y.approvals) (ok_inj g') m))
    where
      unasked :
          (j : TaskKey) (y : PluginTaskResult) (c d : Collected)
          → y.result.outcome ≢ Outcome.needs_changes
          → IsSettled flow limit j y c d
          → c.feedback ≡ []
          → d.feedback ≡ []
      unasked j y c d w (IsSettled.succeeds _ q) p = rw q p
      unasked j y c d w (IsSettled.asks _ _ _ q) p = rw q p
      unasked j y c d w (IsSettled.defers _ _ _ q) p = rw q p
      unasked j y c d w (IsSettled.excludes _ o _ _ q) p = rw q p
      unasked j y c d w (IsSettled.exceeds _ _ _ o _ _ _ q) p = rw q p
      unasked j y c d w (IsSettled.requests _ _ o _ _ _ q) p = absurd (w o)

  -- The settling of a wave that goes on or pauses leaves out no task that asks for human judgement
  -- or asks a question. With distinct tasks in its results, every one that asks for human judgement
  -- is among the approvals of the pause, and every one that asks a question is among its
  -- clarifications, with the questions.
  -- A wave with such a result therefore does not go on.
  pub settle_wave_lists :
      (s : LifecycleState V) (results : List (TaskKey × PluginTaskResult)) {t : LifecycleState V}
      → left (settle_wave o flow limit s results) ≡ some t
      → is_distinct (keys results) ≡ true
      → (k : TaskKey) (x : PluginTaskResult) → Memᴰ (k, x) results
      → Listed x.result.outcome k x (settle_wave o flow limit s results)
  settle_wave_lists s results h d k x n = by_outcome x.result.outcome refl
    where
      by_outcome :
          (a : Outcome) → x.result.outcome ≡ a → Listed a k x (settle_wave o flow limit s results)
      by_outcome Outcome.needs_human q = settle_wave-needs_human s results h d k x n q
      by_outcome Outcome.needs_info q = settle_wave-needs_info s results h k x n q
      by_outcome _ q = tt
