-- ===== src/Lifecycle/Wave/Runs/Limits.antt =====
-- Handoffs stay within the policy's limit for their edge.
use donkeyspace.Prelude.{
  ℕ, ◌≤◌, ◌≡◌, ap, ◌∙◌, List, some, Result, ok, text_eq, arith, inl, inr, lookup, insert,
  lookup-insert,
}
use donkeyspace.Plugin.{PluginFlow}
use donkeyspace.RunResult.{PluginTaskResult}
use donkeyspace.TaskGraph.{TaskKey, key_Eq}
use donkeyspace.Lifecycle.{
  Edge, edge_Eq, edge_Ord, LifecycleState, Exit, Outside, Collected, successes, record_results,
}
use donkeyspace.Lifecycle.Settle.{edge_of}
use donkeyspace.Lifecycle.Wave.{executions, record_wave, run}
use donkeyspace.Lifecycle.Wave.Frame.{
  start_wave-eq-ok, record_wave-eq-ok, replan_cases, install_items-eq-ok, handoffs-record_results,
}
use donkeyspace.Lifecycle.Settle.Cases.{IsSettled, settle_all_invariant, apply_feedback_invariant}
use donkeyspace.Lifecycle.Wave.Runs.Left.{left, IsWave, run_invariant}

-- No edge has been counted beyond the limit.
unfoldable pub IsWithin : ℕ → List (Edge × ℕ) → Type 0
IsWithin limit counts = (e : Edge) (n : ℕ) → lookup e counts ≡ some n → n ≤ limit

insert-IsWithin :
    (limit : ℕ) (counts : List (Edge × ℕ)) (e : Edge) (n : ℕ)
    → n ≤ limit
    → IsWithin limit counts
    → IsWithin limit (insert e n counts)
unfolding IsWithin
insert-IsWithin limit counts e n l w f m h = ground (arith, lookup-insert e f n counts, l, w f m, h)

settled-IsWithin :
    (flow : PluginFlow) (limit : ℕ) (k : TaskKey) (x : PluginTaskResult) (c d : Collected)
    → IsSettled flow limit k x c d
    → IsWithin limit c.handoffs
    → IsWithin limit d.handoffs
settled-IsWithin flow limit k x c d (IsSettled.succeeds _ q) w = rw q w
settled-IsWithin flow limit k x c d (IsSettled.asks _ _ _ q) w = rw q w
settled-IsWithin flow limit k x c d (IsSettled.defers _ _ _ q) w = rw q w
settled-IsWithin flow limit k x c d (IsSettled.excludes _ _ _ _ q) w = rw q w
settled-IsWithin flow limit k x c d (IsSettled.exceeds h t _ _ _ _ _ q) w =
    rw q (insert-IsWithin limit c.handoffs (edge_of k h) 0 (omega arith) w)
settled-IsWithin flow limit k x c d (IsSettled.requests h t _ _ _ l q) w =
    rw q (insert-IsWithin limit c.handoffs (edge_of k h) _ l w)

module _ {V : Type 0} (o : Outside V) (flow : PluginFlow) (limit : ℕ) where
  handoffs-record_wave :
      (s : LifecycleState V) (ks : List TaskKey) {t : LifecycleState V}
      → record_wave o flow limit s ks ≡ ok t
      → t.handoffs ≡ s.handoffs
  handoffs-record_wave s ks {t} h =
      let (g, e, r) = record_wave-eq-ok o flow limit s ks h in
      let results = successes (executions o flow limit s ks) in
      elim (replan_cases o flow limit results (record (record_results results s) { graph = g }) r) [
        | inl same ↦ ap (λ x. x.handoffs) same ∙ handoffs-record_results results s
        | inr (registry, b, f, q, i) ↦
            let (items, n, _, _, _, _, same) = install_items-eq-ok o flow limit registry b.1 _ i in
            ap (λ x. x.handoffs) same ∙ handoffs-record_results results s
      ]

  wave-IsWithin :
      (s t : LifecycleState V)
      → IsWave o flow limit s t
      → IsWithin limit s.handoffs
      → IsWithin limit t.handoffs
  wave-IsWithin s t w h =
      let (_, _, _, _, _, _, same) = start_wave-eq-ok o flow limit s w.starts in
      let started : w.started.handoffs ≡ s.handoffs = ap (λ x. x.handoffs) same in
      let recorded = handoffs-record_wave w.started w.tasks w.records in
      let settled : IsWithin limit w.settled.handoffs =
        settle_all_invariant flow limit (λ c. IsWithin limit c.handoffs) w.recorded _
          (λ k x c d _ i p. settled-IsWithin flow limit k x c d i p) _ w.settles
          (rw (recorded, started) h) in
      let fed =
        apply_feedback_invariant flow w.recorded.execution_plan (λ c. IsWithin limit c.handoffs)
          w.settled.feedback (λ _ _ _ _ _ p. p) w.settled w.feeds settled in
      rw (ap (λ x. x.handoffs) w.leaves) fed

  -- The state in which a run ends or pauses has no edge counted beyond the limit, when the state
  -- that it starts in has none.
  pub run-IsWithin :
      (fuel : ℕ) (s : LifecycleState V) {t : LifecycleState V}
      {r : Result (Exit V) (LifecycleState V)}
      → run o flow limit fuel s ≡ some r
      → left r ≡ some t
      → IsWithin limit s.handoffs
      → IsWithin limit t.handoffs
  run-IsWithin =
      run_invariant o flow limit (λ x. IsWithin limit x.handoffs) wave-IsWithin (λ s p. p)
