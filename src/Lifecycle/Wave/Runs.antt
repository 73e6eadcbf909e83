-- ===== src/Lifecycle/Wave/Runs.antt =====
-- The waves of a run: the state that each leaves, and their end.
pub mod Left
pub mod Limits
pub mod Gates
pub mod Saves
use donkeyspace.Prelude.{
  ℕ, zero, suc, ◌+◌, ◌-◌, ◌≤◌, ◌<◌, ◌≡◌, ◌≢◌, refl, sym, ap, subst, ◌∙◌, Bool, true, false, List,
  [], ◌∷◌, Option, none, some, Result, ok, err, map_err, ◌>>=◌, ◌>>◌, >>=-eq-ok, Result-cases,
  Bool-cases, is_empty, if◌then◌else◌, arith, ◌⊎◌, inl, inr, not, ◌&&◌,
}
use donkeyspace.Plugin.{PluginFlow, PluginWorkItem}
use donkeyspace.RunResult.{PluginTaskResult}
use donkeyspace.Approvals.{PendingApproval}
use donkeyspace.TaskGraph.{TaskKey, TaskGraph, is_complete}
use donkeyspace.Lifecycle.{
  LifecycleState, Exit, failed, paused, Outside, Collected, successes, record_results,
  install_items,
}
use donkeyspace.Lifecycle.Settle.{gates}
use donkeyspace.Lifecycle.Wave.{
  conclude, start_wave, executions, record_wave, settle_wave, wave, finish, run,
}
use donkeyspace.Lifecycle.Wave.Frame.{
  start_wave-eq-ok, record_wave-eq-ok, replan_cases, install_items-eq-ok, attempt-record_results,
}
use donkeyspace.Lifecycle.Wave.Settled.{wave_through, settle_wave_through}
use donkeyspace.Lifecycle.Wave.Unpaused.{is_settled}

module _ {V : Type 0} (o : Outside V) (flow : PluginFlow) (limit : ℕ) where
  -- The state left by concluding, whether the loop goes on or pauses.
  pub conclude-eq-ok :
      (s : LifecycleState V) (c : Collected) {t : LifecycleState V}
      → conclude o flow limit s c ≡ ok t
      → (t ≡ record s { graph = c.graph; handoffs = c.handoffs })
        × (is_empty (gates c) ≡ true)
        × (is_empty c.clarifications ≡ true)
  unfolding conclude
  conclude-eq-ok s c {t} h =
      let (u, e, h) =
        >>=-eq-ok
          (map_err failed (o.save (record s { graph = c.graph; handoffs = c.handoffs }) (gates c)))
          _ h in
      elim (Bool-cases (is_empty (gates c) && is_empty c.clarifications)) [
        | inl q ↦ (
          let h' : ok (record s { graph = c.graph; handoffs = c.handoffs }) ≡ ok t = rw q at h in
              cc,
          ground arith,
          ground arith,
        )
        | inr q ↦
            let h' : err (
                  paused (record s { graph = c.graph; handoffs = c.handoffs }) (gates c)
                    c.clarifications)
                ≡ ok t =
              rw q at h in
            cc
      ]

  pub attempt-record_wave :
      (s : LifecycleState V) (ks : List TaskKey) {t : LifecycleState V}
      → record_wave o flow limit s ks ≡ ok t
      → t.attempt ≡ s.attempt
  attempt-record_wave s ks {t} h =
      let (g, e, r) = record_wave-eq-ok o flow limit s ks h in
      let results = successes (executions o flow limit s ks) in
      elim (replan_cases o flow limit results (record (record_results results s) { graph = g }) r) [
        | inl same ↦ ap (λ x. x.attempt) same ∙ attempt-record_results results s
        | inr (registry, b, f, q, i) ↦
            let (items, n, _, _, _, _, same) = install_items-eq-ok o flow limit registry b.1 _ i in
            ap (λ x. x.attempt) same ∙ attempt-record_results results s
      ]

  settle_wave-eq-ok :
      (s : LifecycleState V) (results : List (TaskKey × PluginTaskResult)) {t : LifecycleState V}
      → settle_wave o flow limit s results ≡ ok t
      → (c : Collected) × (conclude o flow limit s c ≡ ok t)
  settle_wave-eq-ok s results h =
      let (_, _, (_, _, (c, _, p))) =
        settle_wave_through o flow limit s results (ap is_settled h) in
      (c, sym p ∙ h)

  -- A wave that goes on is the next one, and there are at most 64.
  pub attempt-wave :
      (s : LifecycleState V) {t : LifecycleState V}
      → wave o flow limit s ≡ ok t
      → (t.attempt ≡ suc s.attempt) × (t.attempt ≤ 64)
  attempt-wave s {t} h =
      let (u, e, (v, r, p)) = wave_through o flow limit s (ap is_settled h) in
      let (_, _, _, _, _, l, same) = start_wave-eq-ok o flow limit s e in
      let (c, k) = settle_wave-eq-ok v _ (sym p ∙ h) in
      let steps =
        ap (λ x. x.attempt) (conclude-eq-ok v c k).0
        ∙ (attempt-record_wave u.0 u.1 r ∙ ap (λ x. x.attempt) same) in
      (steps, rw steps l)

  pub run-finish :
      (fuel : ℕ) (s : LifecycleState V)
      → is_complete s.graph ≡ true
      → run o flow limit (suc fuel) s
        ≡ some
            (map_err failed (o.save (finish o flow limit s) []) >>= λ _. ok (finish o flow limit s))
  unfolding run
  run-finish fuel s c = ground (arith, c)

  pub run-ok :
      (fuel : ℕ) (s : LifecycleState V) {t : LifecycleState V}
      → is_complete s.graph ≡ false
      → wave o flow limit s ≡ ok t
      → run o flow limit (suc fuel) s ≡ run o flow limit fuel t
  unfolding run
  run-ok fuel s c e = ground (arith, c, e)

  pub run-err :
      (fuel : ℕ) (s : LifecycleState V) {e : Exit V}
      → is_complete s.graph ≡ false
      → wave o flow limit s ≡ err e
      → run o flow limit (suc fuel) s ≡ some (err e)
  unfolding run
  run-err fuel s c e = ground (arith, c, e)

  -- The loop ends: with more fuel than there are waves left of the 64, a run gives a result.
  pub run_ends :
      (s : LifecycleState V) (fuel : ℕ)
      → 64 - s.attempt < fuel
      → (r : Result (Exit V) (LifecycleState V)) × (run o flow limit fuel s ≡ some r)
  run_ends s zero l = absurd (omega (arith, l))
  run_ends s (suc fuel) l = elim (Bool-cases (is_complete s.graph)) [
    | inl c ↦ (_, run-finish fuel s c)
    | inr c ↦ elim (Result-cases (wave o flow limit s)) [
      | inl (t, e) ↦
          let (same, within) = attempt-wave s e in
          let (r, q) = run_ends t fuel (omega (arith, same, within, l)) in
          (r, run-ok fuel s c e ∙ q)
      | inr (e, q) ↦ (err e, run-err fuel s c q)
    ]
  ]
