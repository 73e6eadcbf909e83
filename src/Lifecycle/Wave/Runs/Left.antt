-- ===== src/Lifecycle/Wave/Runs/Left.antt =====
-- The states that a wave and a run leave, and what holds of them throughout.
use mathlib.Core.Option.{some_inj}
use donkeyspace.Prelude.{
  ℕ, zero, suc, ◌≡◌, sym, ap, subst, ◌∙◌, Bool, true, false, List, [], Option, none, some, Result,
  ok, err, map_err, ◌>>=◌, Result-cases, Bool-cases, text_eq, is_empty, if◌then◌else◌, arith, inl,
  inr, ◌&&◌,
}
use donkeyspace.Text.{Text}
use donkeyspace.Plugin.{PluginFlow}
use donkeyspace.Approvals.{PendingApproval}
use donkeyspace.TaskGraph.{TaskKey, key_Eq, is_complete}
use donkeyspace.Lifecycle.{
  edge_Eq, edge_Ord, LifecycleState, Exit, failed, paused, Outside, Collected, successes,
}
use donkeyspace.Lifecycle.Settle.{gates, required_approvals, settle_all, apply_feedback}
use donkeyspace.Lifecycle.Wave.{conclude, start_wave, executions, record_wave, wave, finish, run}
use donkeyspace.Lifecycle.Wave.Settled.{wave_through, settle_wave_through}
use donkeyspace.Lifecycle.Wave.Unpaused.{is_settled}
use donkeyspace.Lifecycle.Wave.Runs.{run-finish, run-ok, run-err}

module _ {V : Type 0} where
  -- The state that a wave or a run leaves, when it goes on or ends, and when it pauses.
  abbrev pub left : Result (Exit V) (LifecycleState V) → Option (LifecycleState V)
  left (ok t) = some t
  left (err (paused t approvals clarifications)) = some t
  left (err _) = none

  pub left-is_settled :
      (r : Result (Exit V) (LifecycleState V)) {t : LifecycleState V}
      → left r ≡ some t
      → is_settled r ≡ true
  left-is_settled r h = ground arith

module _ {V : Type 0} (o : Outside V) (flow : PluginFlow) (limit : ℕ) where
  -- The parts of a wave that leaves `t`.
  pub record IsWave (s t : LifecycleState V) : Type 0 where
    pub started : LifecycleState V
    pub tasks : List TaskKey
    pub recorded : LifecycleState V
    pub approvals : List PendingApproval
    pub settled : Collected
    pub fed : Collected
    pub starts : start_wave o flow limit s ≡ ok (started, tasks)
    pub records : record_wave o flow limit started tasks ≡ ok recorded
    pub needs :
        required_approvals {V = V} flow (successes (executions o flow limit started tasks))
        ≡ ok approvals
    pub settles :
        settle_all flow limit recorded (successes (executions o flow limit started tasks)) (record {
          graph = recorded.graph;
          handoffs = recorded.handoffs;
          feedback = [];
          approvals = approvals;
          clarifications = [];
        })
        ≡ ok settled
    pub feeds :
        apply_feedback {V = V} flow recorded.execution_plan settled.feedback settled ≡ ok fed
    pub leaves : t ≡ record recorded { graph = fed.graph; handoffs = fed.handoffs }

  conclude-left :
      (s t : LifecycleState V) (c : Collected)
      → left (conclude o flow limit s c) ≡ some t
      → t ≡ record s { graph = c.graph; handoffs = c.handoffs }
  unfolding conclude
  conclude-left s t c h =
      saved (o.save (record s { graph = c.graph; handoffs = c.handoffs }) (gates c))
        (is_empty (gates c) && is_empty c.clarifications) h
    where
      saved :
          (m : Result Text (Unit {0})) (b : Bool)
          → left (
              map_err failed m >>= λ _.
              (if b
                then ok (record s { graph = c.graph; handoffs = c.handoffs })
                else err (
                    paused
                      (record s { graph = c.graph; handoffs = c.handoffs })
                      (gates c)
                      c.clarifications)))
            ≡ some t
          → t ≡ record s { graph = c.graph; handoffs = c.handoffs }
      saved (ok u) true h = cc
      saved (ok u) false h = cc
      saved (err e) b h = cc

  pub wave-IsWave : (s t : LifecycleState V) → left (wave o flow limit s) ≡ some t → IsWave s t
  wave-IsWave s t h =
      let (u, e, (v, r, p)) = wave_through o flow limit s (left-is_settled _ h) in
      let results = successes (executions o flow limit u.0 u.1) in
      let k = ap left (sym p) ∙ h in
      let (a, f, (c, g, (d, i, q))) =
        settle_wave_through o flow limit v results (left-is_settled _ k) in
      record {
        started = u.0;
        tasks = u.1;
        recorded = v;
        approvals = a;
        settled = c;
        fed = d;
        starts = e;
        records = r;
        needs = f;
        settles = g;
        feeds = i;
        leaves = conclude-left v t d (ap left (sym q) ∙ k);
      }

  -- What every wave keeps, in the state that it leaves, and the end as well, holds of the state that a run leaves.
  pub run_invariant {ℓ} :
      (P : LifecycleState V → Type ℓ)
      → ((s t : LifecycleState V) → IsWave s t → P s → P t)
      → ((s : LifecycleState V) → P s → P (finish o flow limit s))
      → (fuel : ℕ) (s : LifecycleState V) {t : LifecycleState V}
        {r : Result (Exit V) (LifecycleState V)}
      → run o flow limit fuel s ≡ some r
      → left r ≡ some t
      → P s
      → P t
  unfolding run
  run_invariant P step last zero s {r} e h p =
      let none_some : ◌≡◌ {A = Option (Result (Exit V) (LifecycleState V))} none (some r) = e in cc
  run_invariant P step last (suc fuel) s {t} {r} e h p = elim (Bool-cases (is_complete s.graph)) [
    | inl c ↦
        ends (o.save (finish o flow limit s) [])
          (ap left (some_inj.0 (sym (run-finish o flow limit fuel s c) ∙ e)) ∙ h)
    | inr c ↦ elim (Result-cases (wave o flow limit s)) [
      | inl (v, q) ↦
          run_invariant P step last fuel v {t = t} {r = r}
            (sym (run-ok o flow limit fuel s c q) ∙ e) h (step s v (wave-IsWave s v (ap left q)) p)
      | inr (x, q) ↦
          let same : r ≡ err x = some_inj.0 (sym e ∙ run-err o flow limit fuel s c q) in
          step s t (wave-IsWave s t (ap left (q ∙ sym same) ∙ h)) p
    ]
  ]
    where
      ends :
          (m : Result Text (Unit {0}))
          → left (map_err failed m >>= λ _. ok (finish o flow limit s)) ≡ some t
          → P t
      ends (ok u) q = let same : finish o flow limit s ≡ t = some_inj.0 q in subst P same (last s p)
      ends (err x) q = cc
