-- ===== src/Lifecycle/Wave/Runs/Saves.antt =====
-- A run that ends or pauses has saved the state that it leaves.
use donkeyspace.Prelude.{ℕ, ◌≡◌, Bool, true, Option, Result, ok, text_eq, is_empty, not, ◌&&◌}
use donkeyspace.Text.{Text}
use donkeyspace.Plugin.{PluginFlow}
use donkeyspace.TaskGraph.{key_Eq}
use donkeyspace.Lifecycle.{edge_Eq, edge_Ord, LifecycleState, Exit, Outside}
use donkeyspace.Lifecycle.Wave.Pauses.{paused_approvals, paused_clarifications}

module _ {V : Type 0} where
  -- Whether something waits for a human.
  abbrev pub awaits_human : Result (Exit V) (LifecycleState V) → Bool
  awaits_human r = not (is_empty (paused_approvals r) && is_empty (paused_clarifications r))

module _ {V : Type 0} (o : Outside V) (flow : PluginFlow) (limit : ℕ) where
  -- The state and the approvals that are left are saved.
  Saves : Result (Exit V) (LifecycleState V) → LifecycleState V → Type 0
  Saves r t = o.save t (paused_approvals r) ≡ ok tt

  -- A pause of a wave saves, and something waits.
  IsPause : Result (Exit V) (LifecycleState V) → LifecycleState V → Type 0
  IsPause r t = Saves r t × (awaits_human r ≡ true)
