-- ===== src/State/Labels.antt =====
-- What `normalize_workflow_labels` says about an issue, against the labels that it carries.
use donkeyspace.Prelude.{◌≤◌, List, some, lookup, text_eq, Memᴰ, ◌≡◌, length, All}
use mathlib.Core.List.Memᴰ
use donkeyspace.Text.{Text}
use donkeyspace.State.{
  WorkflowLabel, LabelState, no_label, one, conflict, observed_states, state_as_str,
}

module _ (labels : List Text) (state_labels : List (Text × Text)) where
  -- The issue carries the label that is configured for a state.
  pub record IsPresent (l : WorkflowLabel) : Type 0 where
    pub configured : lookup (state_as_str l.state) state_labels ≡ some l.label
    pub carried : Memᴰ l.label labels

  -- What each answer says of the labels that are present.
  abbrev pub Describes : LabelState → Type 0
  Describes no_label = (l : WorkflowLabel) → Memᴰ l.state observed_states → ¬ IsPresent l
  Describes (one k) =
      IsPresent k × ((l : WorkflowLabel) → Memᴰ l.state observed_states → IsPresent l → l ≡ k)
  Describes (conflict ks) =
      (2 ≤ length ks)
      × All IsPresent ks
      × ((l : WorkflowLabel) → Memᴰ l.state observed_states → IsPresent l → Memᴰ l ks)
