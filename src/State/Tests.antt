-- ===== src/State/Tests.antt =====
-- `normalize_workflow_labels` at an issue with two conflicting labels.
use donkeyspace.Prelude.{◌≡◌, refl, List, [], ◌∷◌}
use donkeyspace.Text.{Text, lit}
use donkeyspace.State.{normalize_workflow_labels, LabelState, conflict, ready, blocked}

abbrev labels : List Text
labels = lit "donk:ready" ∷ lit "bug" ∷ lit "donk:blocked" ∷ []

abbrev state_labels : List (Text × Text)
state_labels = (lit "blocked", lit "donk:blocked") ∷ (lit "ready", lit "donk:ready") ∷ []

conflicting :
    normalize_workflow_labels labels state_labels
    ≡ conflict (
        record { state = ready; label = lit "donk:ready" }
        ∷ record { state = blocked; label = lit "donk:blocked" }
        ∷ [])
unfolding normalize_workflow_labels lit donkeyspace.Prelude.lookup donkeyspace.Prelude.list_eq
    donkeyspace.State.state_as_str
conflicting = refl
