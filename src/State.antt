-- ===== src/State.antt =====
-- crates/donkeyspace-core/src/state.rs: workflow states, and the state that the labels of an issue
-- stand for.
mod Tests
pub mod Labels
use donkeyspace.Prelude.{
  Bool, true, false, List, [], ◌∷◌, Option, none, some, lookup, contains, text_eq, if◌then◌else◌,
  keep,
}
use donkeyspace.Text.{Text, lit}
use donkeyspace.RunResult.{Outcome}

pub data AgentRole : Type 0 where
  triage developer reviewer repair : AgentRole

unfoldable pub role_as_str : AgentRole → Text
role_as_str triage = lit "triage"
role_as_str developer = lit "developer"
role_as_str reviewer = lit "reviewer"
role_as_str repair = lit "repair"

pub data WorkflowState : Type 0 where
  needs_info ready in_progress publishing pr_open needs_human blocked finished cancelling
        cancelled :
      WorkflowState

unfoldable pub state_as_str : WorkflowState → Text
unfolding lit
state_as_str needs_info = lit "needs_info"
state_as_str ready = lit "ready"
state_as_str in_progress = lit "in_progress"
state_as_str publishing = lit "publishing"
state_as_str pr_open = lit "pr_open"
state_as_str needs_human = lit "needs_human"
state_as_str blocked = lit "blocked"
state_as_str finished = lit "finished"
state_as_str cancelling = lit "cancelling"
state_as_str cancelled = lit "cancelled"

pub record WorkflowLabel : Type 0 where
  pub state : WorkflowState
  pub label : Text

pub data LabelState : Type 0 where
  no_label : LabelState
  one : WorkflowLabel → LabelState
  conflict : List WorkflowLabel → LabelState

-- The states of the loop, in its order.
abbrev pub observed_states : List WorkflowState
observed_states =
    needs_info ∷ ready ∷ in_progress ∷ publishing ∷ pr_open ∷ needs_human ∷ blocked ∷ []

abbrev push_if : Option Text → List Text → WorkflowState → List WorkflowLabel → List WorkflowLabel
push_if none labels s rest = rest
push_if (some label) labels s rest =
    if contains labels label then record { state = s; label = label } ∷ rest else rest

-- The loop of `normalize_workflow_labels` over the states that are left.
pub matches : List Text → List (Text × Text) → List WorkflowState → List WorkflowLabel
matches labels state_labels [] = []
matches labels state_labels (s ∷ ss) =
    push_if (lookup (state_as_str s) state_labels) labels s (matches labels state_labels ss)

label_state : List WorkflowLabel → LabelState
label_state [] = no_label
label_state (l ∷ []) = one l
label_state (l ∷ k ∷ ls) = conflict (l ∷ k ∷ ls)

unfoldable pub normalize_workflow_labels : List Text → List (Text × Text) → LabelState
unfolding matches label_state
normalize_workflow_labels labels state_labels =
    label_state (matches labels state_labels observed_states)

unfoldable pub workflow_state_for_outcome : Outcome → WorkflowState
workflow_state_for_outcome Outcome.ready = ready
workflow_state_for_outcome Outcome.needs_info = needs_info
workflow_state_for_outcome Outcome.implemented = pr_open
workflow_state_for_outcome Outcome.reviewed = pr_open
workflow_state_for_outcome Outcome.needs_changes = pr_open
workflow_state_for_outcome Outcome.needs_human = needs_human
workflow_state_for_outcome Outcome.blocked = blocked
workflow_state_for_outcome Outcome.failed = blocked

-- `workflow_label_text` of crates/donkeyspace-core/src/github_workflow.rs.
unfoldable pub workflow_label_text : WorkflowState → Text
workflow_label_text needs_info = lit "ai:needs-info"
workflow_label_text ready = lit "ai:ready"
workflow_label_text in_progress = lit "ai:in-progress"
workflow_label_text publishing = lit "ai:in-progress"
workflow_label_text pr_open = lit "ai:pr-open"
workflow_label_text needs_human = lit "ai:needs-human"
workflow_label_text blocked = lit "ai:blocked"
workflow_label_text finished = lit "ai:finished"
workflow_label_text cancelling = lit "ai:cancelling"
workflow_label_text cancelled = lit "ai:cancelled"
