-- ===== src/Approvals.antt =====
-- Approvals: crates/donkeyspace-worker/src/plugin_flow/approvals.rs (the pending approvals, what a
-- human decision selects, where a handoff leads) and `approval_commands` of
-- crates/donkeyspace-core/src/approval.rs. Database requests and result texts are left out.
pub mod Selection
mod Tests
use donkeyspace.Prelude.{
  ℕ, ◌≡◌, refl, Bool, true, false, not, ◌&&◌, List, [], ◌∷◌, ◌++◌, Option, none, some, Result, ok,
  err, ok_or, ◌>>=◌, text_eq, ◌==◌, option_eq, find, length, nat_eq, if◌then◌else◌, lookup,
}
use donkeyspace.Text.{Text, lit}
use donkeyspace.Facade.{Facade, issue_command}
use donkeyspace.Plugin.{PluginFlow, PluginTaskScope, workflow, work_item}
use donkeyspace.TaskGraph.{TaskKey, target}

pub data ApprovalTrigger : Type 0 where
  required agent_requested : ApprovalTrigger

pub record PendingApproval : Type 0 where
  pub key : TaskKey
  pub trigger : ApprovalTrigger

abbrev pub is_agent_requested : ApprovalTrigger → Bool
is_agent_requested required = false
is_agent_requested agent_requested = true

pub data HumanDecision : Type 0 where
  approve : (target : Option Text) → HumanDecision
  revise : (target : Option Text) (feedback : Text) → HumanDecision

pub record ApprovalCommands : Type 0 where
  pub approve : Text
  pub revise : Text

unfoldable pub approval_commands : TaskKey → Facade → ApprovalCommands
unfolding target issue_command
approval_commands k facade = record {
  approve = issue_command facade ++ (lit " approve " ++ target k);
  revise = issue_command facade ++ (lit " revise " ++ target k);
}

handoff_item : PluginTaskScope → TaskKey → Text → Result Text (Option Text)
handoff_item workflow source name = ok none
handoff_item work_item source name = do
  item ← ok_or source.work_item (
      lit "workflow task `"
      ++ (source.task
          ++ (lit "` cannot hand off to work-item task `"
              ++ (name ++ lit "` without a work item"))))
  ok (some item)

unfoldable pub normalize_handoff_target : PluginFlow → TaskKey → Text → Result Text TaskKey
unfolding handoff_item
normalize_handoff_target flow source name = do
  task ← ok_or (lookup name flow.tasks) (lit "handoff targets unknown task `" ++ (name ++ lit "`"))
  item ← handoff_item task.scope source name
  ok (record { work_item = item; task = name })

abbrev pub target_of_decision : HumanDecision → Option Text
target_of_decision (approve t) = t
target_of_decision (revise t feedback) = t

abbrev pub is_revise : HumanDecision → Bool
is_revise (approve t) = false
is_revise (revise t feedback) = true

-- The answer when the decision names a target.
select_target : List PendingApproval → HumanDecision → Text → Result Text (List PendingApproval)
unfolding target
select_target pending decision name =
    if name == lit "all"
    then (if is_revise decision
        then err (lit "revision feedback must target one task")
        else ok pending)
    else (ok_or (find (λ (a : PendingApproval). target a.key == name) pending)
          (lit "no pending approval matches `" ++ (name ++ lit "`"))
        >>= λ a. ok (a ∷ []))

select_for : List PendingApproval → HumanDecision → Option Text → Result Text (List PendingApproval)
unfolding select_target
select_for pending decision (some name) = select_target pending decision name
select_for pending decision none =
    if nat_eq (length pending) 1
    then ok pending
    else err (lit "an approval target is required when multiple tasks are pending")

unfoldable pub select_pending_approvals :
    List PendingApproval → HumanDecision → Result Text (List PendingApproval)
unfolding select_for
select_pending_approvals pending decision =
    select_for pending decision (target_of_decision decision)
