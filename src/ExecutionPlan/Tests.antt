-- ===== src/ExecutionPlan/Tests.antt =====
-- A plan that leaves out the builds, resolved and applied.
use donkeyspace.Prelude.{
  ◌≡◌, refl, Bool, false, true, not, ◌&&◌, List, [], ◌∷◌, none, some, Result, ok, Memᴰ, text_eq,
  contains, contains_key,
}
use donkeyspace.Text.{Text, lit}
use donkeyspace.Plugin.{PluginFlow, no_approval, required}
use donkeyspace.Plugin.Samples.{sample_manifest, sample_flow, plan_task}
use donkeyspace.Plugin.Validate.Samples.{sample_accepted}
use donkeyspace.Plugin.Validate.Accepted.{validate-IsRunnable, links_known}
use donkeyspace.Plugin.Graph.{HasKnownDependencies}
use donkeyspace.ExecutionPlan.{ExecutionPlan, ExecutionPlanProposal, resolve, apply}
use donkeyspace.ExecutionPlan.Effective.{apply-HasKnownDependencies}
use donkeyspace.ExecutionPlan.Applies.{resolve-apply}

abbrev planned_flow : PluginFlow
planned_flow = record sample_flow {
  execution_plan = some (record { optional_tasks = lit "build" ∷ [] });
}

abbrev without_build : ExecutionPlanProposal
without_build = record {
  excluded_tasks = lit "build" ∷ [];
  approval_tasks = [];
  reason = lit "docs only";
}

abbrev sample_plan : ExecutionPlan
sample_plan = record {
  revision = 1;
  proposal = without_build;
  work_items = [];
  approved = false;
  tasks =
      (
        lit "build",
        record {
          display_name = lit "build";
          included = false;
          approval = no_approval;
          dependencies = lit "plan" ∷ [];
        },
      )
      ∷ (
        lit "plan",
        record {
          display_name = lit "Plan";
          included = true;
          approval = required;
          dependencies = [];
        },
      )
      ∷ [];
}

abbrev effective_flow : PluginFlow
effective_flow = record planned_flow {
  tasks = (lit "plan", record plan_task { approval = required }) ∷ [];
}

sample_resolved : resolve planned_flow (some without_build) [] 1 ≡ ok sample_plan
unfolding resolve lit donkeyspace.Prelude.lookup donkeyspace.Prelude.list_eq
sample_resolved = refl

sample_applied : apply sample_plan planned_flow ≡ ok effective_flow
unfolding apply lit donkeyspace.Prelude.lookup donkeyspace.Prelude.list_eq
sample_applied = refl

planned-HasKnownDependencies : HasKnownDependencies planned_flow
planned-HasKnownDependencies =
    let r =
      validate-IsRunnable sample_manifest (lit "main") sample_flow sample_accepted
        (Memᴰ.head refl) in
    links_known sample_flow r.links

apply-HasKnownDependencies_example :
    HasKnownDependencies effective_flow
    × ((name : Text)
        → contains_key name effective_flow.tasks ≡ (
            contains_key name planned_flow.tasks
            && not (contains sample_plan.proposal.excluded_tasks name)))
apply-HasKnownDependencies_example =
    apply-HasKnownDependencies sample_plan planned_flow effective_flow sample_applied
      planned-HasKnownDependencies

resolve-apply_example : (effective : PluginFlow) × (apply sample_plan planned_flow ≡ ok effective)
resolve-apply_example =
    resolve-apply planned_flow (some without_build) [] 1 sample_plan sample_resolved
