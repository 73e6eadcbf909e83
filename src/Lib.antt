-- ===== src/Lib.antt =====
-- Verification of the core of donkeyspace, a harness that lets agents work on the issues of a
-- repository: a plugin manifest describes flows of tasks, the policy says what may run unattended,
-- and the worker schedules the tasks of a flow over work items and decides what their results mean.
--
-- Parts and files:
--   Prelude, Text       shared helpers: Boolean tests, lists, results, maps (`BTreeMap` as the list of
--                       its entries in key order), sets; texts as lists of code points with the
--                       operations of `str` that the source calls.
--   DepthFirst          the search with marks for dependency cycles, shared by `validate_task_graph`
--                       (crates/donkeyspace-core/src/plugin.rs) and `validate_work_items`
--                       (crates/donkeyspace-worker/src/plugin_flow.rs).
--   Facade              crates/donkeyspace-core/src/facade.rs: product names in layers; which names are
--                       accepted (Names). Resolved is `resolved_facade` of
--                       crates/donkeyspace-cli/src/lib.rs, which overlays the layers of a deployment,
--                       and Layers says what comes of them.
--   Repository          crates/donkeyspace-core/src/repository.rs: lists of repositories.
--   State               crates/donkeyspace-core/src/state.rs and `workflow_label_text` of
--                       github_workflow.rs: workflow states and the labels that stand for them.
--   RunResult           crates/donkeyspace-core/src/run_result.rs; RunResult.Merge is `max_risk` and
--                       `min_confidence` of plugin_flow.rs and `apply_validator_results` of
--                       plugin_flow/execution.rs in crates/donkeyspace-worker/src.
--   Policy              crates/donkeyspace-core/src/policy.rs: Engagement (who may start work), Labels
--                       (`automation_decision_for_labels`), Risk (`apply_result_routing`) and
--                       PathPattern (`path_matches`).
--   Plugin              crates/donkeyspace-core/src/plugin.rs: the manifest (Plugin), paths and
--                       templates (Paths, with the accepted paths in Paths.Decides, and Templates), cycles
--                       (Graph) and `PluginManifest::validate` (Validate, its tasks in Validate.Task);
--                       WorkItems is the registry of work items of
--                       crates/donkeyspace-worker/src/plugin_flow.rs.
--   ExecutionPlan       crates/donkeyspace-core/src/execution_plan.rs: `resolve` and `apply`, by which a
--                       human leaves tasks out or asks for approvals; the flow that `apply` gives
--                       (Effective), and that a resolved plan applies (Applies).
--   TaskGraph           crates/donkeyspace-worker/src/plugin_task_graph.rs: `for_work_items` (Build),
--                       which tasks are ready (Progress), the updates (Updates) and `affected_by`
--                       (Affected), and which tasks they complete (Completed, Build.Starts). A manifest
--                       and a registry that pass their checks give the graph that the scheduler runs
--                       (Build.Accepted).
--   Access              the access of a task to paths, of crates/donkeyspace-worker/src/plugin_flow/
--                       execution.rs: `resolve_access`, `covered`, `validate_changed_files`.
--   Approvals           plugin_flow/approvals.rs in crates/donkeyspace-worker/src and `approval_commands`
--                       of crates/donkeyspace-core/src/approval.rs; Selection is about decisions.
--   Lifecycle           the loop over task waves of `run_lifecycle` in
--                       crates/donkeyspace-worker/src/plugin_flow.rs, over the `LifecycleState` of
--                       plugin_flow/checkpoint.rs: recording, completions and new plans (Lifecycle),
--                       what becomes of each outcome (Settle, its cases in Settle.Cases), one wave and
--                       the loop (Wave). Wave.Frame, Wave.Unpaused and Wave.Settled take a wave apart,
--                       Wave.Runs and its children are about whole runs, Wave.Pauses about what a pause
--                       lists. The loop uses TaskGraph, Approvals, Plugin.WorkItems and RunResult.Merge.
--
-- How the code is modelled: `&mut self` methods return the new value; `Result` is a data type with the
-- source's messages, except that the two messages of the task graph leave out the debug form of the
-- key. A panic at an index or an `expect` is an outcome of its own (`panics` in `Abort`, an error of
-- `for_work_items`). Records leave out the fields that no modelled code reads. A `BTreeSet` that is
-- only asked for membership or size is a list in an order that nothing reads. What the lifecycle calls
-- outside (the agents, the checkpoint store, the registry in the checkout and its specification files)
-- is the record `Outside`, a parameter; the ways to leave the loop are the data type `Exit`.
--
-- Fuel: the search for cycles gets one level more than there are names, since no name is twice on the
-- path; `affected_by` gets one round more than there are tasks, since each round but the last adds
-- one; the loop of the lifecycle ends with the 64th wave at the latest; `placeholders` gets one step
-- more than the text is long. That this is enough is part of the theorems on these functions.
--
-- Not modelled: reading YAML and JSON, the database, the HTTP API, the GitHub client, the command line
-- but for `resolved_facade`, the runner, containers, git and publication, which are I/O; of the
-- lifecycle the loading of a checkpoint, the execution of a task but for its access to paths, tracked
-- jobs, events, commits and projected issues; change requests and pull-request revisions.
pub mod Access
pub mod Approvals
pub mod DepthFirst
pub mod ExecutionPlan
pub mod Facade
pub mod Lifecycle
pub mod Plugin
pub mod Policy
pub mod Prelude
pub mod Repository
pub mod RunResult
pub mod State
pub mod TaskGraph
pub mod Text
