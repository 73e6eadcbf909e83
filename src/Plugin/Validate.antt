-- ===== src/Plugin/Validate.antt =====
-- `PluginManifest::validate` of crates/donkeyspace-core/src/plugin.rs, loop by loop. A flow is
-- checked before the next one is read, its graph last.
pub mod Samples
mod Tests
pub mod Task
pub mod Accepted
use donkeyspace.Prelude.{
  ℕ, ◌≡◌, Bool, true, false, not, ◌&&◌, ◌||◌, List, [], ◌∷◌, ◌++◌, Option, none, some, is_some,
  Result, ok, err, map_err, fail_if, ok_or, ◌>>=◌, ◌>>◌, for_each, when_some, text_eq, ◌==◌, nat_eq,
  contains, contains_key, lookup, values, any, is_empty, if◌then◌else◌,
}
use donkeyspace.Text.{Text, lit, is_blank}
use donkeyspace.Facade
use donkeyspace.Plugin.{
  PluginError, invalid, Abort, fails, panics, PluginManifest, PluginInstallation,
  PluginEnvironmentVariable, PluginRole, PluginParameter, PluginResource, PluginFlow, PluginTask,
  PluginTaskScope, ExecutionPlanPolicy, TextMap, path, enum, workflow, work_item,
}
use donkeyspace.Plugin.Paths.{validate_relative_path}
use donkeyspace.Plugin.Templates.{
  is_environment_name, validate_safe_id, is_safe_enum, validate_filesystem_template,
  validate_display_text, validate_publication_title_template,
}
use donkeyspace.Plugin.Graph.{validate_task_graph}
use Task.{validate_task, validate_resource_assignments}

abbrev allows : Text → PluginRole → Bool
allows name role = contains role.environment name

validate_variable :
    PluginManifest → Text × PluginEnvironmentVariable → Result PluginError (Unit {0})
validate_variable m (name, variable) = do
  fail_if (not (is_environment_name name))
      (invalid (lit "invalid installation environment name `" ++ (name ++ lit "`")))
  fail_if (is_blank variable.description)
      (invalid (lit "installation environment `" ++ (name ++ lit "` requires a description")))
  fail_if (variable.secret && is_some variable.default)
      (invalid (lit "secret installation environment `" ++ (name ++ lit "` cannot have a default")))
  fail_if (not (any (allows name) (values m.roles)))
      (invalid (lit "installation environment `" ++ (name ++ lit "` is not allowed by any role")))

validate_installation : PluginManifest → PluginInstallation → Result PluginError (Unit {0})
validate_installation m i = do
  validate_relative_path i.build.context
  validate_relative_path i.build.dockerfile
  for_each (validate_variable m) i.environment

abbrev is_listed : List Text → Option Text → Bool
is_listed values none = true
is_listed values (some value) = contains values value

validate_parameter : Text × PluginParameter → Result PluginError (Unit {0})
validate_parameter (name, parameter) = do
  validate_safe_id (lit "parameter") name
  elim parameter [
    | path default ↦ when_some default validate_relative_path
    | enum values default ↦ (do
      fail_if (is_empty values || any (λ value. not (is_safe_enum value)) values)
          (invalid (lit "parameter `" ++ (name ++ lit "` has no safe enum values")))
      fail_if (not (is_listed values default))
          (invalid (lit "parameter `" ++ (name ++ lit "` default is not an allowed value"))))
    | _ ↦ ok tt
  ]

validate_resource : PluginManifest → Text × PluginResource → Result PluginError (Unit {0})
validate_resource m (id, resource) = do
  validate_safe_id (lit "resource") id
  validate_filesystem_template resource.path m.parameters false

validate_role : PluginManifest → Text × PluginRole → Result PluginError (Unit {0})
validate_role m (name, role) = do
  when_some role.display_name (validate_display_text (lit "role display_name"))
  fail_if (is_empty role.command) (invalid (lit "role `" ++ (name ++ lit "` command is empty")))
  for_each
      (λ server. fail_if (not (contains_key server m.mcp_servers)) (
        invalid (
          lit "role `"
          ++ (name ++ (lit "` references unknown MCP server `" ++ (server ++ lit "`"))))))
      role.mcp_servers
  validate_resource_assignments role.resources m.resources name

-- The loop over `optional_tasks`, with the names that it has seen.
pub optional_from : PluginFlow → List Text → List Text → Result PluginError (Unit {0})
optional_from flow seen [] = ok tt
optional_from flow seen (name ∷ names) = do
  fail_if (name == flow.start || not (contains_key name flow.tasks) || contains seen name)
      (invalid (lit "invalid optional execution-plan task `" ++ (name ++ lit "`")))
  optional_from flow (name ∷ seen) names

abbrev is_workflow_scope : PluginTaskScope → Bool
is_workflow_scope workflow = true
is_workflow_scope work_item = false

-- The checks of a flow before the start task is read.
flow_limits : Text → PluginFlow → Result PluginError (Unit {0})
flow_limits flow_name flow = do
  fail_if (not flow.replaces_default_lifecycle) (
      invalid (
        lit "flow `"
        ++ (flow_name
            ++ lit
                "` uses retired serial developer plugins; finish existing runs with the previous release, then select the built-in lifecycle or a full lifecycle plugin")))
  when_some flow.pull_request_title validate_publication_title_template
  fail_if (not (contains_key flow.start flow.tasks))
      (invalid (lit "flow `" ++ (flow_name ++ lit "` has unknown start task")))
  fail_if (nat_eq flow.max_handoffs_per_edge 0)
      (invalid (lit "flow `" ++ (flow_name ++ lit "` must allow at least one handoff")))
  fail_if (nat_eq flow.max_parallel_tasks 0)
      (invalid (lit "flow `" ++ (flow_name ++ lit "` must allow at least one parallel task")))
  fail_if (flow.replaces_default_lifecycle && not (is_some flow.work_items_path)) (
      invalid (lit "lifecycle-replacing flow `" ++ (flow_name ++ lit "` requires work_items_path")))

validate_plan_policy : PluginFlow → ExecutionPlanPolicy → Result PluginError (Unit {0})
validate_plan_policy flow plan = do
  fail_if (contains_key (lit "execution-plan") flow.tasks)
      (invalid (lit "execution-plan is reserved for scheduling approval"))
  optional_from flow [] plan.optional_tasks

-- Those behind it, but for the tasks.
flow_options : PluginManifest → Text → PluginFlow → PluginTask → Result PluginError (Unit {0})
unfolding validate_plan_policy
flow_options m flow_name flow start = do
  fail_if (flow.replaces_default_lifecycle && not (is_workflow_scope start.scope)) (
      invalid (
        lit "lifecycle-replacing flow `"
        ++ (flow_name ++ lit "` start task must have workflow scope")))
  when_some flow.work_items_path (λ p. validate_filesystem_template p m.parameters false)
  fail_if
      (flow.change_intake
        && (not flow.replaces_default_lifecycle || contains_key (lit "change") flow.tasks))
      (invalid (lit "change intake requires a lifecycle flow and reserves the task name `change`"))
  when_some flow.execution_plan (validate_plan_policy flow)

flow_header : PluginManifest → Text → PluginFlow → Result (Abort PluginError) (Unit {0})
unfolding flow_limits flow_options
flow_header m flow_name flow = do
  map_err fails (flow_limits flow_name flow)
  start ← ok_or (lookup flow.start flow.tasks) (panics flow.start)
  map_err fails (flow_options m flow_name flow start)

validate_flow : PluginManifest → Text × PluginFlow → Result (Abort PluginError) (Unit {0})
unfolding flow_header
validate_flow m (flow_name, flow) = do
  flow_header m flow_name flow
  map_err fails (for_each (validate_task m flow) flow.tasks)
  validate_task_graph flow_name flow

-- The checks before the flows.
manifest_header : PluginManifest → Result PluginError (Unit {0})
manifest_header m = do
  fail_if (not (nat_eq m.api_version 1)) (invalid (lit "api_version must be 1"))
  fail_if (is_blank m.id || is_empty m.default_image)
      (invalid (lit "id and runtime.default_image are required"))
  map_err invalid (Facade.validate m.facade)
  when_some m.installation (validate_installation m)
  for_each validate_parameter m.parameters
  for_each (validate_resource m) m.resources
  for_each (validate_role m) m.roles

pub validate : PluginManifest → Result (Abort PluginError) (Unit {0})
validate m = do map_err fails (manifest_header m); for_each (validate_flow m) m.flows
