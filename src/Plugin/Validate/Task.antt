-- ===== src/Plugin/Validate/Task.antt =====
-- The loop body over the tasks of a flow, in `PluginManifest::validate`.
use donkeyspace.Prelude.{
  ℕ, Bool, true, false, not, ◌&&◌, ◌||◌, List, ◌++◌, Result, fail_if, ◌>>◌, for_each, when_some,
  text_eq, ◌==◌, nat_eq, contains, contains_key, any, is_empty,
}
use donkeyspace.Text.{Text, lit, is_blank, contains_text}
use donkeyspace.Plugin.{
  PluginError, invalid, PluginManifest, PluginResource, PluginResourceAssignment, PluginArtifact,
  PluginValidator, PluginFlow, PluginTask, PluginTaskScope, TextMap, workflow, work_item,
}
use donkeyspace.Plugin.Templates.{
  validate_filesystem_template, validate_display_text, validate_publication_tag,
}

unfoldable pub validate_resource_assignments :
    List PluginResourceAssignment → TextMap PluginResource → Text → Result PluginError (Unit {0})
validate_resource_assignments assignments resources owner =
    for_each
      (λ (a : PluginResourceAssignment). fail_if (not (contains_key a.id resources)) (
        invalid
          (lit "`" ++ (owner ++ (lit "` references unknown resource `" ++ (a.id ++ lit "`"))))))
      assignments

-- `*`, `?`, `[` and `]`.
abbrev pub is_glob_char : ℕ → Bool
is_glob_char c = nat_eq c b'*' || nat_eq c b'?' || nat_eq c b'[' || nat_eq c b']'

-- Artifacts and diagnostics are checked alike, but for two words of the messages.
unfoldable pub validate_artifact :
    PluginManifest → Text → Text → Text → PluginArtifact → Result PluginError (Unit {0})
validate_artifact m task_name field noun a = do
  when_some a.display_name (validate_display_text field)
  fail_if (any is_glob_char a.path)
      (invalid (lit "task `" ++ (task_name ++ (lit "` " ++ (noun ++ lit " paths must be exact")))))
  validate_filesystem_template a.path m.parameters true

unfoldable pub validate_validator : Text → PluginValidator → Result PluginError (Unit {0})
validate_validator task_name v =
    fail_if (is_blank v.name || is_empty v.command)
      (invalid (lit "task `" ++ (task_name ++ lit "` has an invalid validator")))

abbrev pub is_work_item_scope : PluginTaskScope → Bool
is_work_item_scope work_item = true
is_work_item_scope workflow = false

-- The checks of what a task is called, reads and writes.
unfoldable pub task_files : PluginManifest → Text → PluginTask → Result PluginError (Unit {0})
task_files m task_name task = do
  when_some task.display_name (validate_display_text (lit "task display_name"))
  when_some task.approval_subject (validate_display_text (lit "task approval_subject"))
  when_some task.publication_tag validate_publication_tag
  fail_if (not (contains_key task.role m.roles)) (
      invalid (
        lit "task `"
        ++ (task_name ++ (lit "` references unknown role `" ++ (task.role ++ lit "`")))))
  for_each (λ p. validate_filesystem_template p m.parameters true) (task.read ++ task.write)
  fail_if
      (is_work_item_scope task.scope
        && any (λ p. not (contains_text (lit "{work_item}") p)) task.write)
      (invalid
        (lit "work-item task `" ++ (task_name ++ lit "` write paths must contain `{work_item}`")))
  validate_resource_assignments task.resources m.resources task_name
  for_each (validate_artifact m task_name (lit "artifact display_name") (lit "artifact"))
      (task.artifacts ++ task.preserve_on_success)
  for_each (validate_artifact m task_name (lit "diagnostic display_name") (lit "diagnostic"))
      task.diagnostics
  for_each (validate_validator task_name) task.validators

abbrev pub check_dependency : PluginFlow → Text → Text → Result PluginError (Unit {0})
check_dependency flow task_name dependency =
    fail_if (not (contains_key dependency flow.tasks) || dependency == task_name) (
      invalid (
        lit "task `"
        ++ (task_name ++ (lit "` has invalid dependency `" ++ (dependency ++ lit "`")))))

abbrev pub check_handoff : PluginFlow → Text → Text → Result PluginError (Unit {0})
check_handoff flow task_name target = fail_if (not (contains_key target flow.tasks)) (
    invalid
      (lit "task `" ++ (task_name ++ (lit "` references unknown target `" ++ (target ++ lit "`")))))

abbrev pub check_description : PluginTask → Text → Text × Text → Result PluginError (Unit {0})
check_description task task_name (target, description) = do
  fail_if (not (contains task.allowed_handoffs target)) (
      invalid (
        lit "task `"
        ++ (task_name ++ (lit "` describes undeclared handoff `" ++ (target ++ lit "`")))))
  validate_display_text (lit "handoff description") description

-- The checks of the names of other tasks.
unfoldable pub task_links : PluginFlow → Text → PluginTask → Result PluginError (Unit {0})
task_links flow task_name task = do
  for_each (check_dependency flow task_name) task.dependencies
  for_each (check_handoff flow task_name) task.allowed_handoffs
  for_each (check_description task task_name) task.handoff_descriptions

unfoldable pub validate_task :
    PluginManifest → PluginFlow → Text × PluginTask → Result PluginError (Unit {0})
unfolding task_files task_links validate_artifact validate_validator validate_resource_assignments
validate_task m flow (task_name, task) = do
  task_files m task_name task
  task_links flow task_name task
