-- ===== src/Plugin/Validate/Samples.antt =====
-- The sample plugin passes the checks of its manifest.
use donkeyspace.Prelude.{◌≡◌, refl, List, [], ◌∷◌, Result, ok}
use donkeyspace.Text.{lit}
use donkeyspace.Plugin.Samples.{sample_manifest, stuck_flow, stray_flow}
use donkeyspace.Plugin.Validate.{validate}

pub sample_accepted : validate sample_manifest ≡ ok tt
unfolding validate lit donkeyspace.Plugin.Validate.manifest_header donkeyspace.Text.is_blank
    donkeyspace.Facade.validate donkeyspace.Plugin.Validate.validate_role
    donkeyspace.Plugin.Validate.Task.validate_resource_assignments
    donkeyspace.Plugin.Validate.validate_flow
    donkeyspace.Plugin.Templates.validate_publication_title_template donkeyspace.Text.is_control
    donkeyspace.Text.split_once donkeyspace.Prelude.list_eq donkeyspace.Prelude.lookup
    donkeyspace.Plugin.Templates.validate_filesystem_template
    donkeyspace.Plugin.Paths.validate_repository_path donkeyspace.Text.eq_ignore_ascii_case
    donkeyspace.Plugin.Paths.component_text donkeyspace.Plugin.Validate.Task.validate_task
    donkeyspace.Plugin.Templates.validate_display_text donkeyspace.DepthFirst.search_all
    donkeyspace.DepthFirst.visit donkeyspace.DepthFirst.visit_each
    donkeyspace.Facade.valid_branch_prefix donkeyspace.Facade.valid_command
    donkeyspace.Facade.valid_slug donkeyspace.Facade.validate_text
    donkeyspace.Plugin.Graph.graph_outcome donkeyspace.Plugin.Graph.validate_task_graph
    donkeyspace.Plugin.Paths.components donkeyspace.Plugin.Paths.is_absolute
    donkeyspace.Plugin.Paths.validate_relative_path donkeyspace.Plugin.Templates.expand_all
    donkeyspace.Plugin.Templates.expand_one donkeyspace.Plugin.Templates.is_environment_name
    donkeyspace.Plugin.Templates.is_safe_enum donkeyspace.Plugin.Templates.placeholders
    donkeyspace.Plugin.Templates.placeholders_from
    donkeyspace.Plugin.Templates.validate_publication_tag
    donkeyspace.Plugin.Templates.validate_safe_id donkeyspace.Plugin.Validate.Task.task_files
    donkeyspace.Plugin.Validate.Task.task_links donkeyspace.Plugin.Validate.Task.validate_artifact
    donkeyspace.Plugin.Validate.Task.validate_validator donkeyspace.Plugin.Validate.flow_header
    donkeyspace.Plugin.Validate.flow_limits donkeyspace.Plugin.Validate.flow_options
    donkeyspace.Plugin.Validate.optional_from donkeyspace.Plugin.Validate.validate_installation
    donkeyspace.Plugin.Validate.validate_parameter donkeyspace.Plugin.Validate.validate_plan_policy
    donkeyspace.Plugin.Validate.validate_resource donkeyspace.Plugin.Validate.validate_variable
    donkeyspace.Text.drop_while donkeyspace.Text.is_ascii_alphanumeric
    donkeyspace.Text.is_ascii_digit donkeyspace.Text.is_ascii_lowercase
    donkeyspace.Text.is_ascii_uppercase donkeyspace.Text.is_whitespace donkeyspace.Text.lower_char
    donkeyspace.Text.to_ascii_lowercase donkeyspace.Text.trim donkeyspace.Text.trim_end_matches
    donkeyspace.Text.trim_matches donkeyspace.Text.contains_text donkeyspace.Text.replace
    donkeyspace.Text.split_at donkeyspace.Text.starts_with donkeyspace.Text.strip_prefix
    donkeyspace.Text.split_on
sample_accepted = refl

-- A task of the workflow may depend on a task of the work items, as far as `validate` goes.
stuck_accepted : validate (record sample_manifest { flows = (lit "main", stuck_flow) ∷ [] }) ≡ ok tt
unfolding validate lit donkeyspace.Plugin.Validate.manifest_header donkeyspace.Text.is_blank
    donkeyspace.Facade.validate donkeyspace.Plugin.Validate.validate_role
    donkeyspace.Plugin.Validate.Task.validate_resource_assignments
    donkeyspace.Plugin.Validate.validate_flow
    donkeyspace.Plugin.Templates.validate_publication_title_template donkeyspace.Text.is_control
    donkeyspace.Text.split_once donkeyspace.Prelude.list_eq donkeyspace.Prelude.lookup
    donkeyspace.Plugin.Templates.validate_filesystem_template
    donkeyspace.Plugin.Paths.validate_repository_path donkeyspace.Text.eq_ignore_ascii_case
    donkeyspace.Plugin.Paths.component_text donkeyspace.Plugin.Validate.Task.validate_task
    donkeyspace.Plugin.Templates.validate_display_text donkeyspace.DepthFirst.search_all
    donkeyspace.DepthFirst.visit donkeyspace.DepthFirst.visit_each
    donkeyspace.Facade.valid_branch_prefix donkeyspace.Facade.valid_command
    donkeyspace.Facade.valid_slug donkeyspace.Facade.validate_text
    donkeyspace.Plugin.Graph.graph_outcome donkeyspace.Plugin.Graph.validate_task_graph
    donkeyspace.Plugin.Paths.components donkeyspace.Plugin.Paths.is_absolute
    donkeyspace.Plugin.Paths.validate_relative_path donkeyspace.Plugin.Templates.expand_all
    donkeyspace.Plugin.Templates.expand_one donkeyspace.Plugin.Templates.is_environment_name
    donkeyspace.Plugin.Templates.is_safe_enum donkeyspace.Plugin.Templates.placeholders
    donkeyspace.Plugin.Templates.placeholders_from
    donkeyspace.Plugin.Templates.validate_publication_tag
    donkeyspace.Plugin.Templates.validate_safe_id donkeyspace.Plugin.Validate.Task.task_files
    donkeyspace.Plugin.Validate.Task.task_links donkeyspace.Plugin.Validate.Task.validate_artifact
    donkeyspace.Plugin.Validate.Task.validate_validator donkeyspace.Plugin.Validate.flow_header
    donkeyspace.Plugin.Validate.flow_limits donkeyspace.Plugin.Validate.flow_options
    donkeyspace.Plugin.Validate.optional_from donkeyspace.Plugin.Validate.validate_installation
    donkeyspace.Plugin.Validate.validate_parameter donkeyspace.Plugin.Validate.validate_plan_policy
    donkeyspace.Plugin.Validate.validate_resource donkeyspace.Plugin.Validate.validate_variable
    donkeyspace.Text.drop_while donkeyspace.Text.is_ascii_alphanumeric
    donkeyspace.Text.is_ascii_digit donkeyspace.Text.is_ascii_lowercase
    donkeyspace.Text.is_ascii_uppercase donkeyspace.Text.is_whitespace donkeyspace.Text.lower_char
    donkeyspace.Text.to_ascii_lowercase donkeyspace.Text.trim donkeyspace.Text.trim_end_matches
    donkeyspace.Text.trim_matches donkeyspace.Text.contains_text donkeyspace.Text.replace
    donkeyspace.Text.split_at donkeyspace.Text.starts_with donkeyspace.Text.strip_prefix
    donkeyspace.Text.split_on
stuck_accepted = refl

-- A task may hand off to any task of the flow, as far as `validate` goes.
stray_accepted : validate (record sample_manifest { flows = (lit "main", stray_flow) ∷ [] }) ≡ ok tt
unfolding validate lit donkeyspace.Plugin.Validate.manifest_header donkeyspace.Text.is_blank
    donkeyspace.Facade.validate donkeyspace.Plugin.Validate.validate_role
    donkeyspace.Plugin.Validate.Task.validate_resource_assignments
    donkeyspace.Plugin.Validate.validate_flow
    donkeyspace.Plugin.Templates.validate_publication_title_template donkeyspace.Text.is_control
    donkeyspace.Text.split_once donkeyspace.Prelude.list_eq donkeyspace.Prelude.lookup
    donkeyspace.Plugin.Templates.validate_filesystem_template
    donkeyspace.Plugin.Paths.validate_repository_path donkeyspace.Text.eq_ignore_ascii_case
    donkeyspace.Plugin.Paths.component_text donkeyspace.Plugin.Validate.Task.validate_task
    donkeyspace.Plugin.Templates.validate_display_text donkeyspace.DepthFirst.search_all
    donkeyspace.DepthFirst.visit donkeyspace.DepthFirst.visit_each
    donkeyspace.Facade.valid_branch_prefix donkeyspace.Facade.valid_command
    donkeyspace.Facade.valid_slug donkeyspace.Facade.validate_text
    donkeyspace.Plugin.Graph.graph_outcome donkeyspace.Plugin.Graph.validate_task_graph
    donkeyspace.Plugin.Paths.components donkeyspace.Plugin.Paths.is_absolute
    donkeyspace.Plugin.Paths.validate_relative_path donkeyspace.Plugin.Templates.expand_all
    donkeyspace.Plugin.Templates.expand_one donkeyspace.Plugin.Templates.is_environment_name
    donkeyspace.Plugin.Templates.is_safe_enum donkeyspace.Plugin.Templates.placeholders
    donkeyspace.Plugin.Templates.placeholders_from
    donkeyspace.Plugin.Templates.validate_publication_tag
    donkeyspace.Plugin.Templates.validate_safe_id donkeyspace.Plugin.Validate.Task.task_files
    donkeyspace.Plugin.Validate.Task.task_links donkeyspace.Plugin.Validate.Task.validate_artifact
    donkeyspace.Plugin.Validate.Task.validate_validator donkeyspace.Plugin.Validate.flow_header
    donkeyspace.Plugin.Validate.flow_limits donkeyspace.Plugin.Validate.flow_options
    donkeyspace.Plugin.Validate.optional_from donkeyspace.Plugin.Validate.validate_installation
    donkeyspace.Plugin.Validate.validate_parameter donkeyspace.Plugin.Validate.validate_plan_policy
    donkeyspace.Plugin.Validate.validate_resource donkeyspace.Plugin.Validate.validate_variable
    donkeyspace.Text.drop_while donkeyspace.Text.is_ascii_alphanumeric
    donkeyspace.Text.is_ascii_digit donkeyspace.Text.is_ascii_lowercase
    donkeyspace.Text.is_ascii_uppercase donkeyspace.Text.is_whitespace donkeyspace.Text.lower_char
    donkeyspace.Text.to_ascii_lowercase donkeyspace.Text.trim donkeyspace.Text.trim_end_matches
    donkeyspace.Text.trim_matches donkeyspace.Text.contains_text donkeyspace.Text.replace
    donkeyspace.Text.split_at donkeyspace.Text.starts_with donkeyspace.Text.strip_prefix
    donkeyspace.Text.split_on
stray_accepted = refl
