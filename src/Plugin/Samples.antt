-- ===== src/Plugin/Samples.antt =====
-- A small plugin with one flow, for the tests: a plan and, for each work item, a build.
use donkeyspace.Prelude.{true, false, List, [], ◌∷◌, none, some}
use donkeyspace.Text.{Text, lit}
use donkeyspace.Facade.{empty_config}
use donkeyspace.Plugin.{
  PluginManifest, PluginFlow, PluginTask, PluginRole, PluginWorkItem, no_approval, workflow,
  work_item,
}

abbrev pub plan_task : PluginTask
plan_task = record {
  display_name = some (lit "Plan");
  approval_subject = none;
  publication_tag = none;
  role = lit "architect";
  scope = workflow;
  dependencies = [];
  depends_on_work_items = false;
  read = [];
  write = [];
  resources = [];
  artifacts = [];
  preserve_on_success = [];
  diagnostics = [];
  validators = [];
  allowed_handoffs = [];
  handoff_descriptions = [];
  approval = no_approval;
}

abbrev pub build_task : PluginTask
build_task = record plan_task {
  display_name = none;
  scope = work_item;
  dependencies = lit "plan" ∷ [];
  depends_on_work_items = true;
}

abbrev pub sample_flow : PluginFlow
sample_flow = record {
  start = lit "plan";
  execution_plan = none;
  change_intake = false;
  pull_request_title = some (lit "{issue_title}");
  replaces_default_lifecycle = true;
  work_items_path = some (lit "docs/items");
  project_github_issues = false;
  max_handoffs_per_edge = 1;
  max_parallel_tasks = 2;
  tasks = (lit "build", build_task) ∷ (lit "plan", plan_task) ∷ [];
}

abbrev pub architect : PluginRole
architect = record {
  display_name = none;
  command = lit "run" ∷ [];
  image = none;
  environment = [];
  mcp_servers = [];
  resources = [];
}

abbrev pub sample_manifest : PluginManifest
sample_manifest = record {
  api_version = 1;
  id = lit "demo";
  facade = empty_config;
  default_image = lit "demo:1";
  installation = none;
  parameters = [];
  resources = [];
  mcp_servers = [];
  roles = (lit "architect", architect) ∷ [];
  flows = (lit "main", sample_flow) ∷ [];
}

abbrev pub item_of_id : Text → List Text → PluginWorkItem Text
item_of_id id depends_on = record {
  id = id;
  spec = lit "docs/item.md";
  depends_on = depends_on;
  metadata = [];
}

abbrev pub sample_items : List (PluginWorkItem Text)
sample_items = item_of_id (lit "a") [] ∷ item_of_id (lit "b") (lit "a" ∷ []) ∷ []

-- A summary of the whole workflow after the builds of its work items.
abbrev pub stuck_flow : PluginFlow
stuck_flow = record sample_flow {
  tasks =
      (lit "build", build_task)
      ∷ (lit "plan", plan_task)
      ∷ (lit "summary", record plan_task { dependencies = lit "build" ∷ [] })
      ∷ [];
}

-- A build that may hand off to notes that it does not depend on.
abbrev pub stray_flow : PluginFlow
stray_flow = record sample_flow {
  tasks =
      (lit "build", record build_task { allowed_handoffs = lit "notes" ∷ [] })
      ∷ (lit "notes", record plan_task { dependencies = lit "plan" ∷ [] })
      ∷ (lit "plan", plan_task)
      ∷ [];
}
