-- ===== src/Plugin.antt =====
-- The plugin manifest of crates/donkeyspace-core/src/plugin.rs: its types. A `BTreeMap` is the list
-- of its entries in key order. `PluginError::Invalid` carries the text of its message; the other
-- two errors come from reading the file, which is left out.
pub mod Samples
mod Tests
pub mod Paths
pub mod Templates
pub mod Graph
pub mod Validate
pub mod WorkItems
use donkeyspace.Prelude.{ℕ, ℤ, Bool, List, Option}
use donkeyspace.Text.{Text}
use donkeyspace.Facade.{FacadeConfig}

abbrev pub TextMap : Type 0 → Type 0
TextMap V = List (Text × V)

pub data PluginError : Type 0 where
  invalid : Text → PluginError

-- How a modelled call ends badly: with an error, with a panic at an index or an `expect`, or, in the
-- model alone, for want of fuel.
pub data Abort (E : Type 0) : Type 0 where
  fails : E → Abort E
  panics : Text → Abort E
  out_of_fuel : Abort E

pub record PluginBuild : Type 0 where
  pub context : Text
  pub dockerfile : Text

pub record PluginEnvironmentVariable : Type 0 where
  pub description : Text
  pub required : Bool
  pub secret : Bool
  pub default : Option Text

pub record PluginInstallation : Type 0 where
  pub build : PluginBuild
  pub environment : TextMap PluginEnvironmentVariable

pub record PluginResourceAssignment : Type 0 where
  pub id : Text
  pub required : Bool

pub record PluginRole : Type 0 where
  pub display_name : Option Text
  pub command : List Text
  pub image : Option Text
  pub environment : List Text
  pub mcp_servers : List Text
  pub resources : List PluginResourceAssignment

pub data PluginParameter : Type 0 where
  path : (default : Option Text) → PluginParameter
  enum : (values : List Text) (default : Option Text) → PluginParameter
  string : (default : Option Text) → PluginParameter
  integer : (default : Option ℤ) → PluginParameter
  boolean : (default : Option Bool) → PluginParameter

pub data PluginResourceSource : Type 0 where
  plugin repository : PluginResourceSource

pub record PluginResource : Type 0 where
  pub source : PluginResourceSource
  pub path : Text

pub data PluginApprovalMode : Type 0 where
  no_approval required : PluginApprovalMode

pub data PluginArtifactType : Type 0 where
  file directory : PluginArtifactType

pub record PluginArtifact : Type 0 where
  pub path : Text
  pub kind : PluginArtifactType
  pub required : Bool
  pub display_name : Option Text

pub record PluginValidator : Type 0 where
  pub name : Text
  pub command : List Text

pub data PluginTaskScope : Type 0 where
  workflow work_item : PluginTaskScope

pub record PluginTask : Type 0 where
  pub display_name : Option Text
  pub approval_subject : Option Text
  pub publication_tag : Option Text
  pub role : Text
  pub scope : PluginTaskScope
  pub dependencies : List Text
  pub depends_on_work_items : Bool
  pub read : List Text
  pub write : List Text
  pub resources : List PluginResourceAssignment
  pub artifacts : List PluginArtifact
  pub preserve_on_success : List PluginArtifact
  pub diagnostics : List PluginArtifact
  pub validators : List PluginValidator
  pub allowed_handoffs : List Text
  pub handoff_descriptions : TextMap Text
  pub approval : PluginApprovalMode

-- `ExecutionPlanPolicy` of crates/donkeyspace-core/src/execution_plan.rs.
pub record ExecutionPlanPolicy : Type 0 where
  pub optional_tasks : List Text

pub record PluginFlow : Type 0 where
  pub start : Text
  pub execution_plan : Option ExecutionPlanPolicy
  pub change_intake : Bool
  pub pull_request_title : Option Text
  pub replaces_default_lifecycle : Bool
  pub work_items_path : Option Text
  pub project_github_issues : Bool
  pub max_handoffs_per_edge : ℕ
  pub max_parallel_tasks : ℕ
  pub tasks : TextMap PluginTask

pub data McpServerDefinition : Type 0 where
  stdio : (command environment : List Text) → McpServerDefinition
  http : (url : Text) (environment : List Text) → McpServerDefinition

pub record PluginManifest : Type 0 where
  pub api_version : ℕ
  pub id : Text
  pub facade : FacadeConfig
  pub default_image : Text
  pub installation : Option PluginInstallation
  pub parameters : TextMap PluginParameter
  pub resources : TextMap PluginResource
  pub mcp_servers : TextMap McpServerDefinition
  pub roles : TextMap PluginRole
  pub flows : TextMap PluginFlow

-- `PluginWorkItem`. Its metadata are JSON values, which come from a library and stay abstract.
pub record PluginWorkItem (Value : Type 0) : Type 0 where
  pub id : Text
  pub spec : Text
  pub depends_on : List Text
  pub metadata : TextMap Value
