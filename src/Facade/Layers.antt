-- ===== src/Facade/Layers.antt =====
-- Which names the layers of a deployment's configuration resolve to.
use donkeyspace.Prelude.{List, [], ◌∷◌, Option, none, some}
use donkeyspace.Text.{Text}
use donkeyspace.Facade.{FacadeConfig, Facade, overlay, empty_config, default_facade}
use donkeyspace.Facade.Names.{IsText, IsSlug}
use donkeyspace.Facade.Resolved.{overlay_plugin}

-- The first name that is given, else the default.
abbrev pub first_given : Text → List (Option Text) → Text
first_given default [] = default
first_given default (some name ∷ rest) = name
first_given default (none ∷ rest) = first_given default rest

-- What each layer says of one name, the setup first.
abbrev pub layers :
    (FacadeConfig → Option Text)
    → Option FacadeConfig
    → FacadeConfig
    → FacadeConfig
    → List (Option Text)
layers name none policy config = name config ∷ name policy ∷ []
layers name (some plugin) policy config = name config ∷ name policy ∷ name plugin ∷ []

abbrev pub by_precedence : Option FacadeConfig → FacadeConfig → FacadeConfig → Facade
by_precedence plugin policy config = record {
  display_name =
      first_given default_facade.display_name (layers (λ c. c.display_name) plugin policy config);
  tagline = first_given default_facade.tagline (layers (λ c. c.tagline) plugin policy config);
  command = first_given default_facade.command (layers (λ c. c.command) plugin policy config);
  branch_prefix =
      first_given default_facade.branch_prefix (layers (λ c. c.branch_prefix) plugin policy config);
}

-- Every name is one that may be printed into commands, branches and messages.
pub record HasValidNames (f : Facade) : Type 0 where
  pub display_name : IsText f.display_name
  pub tagline : IsText f.tagline
  pub command : IsSlug 32 f.command
  pub branch_prefix : IsSlug 64 f.branch_prefix

-- The overlays, field by field.
layered : Option FacadeConfig → FacadeConfig → FacadeConfig → FacadeConfig
layered plugin policy config = overlay (overlay (overlay_plugin plugin empty_config) policy) config
