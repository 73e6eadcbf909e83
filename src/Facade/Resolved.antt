-- ===== src/Facade/Resolved.antt =====
-- crates/donkeyspace-cli/src/lib.rs: the facade of a deployment, put together from the
-- configurations of the active plugin, of the policy and of the setup. They are arguments here;
-- reading them from files is left out, and so is the failure of that.
use donkeyspace.Prelude.{Option, none, some, Result, ok, ◌>>◌}
use donkeyspace.Text.{Text}
use donkeyspace.Facade.{FacadeConfig, Facade, overlay, resolve, validate, empty_config}

-- The `if let` on the active plugin.
abbrev pub overlay_plugin : Option FacadeConfig → FacadeConfig → FacadeConfig
overlay_plugin none facade = facade
overlay_plugin (some plugin) facade = overlay facade plugin

-- An error carries the text of `SetupError::Config`.
unfoldable pub resolved_facade :
    Option FacadeConfig → FacadeConfig → FacadeConfig → Result Text Facade
unfolding validate
resolved_facade plugin policy config =
    let facade = overlay (overlay (overlay_plugin plugin empty_config) policy) config in
    validate facade >> ok (resolve facade)
