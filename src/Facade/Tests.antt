-- ===== src/Facade/Tests.antt =====
-- The facade's theorems at concrete configurations.
use donkeyspace.Prelude.{◌≡◌, ◌↔◌, refl, none, some, ok}
use donkeyspace.Text.{lit}
use donkeyspace.Facade.{
  FacadeConfig, Facade, validate, resolve, empty_config, default_branch_prefix,
}
use donkeyspace.Facade.Laws.{IsPresentable, resolve-IsPresentable}
use donkeyspace.Facade.Names.{IsValid, validate_iff}
use donkeyspace.Facade.Resolved.{resolved_facade}

abbrev base : FacadeConfig
base = record {
  display_name = some (lit "Donkey");
  tagline = none;
  command = some (lit "donk");
  branch_prefix = none;
}

abbrev layer : FacadeConfig
layer = record {
  display_name = none;
  tagline = some (lit "Hee-haw");
  command = some (lit "mule");
  branch_prefix = some (lit "mule");
}

base_accepted : validate base ≡ ok tt
unfolding validate lit donkeyspace.Text.is_blank donkeyspace.Text.is_control
base_accepted = refl

layer_accepted : validate layer ≡ ok tt
unfolding validate lit donkeyspace.Text.is_blank donkeyspace.Text.is_control
layer_accepted = refl

resolve-IsPresentable_example : IsPresentable (resolve layer)
resolve-IsPresentable_example = resolve-IsPresentable layer layer_accepted

validate_iff_example : (validate base ≡ ok tt) ↔ IsValid base
validate_iff_example = validate_iff base

-- The plugin says `donk`, the policy `mule` for the same command, and the setup another tagline.
abbrev setup : FacadeConfig
setup = record empty_config { tagline = some (lit "Bray") }

abbrev deployed : Facade
deployed = record {
  display_name = lit "Donkey";
  tagline = lit "Bray";
  command = lit "mule";
  branch_prefix = lit "mule";
}

deployment : resolved_facade (some base) layer setup ≡ ok deployed
unfolding resolved_facade lit donkeyspace.Text.is_blank donkeyspace.Text.is_control
    donkeyspace.Facade.overlay resolve
deployment = refl
