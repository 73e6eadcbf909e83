-- ===== src/Plugin/Validate/Tests.antt =====
-- A manifest that `validate` rejects.
use donkeyspace.Prelude.{◌≡◌, refl, err}
use donkeyspace.Text.{lit}
use donkeyspace.Plugin.{PluginManifest, PluginError, Abort, fails, invalid}
use donkeyspace.Plugin.Samples.{sample_manifest}
use donkeyspace.Plugin.Validate.{validate}
use donkeyspace.Plugin.Validate.Accepted.{validate_never_panics}

abbrev next_version : PluginManifest
next_version = record sample_manifest { api_version = 2 }

next_version_rejected : validate next_version ≡ err (fails (invalid (lit "api_version must be 1")))
unfolding validate lit donkeyspace.Plugin.Validate.manifest_header
next_version_rejected = refl

validate_never_panics_example :
    (e : PluginError) × (fails (invalid (lit "api_version must be 1")) ≡ fails e)
validate_never_panics_example = validate_never_panics next_version next_version_rejected
