-- ===== src/Access/Tests.antt =====
-- Overrides and reported changes at small inputs.
use donkeyspace.Prelude.{
  ◌≡◌, refl, true, false, List, [], ◌∷◌, Option, none, some, Result, ok, err, text_eq, Memᴰ,
}
use donkeyspace.Text.{Text, lit}
use donkeyspace.Plugin.{path, PluginParameter, TextMap}
use donkeyspace.Access.{
  AccessError, refused, TaskAccessOverride, covered, resolve_access, validate_runtime_path,
  validate_changed_files, expand_templates, is_refused,
}
use donkeyspace.Plugin.Paths.Decides.{IsRepositoryPath}
use donkeyspace.Access.Narrows.{IsUnder, resolve_access-validate_changed_files}

-- The build may write `rtl`; the policy lets it write the directory of the parameter only.
abbrev overrides : TextMap TaskAccessOverride
overrides = (lit "build", record { read = none; write = some (lit "rtl/{core}" ∷ []) }) ∷ []

abbrev values : TextMap (Option Text)
values = (lit "core", some (lit "alu")) ∷ []

abbrev definitions : TextMap PluginParameter
definitions = (lit "core", path none) ∷ []

narrowed :
    resolve_access overrides (lit "build") (lit "docs" ∷ []) (lit "rtl" ∷ []) values definitions
    ≡ ok (lit "docs" ∷ [], lit "rtl/alu" ∷ [])
unfolding resolve_access donkeyspace.Prelude.lookup donkeyspace.Prelude.list_eq lit
    donkeyspace.Access.expand_policy_roots donkeyspace.Text.split_on donkeyspace.Text.split_once
    donkeyspace.Text.replace donkeyspace.Plugin.Paths.validate_repository_path
    donkeyspace.Text.is_blank donkeyspace.Text.eq_ignore_ascii_case
    donkeyspace.Plugin.Paths.component_text covered
narrowed = refl

-- Without the slash the directory beside it is not covered.
beside : covered (lit "rtl-secret/a") (lit "rtl" ∷ []) ≡ false
unfolding covered donkeyspace.Prelude.list_eq lit donkeyspace.Text.strip_prefix
    donkeyspace.Text.starts_with
beside = refl

refused_widening :
    resolve_access overrides (lit "build") (lit "docs" ∷ []) (lit "src" ∷ []) values definitions
    ≡ err (refused (lit "policy access override widens plugin task `build` permissions"))
unfolding resolve_access donkeyspace.Prelude.lookup donkeyspace.Prelude.list_eq lit
    donkeyspace.Access.expand_policy_roots donkeyspace.Text.split_on donkeyspace.Text.split_once
    donkeyspace.Text.replace donkeyspace.Plugin.Paths.validate_repository_path
    donkeyspace.Text.is_blank donkeyspace.Text.eq_ignore_ascii_case
    donkeyspace.Plugin.Paths.component_text covered
refused_widening = refl

change_accepted : validate_changed_files (lit "rtl/alu/core.sv" ∷ []) (lit "rtl/alu" ∷ []) ≡ ok tt
unfolding validate_changed_files validate_runtime_path
    donkeyspace.Plugin.Paths.validate_repository_path donkeyspace.Text.is_blank lit
    donkeyspace.Prelude.list_eq donkeyspace.Text.eq_ignore_ascii_case
    donkeyspace.Plugin.Paths.component_text covered donkeyspace.Text.strip_prefix
    donkeyspace.Text.starts_with
change_accepted = refl

resolve_access-validate_changed_files_example :
    ((root : Text) × Memᴰ root (lit "rtl" ∷ []) × IsUnder root (lit "rtl/alu/core.sv"))
    × IsRepositoryPath (lit "rtl/alu/core.sv")
resolve_access-validate_changed_files_example =
    resolve_access-validate_changed_files overrides (lit "build") (lit "docs" ∷ []) (lit "rtl" ∷ [])
      values definitions (lit "docs" ∷ []) (lit "rtl/alu" ∷ []) (lit "rtl/alu/core.sv" ∷ [])
      (lit "rtl/alu/core.sv") narrowed change_accepted (Memᴰ.head refl)

-- The check of a template stands `item` in for the id of the work item: the id `git` gives a
-- path that the same check refuses.
item_in_git :
    expand_templates (lit ".{work_item}" ∷ []) [] (some (lit "git")) ≡ ok (lit ".git" ∷ [])
unfolding expand_templates lit donkeyspace.Text.replace
    donkeyspace.Plugin.Paths.validate_repository_path donkeyspace.Text.is_blank
    donkeyspace.Prelude.list_eq donkeyspace.Text.eq_ignore_ascii_case
    donkeyspace.Plugin.Paths.component_text
item_in_git = refl

git_refused : is_refused (validate_runtime_path (lit ".git")) ≡ true
unfolding validate_runtime_path lit donkeyspace.Plugin.Paths.validate_repository_path
    donkeyspace.Text.is_blank donkeyspace.Prelude.list_eq donkeyspace.Text.eq_ignore_ascii_case
    donkeyspace.Plugin.Paths.component_text
git_refused = refl
