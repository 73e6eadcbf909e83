-- ===== src/Access.antt =====
-- The access of a task to paths: `resolve_access`, `expand_policy_roots`, `covered`,
-- `validate_changed_files` and the templates that they expand, of
-- crates/donkeyspace-worker/src/plugin_flow/execution.rs. A parameter's JSON value counts by its
-- `as_str`.
pub mod Narrows
mod Tests
use donkeyspace.Prelude.{
  ◌≡◌, Bool, true, false, not, ◌&&◌, ◌||◌, List, [], ◌∷◌, ◌++◌, map, any, all, find, Option, none,
  some, Result, ok, err, ok_or, map_err, fail_if, when_some, for_each, ◌>>=◌, ◌>>◌, if◌then◌else◌,
  lookup, ◌==◌, text_eq, nat_eq,
}
use donkeyspace.Text.{Text, lit, split_on, split_once, strip_prefix, starts_with, replace, has_char}
use donkeyspace.Plugin.{PluginParameter, path, enum, string, integer, boolean, PluginError, TextMap}
use donkeyspace.Plugin.Paths.{validate_repository_path}

pub data AccessError : Type 0 where
  refused : Text → AccessError
  unsafe_path : PluginError → AccessError

-- `TaskAccessOverride`.
pub record TaskAccessOverride : Type 0 where
  pub read : Option (List Text)
  pub write : Option (List Text)

-- The loop of `expand_template` over the parameters.
pub substitute : TextMap (Option Text) → Text → Text
substitute [] expanded = expanded
substitute ((name, none) ∷ more) expanded = substitute more expanded
substitute ((name, some value) ∷ more) expanded =
    substitute more (replace (lit "{" ++ (name ++ lit "}")) value expanded)

unfoldable pub validate_runtime_path : Text → Result AccessError (Unit {0})
validate_runtime_path value = map_err unsafe_path (validate_repository_path value)

unfoldable pub expand_template : TextMap (Option Text) → Text → Result AccessError Text
unfolding substitute validate_runtime_path
expand_template parameters template = do
  let expanded = substitute parameters template
  let remainder = replace (lit "{work_item}") (lit "item") expanded
  fail_if (has_char 123 remainder || has_char 125 remainder)
      (refused (lit "unknown placeholder in filesystem field `" ++ (template ++ lit "`")))
  validate_runtime_path remainder
  ok expanded

-- The expansion for a work item, by its id.
for_item : Option Text → Text → Text
for_item none expanded = expanded
for_item (some id) expanded = replace (lit "{work_item}") id expanded

unfoldable pub expand_templates :
    List Text → TextMap (Option Text) → Option Text → Result AccessError (List Text)
unfolding expand_template for_item
expand_templates [] parameters work_item = ok []
expand_templates (value ∷ values) parameters work_item = do
  expanded ← expand_template parameters value
  rest ← expand_templates values parameters work_item
  ok (for_item work_item expanded ∷ rest)

-- A parameter that may stand in a policy's path.
abbrev pub names_path : Option PluginParameter → Bool
names_path (some (path default)) = true
names_path (some (enum values default)) = true
names_path _ = false

abbrev rest_of : List Text → List Text
rest_of [] = []
rest_of (t ∷ ts) = ts

check_segment : TextMap PluginParameter → Text → Text → Result AccessError (Unit {0})
check_segment definitions value segment = do
  parts ←
      ok_or (split_once 125 segment)
        (refused (lit "unclosed placeholder in policy path `" ++ (value ++ lit "`")))
  fail_if (not (names_path (lookup parts.0 definitions))) (
      refused
        (lit "parameter `" ++ (parts.0 ++ lit "` cannot be used in a policy filesystem field")))

unfoldable pub expand_policy_roots :
    List Text → TextMap (Option Text) → TextMap PluginParameter → Result AccessError (List Text)
unfolding check_segment expand_templates
expand_policy_roots values parameters definitions = do
  for_each
      (λ value.
        for_each (check_segment definitions value) (rest_of (split_on (λ c. nat_eq c 123) value)))
      values
  expand_templates values parameters none

-- The path is the root or lies below it.
below : Option Text → Bool
below none = false
below (some rest) = starts_with (lit "/") rest

unfoldable pub covered : Text → List Text → Bool
unfolding below
covered file roots = any (λ root. file == root || below (strip_prefix root file)) roots

-- The roots of an override, or the declared ones.
abbrev pub override_or :
    Option (List Text)
    → TextMap (Option Text)
    → TextMap PluginParameter
    → List Text
    → Result AccessError (List Text)
override_or none parameters definitions declared = ok declared
override_or (some values) parameters definitions declared =
    expand_policy_roots values parameters definitions

apply_override :
    Text
    → List Text
    → List Text
    → TextMap (Option Text)
    → TextMap PluginParameter
    → Option TaskAccessOverride
    → Result AccessError (List Text × List Text)
apply_override stage declared_read declared_write parameters definitions none =
    ok (declared_read, declared_write)
apply_override stage declared_read declared_write parameters definitions (some overrides) = do
  read ← override_or overrides.read parameters definitions declared_read
  write ← override_or overrides.write parameters definitions declared_write
  fail_if
      (not (all (λ file. covered file declared_read) read)
        || not (all (λ file. covered file declared_write) write))
      (refused
        (lit "policy access override widens plugin task `" ++ (stage ++ lit "` permissions")))
  ok (read, write)

unfoldable pub resolve_access :
    TextMap TaskAccessOverride
    → Text
    → List Text
    → List Text
    → TextMap (Option Text)
    → TextMap PluginParameter
    → Result AccessError (List Text × List Text)
unfolding apply_override
resolve_access task_access_overrides stage declared_read declared_write parameters definitions =
    apply_override stage declared_read declared_write parameters definitions
      (lookup stage task_access_overrides)

abbrev pub is_refused {ℓ κ} : {E : Type ℓ} {A : Type κ} → Result E A → Bool
is_refused (ok a) = false
is_refused (err e) = true

unfoldable pub validate_changed_files : List Text → List Text → Result AccessError (Unit {0})
validate_changed_files files roots =
    when_some
      (find (λ file. is_refused (validate_runtime_path file) || not (covered file roots)) files)
      λ file.
        err
          (refused (lit "plugin reported change outside task write roots: `" ++ (file ++ lit "`")))
