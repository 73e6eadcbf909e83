-- ===== src/Plugin/Templates.antt =====
-- Templates with `{placeholder}`s, and the checks of names and of text that is shown, from
-- crates/donkeyspace-core/src/plugin.rs.
pub mod Placeholders
use donkeyspace.Prelude.{
  ℕ, zero, suc, ◌≡◌, refl, Bool, true, false, not, ◌&&◌, ◌||◌, List, [], ◌∷◌, ◌++◌, Option, none,
  some, Result, ok, err, fail_if, ok_or, ◌>>=◌, ◌>>◌, for_each, ◌==◌, text_eq, is_empty, any, all,
  nat_eq, ltb, if◌then◌else◌, lookup, length,
}
use donkeyspace.Text.{
  Text, lit, is_blank, is_control, is_ascii_alphanumeric, is_ascii_uppercase, is_ascii_digit, len,
  has_char, split_once, replace,
}
use donkeyspace.Plugin.{PluginError, invalid, PluginParameter, TextMap, path, enum}
use donkeyspace.Plugin.Paths.{validate_repository_path}

unfoldable pub validate_display_text : Text → Text → Result PluginError (Unit {0})
validate_display_text field value =
    fail_if (is_blank value || ltb 160 (len value) || any is_control value)
      (invalid (field ++ lit " must be nonempty single-line text no longer than 160 bytes"))

-- ASCII letters, digits, `-` and `_`.
abbrev pub is_id_char : ℕ → Bool
is_id_char c = is_ascii_alphanumeric c || nat_eq c b'-' || nat_eq c b'_'

unfoldable pub validate_publication_tag : Text → Result PluginError (Unit {0})
validate_publication_tag value =
    fail_if (is_empty value || ltb 16 (len value) || not (all is_id_char value)) (
      invalid (
        lit
          "task publication_tag must contain 1-16 ASCII letters, digits, hyphens, or underscores"))

unfoldable pub is_safe_enum : Text → Bool
is_safe_enum value = not (is_empty value) && all is_id_char value

unfoldable pub validate_safe_id : Text → Text → Result PluginError (Unit {0})
validate_safe_id kind value =
    fail_if (is_empty value || not (all is_id_char value))
      (invalid (lit "unsafe " ++ (kind ++ (lit " id `" ++ (value ++ lit "`")))))

abbrev pub is_environment_char : ℕ → Bool
is_environment_char c = is_ascii_uppercase c || is_ascii_digit c || nat_eq c b'_'

abbrev starts_uppercase : Text → Bool
starts_uppercase [] = false
starts_uppercase (c ∷ s) = is_ascii_uppercase c

unfoldable pub is_environment_name : Text → Bool
is_environment_name value =
    not (is_empty value) && all is_environment_char value && starts_uppercase value

abbrev pub unclosed : Text → PluginError
unclosed value = invalid (lit "unclosed placeholder in `" ++ (value ++ lit "`"))

abbrev pub bad_placeholder : Text → PluginError
bad_placeholder value = invalid (lit "invalid placeholder in `" ++ (value ++ lit "`"))

abbrev pub unmatched : Text → PluginError
unmatched value = invalid (lit "unmatched placeholder in `" ++ (value ++ lit "`"))

-- The `while` loop of `placeholders`: `rest` is still to be read, `found` was pushed before. Each
-- round takes a brace off `rest`, so the length of the text is enough fuel.
unfoldable pub placeholders_from : ℕ → Text → Text → List Text → Result PluginError (List Text)
placeholders_from zero value rest found = ok found
placeholders_from (suc fuel) value rest found = elim (split_once b'{' rest) [
  | none ↦ if has_char b'}' rest then err (unmatched value) else ok found
  | some (before, after) ↦ elim (split_once b'}' after) [
    | none ↦ err (unclosed value)
    | some (name, later) ↦
        if is_empty name || has_char b'{' name
        then err (bad_placeholder value)
        else placeholders_from fuel value later (found ++ name ∷ [])
  ]
]

unfoldable pub placeholders : Text → Result PluginError (List Text)
unfolding placeholders_from
placeholders value = placeholders_from (suc (length value)) value value []

unfoldable pub validate_publication_title_template : Text → Result PluginError (Unit {0})
unfolding placeholders
validate_publication_title_template value = do
  fail_if (is_blank value || ltb 200 (len value) || any is_control value) (
      invalid
        (lit "flow pull_request_title must be nonempty single-line text no longer than 200 bytes"))
  names ← placeholders value
  for_each
      (λ placeholder.
        fail_if (not (placeholder == lit "issue_title" || placeholder == lit "issue_number")) (
          invalid (
            lit "flow pull_request_title has unsupported placeholder `{"
            ++ (placeholder ++ lit "}`"))))
      names

-- `{name}`.
abbrev pub braced : Text → Text
braced name = lit "{" ++ (name ++ lit "}")

abbrev pub is_filesystem_parameter : PluginParameter → Bool
is_filesystem_parameter (path d) = true
is_filesystem_parameter (enum vs d) = true
is_filesystem_parameter _ = false

-- One round of the loop of `validate_filesystem_template`, on the text expanded so far.
unfoldable pub expand_one : TextMap PluginParameter → Bool → Text → Text → Result PluginError Text
expand_one parameters allow_work_item placeholder expanded =
    if allow_work_item && placeholder == lit "work_item"
    then ok (replace (lit "{work_item}") (lit "item") expanded)
    else (do
      parameter ←
          ok_or (lookup placeholder parameters)
            (invalid (lit "unknown filesystem placeholder `{" ++ (placeholder ++ lit "}`")))
      fail_if (not (is_filesystem_parameter parameter)) (
          invalid
            (lit "parameter `" ++ (placeholder ++ lit "` cannot be used in a filesystem field")))
      ok (replace (braced placeholder) (lit "value") expanded))

unfoldable pub expand_all :
    TextMap PluginParameter → Bool → List Text → Text → Result PluginError Text
unfolding expand_one
expand_all parameters allow_work_item [] expanded = ok expanded
expand_all parameters allow_work_item (name ∷ names) expanded = do
  next ← expand_one parameters allow_work_item name expanded
  expand_all parameters allow_work_item names next

unfoldable pub validate_filesystem_template :
    Text → TextMap PluginParameter → Bool → Result PluginError (Unit {0})
unfolding placeholders expand_all
validate_filesystem_template value parameters allow_work_item = do
  names ← placeholders value
  expanded ← expand_all parameters allow_work_item names value
  validate_repository_path expanded
