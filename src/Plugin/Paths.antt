-- ===== src/Plugin/Paths.antt =====
-- Path checks of crates/donkeyspace-core/src/plugin.rs, over `std::path::Path::components` as it
-- is documented for Unix: empty parts and `.` are skipped, but a leading `.` is kept.
mod Tests
pub mod Tested
pub mod Decides
use donkeyspace.Prelude.{
  ℕ, Bool, true, false, not, ◌||◌, List, [], ◌∷◌, ◌++◌, Result, fail_if, ◌>>◌, ◌==◌, text_eq,
  is_empty, any, nat_eq, if◌then◌else◌,
}
use donkeyspace.Text.{Text, lit, is_blank, eq_ignore_ascii_case, split_on}
use donkeyspace.Policy.PathPattern.{is_slash}
use donkeyspace.Plugin.{PluginError, invalid}

pub data Component : Type 0 where
  root_dir cur_dir parent_dir : Component
  normal : Text → Component

-- `as_os_str`.
unfoldable pub component_text : Component → Text
component_text root_dir = lit "/"
component_text cur_dir = lit "."
component_text parent_dir = lit ".."
component_text (normal name) = name

unfoldable pub is_absolute : Text → Bool
is_absolute [] = false
is_absolute (c ∷ s) = is_slash c

-- The parts behind the first one, and the first one of an absolute path.
pub inner_components : List Text → List Component
inner_components [] = []
inner_components (part ∷ parts) =
    let rest = inner_components parts in
    if is_empty part || part == lit "."
    then rest
    else (if part == lit ".." then parent_dir else normal part) ∷ rest

pub leading_component : List Text → List Component
leading_component [] = []
leading_component (part ∷ parts) = if part == lit "." then cur_dir ∷ [] else []

unfoldable pub components : Text → List Component
unfolding inner_components leading_component is_absolute split_on
components path =
    let parts = split_on is_slash path in
    (if is_absolute path then root_dir ∷ [] else leading_component parts) ++ inner_components parts

abbrev pub is_parent_dir : Component → Bool
is_parent_dir parent_dir = true
is_parent_dir _ = false

abbrev pub is_normal : Component → Bool
is_normal (normal name) = true
is_normal _ = false

abbrev pub is_brace : ℕ → Bool
is_brace c = nat_eq c b'{' || nat_eq c b'}'

unfoldable pub validate_relative_path : Text → Result PluginError (Unit {0})
unfolding components
validate_relative_path value =
    fail_if
      (is_blank value
        || any is_brace value
        || is_absolute value
        || any is_parent_dir (components value))
      (invalid (lit "unsafe task path `" ++ (value ++ lit "`")))

unfoldable pub validate_repository_path : Text → Result PluginError (Unit {0})
unfolding validate_relative_path
validate_repository_path value = do
  validate_relative_path value
  fail_if
      (not (any is_normal (components value))
        || any (λ c. eq_ignore_ascii_case (component_text c) (lit ".git")) (components value))
      (invalid (lit "unsafe repository artifact path `" ++ (value ++ lit "`")))
