-- ===== src/Facade.antt =====
-- crates/donkeyspace-core/src/facade.rs: the names under which a deployment presents itself.
-- A `Result<(), String>` carries the text of the message.
mod Tests
pub mod Laws
pub mod Names
pub mod Resolved
pub mod Layers
use donkeyspace.Prelude.{
  ℕ, ◌≤◌, ◌≡◌, refl, Bool, true, false, not, ◌&&◌, ◌||◌, List, [], ◌∷◌, ◌++◌, Option, none, some,
  Result, ok, err, fail_if, ◌>>=◌, ◌>>◌, when_some, ltb, nat_eq, is_empty, any, all, if◌then◌else◌,
}
use donkeyspace.Text.{Text, lit, is_blank, is_control, is_ascii_lowercase, is_ascii_digit, len}

abbrev pub default_display_name : Text
default_display_name = lit "Donkeyspace"

abbrev pub default_tagline : Text
default_tagline = lit "Agentic repository workflow harness"

abbrev pub default_command : Text
default_command = lit "donkeyspace"

abbrev pub default_branch_prefix : Text
default_branch_prefix = lit "donkeyspace"

pub record FacadeConfig : Type 0 where
  pub display_name : Option Text
  pub tagline : Option Text
  pub command : Option Text
  pub branch_prefix : Option Text

pub record Facade : Type 0 where
  pub display_name : Text
  pub tagline : Text
  pub command : Text
  pub branch_prefix : Text

-- `Option::or`.
abbrev pub or_else : Option Text → Option Text → Option Text
or_else (some a) b = some a
or_else none b = b

-- `unwrap_or_else`.
abbrev pub or_default : Option Text → Text → Text
or_default (some a) d = a
or_default none d = d

unfoldable pub overlay : FacadeConfig → FacadeConfig → FacadeConfig
overlay low high = record {
  display_name = or_else high.display_name low.display_name;
  tagline = or_else high.tagline low.tagline;
  command = or_else high.command low.command;
  branch_prefix = or_else high.branch_prefix low.branch_prefix;
}

unfoldable pub resolve : FacadeConfig → Facade
resolve c = record {
  display_name = or_default c.display_name default_display_name;
  tagline = or_default c.tagline default_tagline;
  command = or_default c.command default_command;
  branch_prefix = or_default c.branch_prefix default_branch_prefix;
}

abbrev pub empty_config : FacadeConfig
empty_config = record { display_name = none; tagline = none; command = none; branch_prefix = none }

-- `Facade::default`.
unfoldable pub default_facade : Facade
unfolding resolve
default_facade = resolve empty_config

unfoldable pub issue_command : Facade → Text
issue_command f = lit "/" ++ f.command

unfoldable pub git_author_name : Facade → Text
git_author_name f = f.display_name ++ lit "[bot]"

unfoldable pub git_author_email : Facade → Text
git_author_email f = f.command ++ lit "[bot]@users.noreply.github.com"

unfoldable pub validate_text : Text → Text → Result Text (Unit {0})
validate_text field value =
    fail_if (is_blank value || any is_control value)
      (lit "facade " ++ (field ++ lit " must be nonempty single-line text"))

-- The closure `alphanumeric` of `valid_slug`, on a byte.
abbrev pub is_slug_char : ℕ → Bool
is_slug_char c = is_ascii_lowercase c || is_ascii_digit c

-- `bytes[0]` and `bytes[bytes.len() - 1]`, tested; the text is not empty where these are read.
abbrev pub first_is : (ℕ → Bool) → Text → Bool
first_is p [] = false
first_is p (c ∷ s) = p c

abbrev pub last_is : (ℕ → Bool) → Text → Bool
last_is p [] = false
last_is p (c ∷ []) = p c
last_is p (c ∷ d ∷ s) = last_is p (d ∷ s)

-- The tests accept ASCII bytes only, so they read a text of code points as they read its bytes.
unfoldable pub valid_slug : Text → ℕ → Bool
unfolding is_ascii_lowercase is_ascii_digit
valid_slug value max_len =
    if is_empty value || ltb max_len (len value)
    then false
    else first_is is_slug_char value
      && last_is is_slug_char value
      && all (λ c. is_slug_char c || nat_eq c b'-') value

unfoldable pub valid_command : Text → Bool
unfolding valid_slug
valid_command value = valid_slug value 32

unfoldable pub valid_branch_prefix : Text → Bool
unfolding valid_slug
valid_branch_prefix value = valid_slug value 64

unfoldable pub validate : FacadeConfig → Result Text (Unit {0})
unfolding validate_text valid_command valid_branch_prefix
validate c = do
  when_some c.display_name (validate_text (lit "display_name"))
  when_some c.tagline (validate_text (lit "tagline"))
  when_some c.command λ value. fail_if (not (valid_command value)) (
      lit
        "facade command must contain 1-32 lowercase ASCII letters, digits, or hyphens; it must start and end with a letter or digit")
  when_some c.branch_prefix λ value. fail_if (not (valid_branch_prefix value)) (
      lit
        "facade branch_prefix must contain 1-64 lowercase ASCII letters, digits, or hyphens; it must start and end with a letter or digit")
