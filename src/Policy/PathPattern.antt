-- ===== src/Policy/PathPattern.antt =====
-- `path_matches` of crates/donkeyspace-core/src/policy.rs: does a changed file fall under a
-- configured pattern?
pub mod Decides
use donkeyspace.Prelude.{
  ℕ, Bool, true, false, ◌||◌, List, ◌++◌, Option, none, some, ◌==◌, text_eq, nat_eq, if◌then◌else◌,
  ◌≡◌, refl,
}
use donkeyspace.Text.{
  Text, lit, trim_matches, strip_prefix, strip_suffix, starts_with, ends_with, contains_text,
}

abbrev pub is_slash : ℕ → Bool
is_slash c = nat_eq c b'/'

-- `**/directory/**`.
unfoldable pub under_directory : Text → Text → Bool
under_directory directory path =
    path == directory
    || starts_with (directory ++ lit "/") path
    || contains_text (lit "/" ++ (directory ++ lit "/")) path

-- `prefix/**`.
unfoldable pub under_prefix : Text → Text → Bool
under_prefix prefix path = path == prefix || starts_with (prefix ++ lit "/") path

-- What follows `**/`, with or without `/**` at its end.
suffix_matches : Option Text → Text → Text → Bool
unfolding under_directory
suffix_matches (some directory) suffix path = under_directory directory path
suffix_matches none suffix path = ends_with suffix path

prefix_matches : Option Text → Text → Bool
unfolding under_prefix
prefix_matches (some prefix) path = under_prefix prefix path
prefix_matches none path = false

glob_matches : Option Text → Text → Text → Bool
unfolding suffix_matches prefix_matches
glob_matches (some suffix) pattern path =
    suffix_matches (strip_suffix (lit "/**") suffix) suffix path
glob_matches none pattern path = prefix_matches (strip_suffix (lit "/**") pattern) path

-- The tests on the pattern and the path without the slashes at their ends.
unfoldable pub trimmed_matches : Text → Text → Bool
unfolding glob_matches
trimmed_matches pattern path =
    if pattern == path then true else glob_matches (strip_prefix (lit "**/") pattern) pattern path

unfoldable pub path_matches : Text → Text → Bool
unfolding trimmed_matches
path_matches pattern path =
    trimmed_matches (trim_matches is_slash pattern) (trim_matches is_slash path)
