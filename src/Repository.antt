-- ===== src/Repository.antt =====
-- crates/donkeyspace-core/src/repository.rs: the names of repositories and lists of them.
pub mod Lists
mod Tests
use donkeyspace.Prelude.{
  ◌≡◌, Bool, true, false, not, ◌||◌, List, [], ◌∷◌, ◌++◌, map, keep, any, contains, Option, none,
  some, Result, ok, err, ok_or, fail_if, ◌>>=◌, ◌>>◌, is_empty, if◌then◌else◌, nat_eq, text_eq,
}
use donkeyspace.Text.{
  Text, lit, split_on, split_once, trim, is_whitespace, has_char, to_ascii_lowercase,
}

pub record RepositoryName : Type 0 where
  pub owner : Text
  pub name : Text

unfoldable pub full_name : RepositoryName → Text
full_name r = r.owner ++ (lit "/" ++ r.name)

invalid_repository : Text → Text
invalid_repository entry =
    lit "invalid github repository `" ++ (entry ++ lit "`; expected owner/name")

-- One entry of the list.
pub parse_entry : Text → Result Text RepositoryName
unfolding invalid_repository
parse_entry entry = do
  parts ← ok_or (split_once 47 entry) (invalid_repository entry)
  fail_if (is_empty parts.0 || is_empty parts.1 || has_char 47 parts.1 || any is_whitespace entry)
      (invalid_repository entry)
  ok (record { owner = parts.0; name = parts.1 })

-- The loop, with the entries seen so far in lower case.
pub parse_entries : List Text → List Text → Result Text (List RepositoryName)
unfolding parse_entry
parse_entries seen [] = ok []
parse_entries seen (entry ∷ more) = do
  r ← parse_entry entry
  rest ←
      parse_entries
        (if contains seen (to_ascii_lowercase entry) then seen else to_ascii_lowercase entry ∷ seen)
        more
  ok (if contains seen (to_ascii_lowercase entry) then rest else r ∷ rest)

-- The trimmed parts between commas, without the empty ones.
pub entries : Text → List Text
entries value = keep (λ s. not (is_empty s)) (map trim (split_on (λ c. nat_eq c 44) value))

unfoldable pub parse_list : Text → Result Text (List RepositoryName)
unfolding parse_entries entries
parse_list value = parse_entries [] (entries value)
