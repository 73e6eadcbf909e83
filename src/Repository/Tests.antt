-- ===== src/Repository/Tests.antt =====
-- The list of the repository's own test.
use donkeyspace.Prelude.{
  ◌≡◌, refl, true, List, [], ◌∷◌, map, Result, ok, err, is_distinct, All, text_eq,
}
use donkeyspace.Text.{Text, lit, join}
use donkeyspace.Repository.{RepositoryName, full_name, parse_list}
use donkeyspace.Repository.Lists.{IsRepository, lower_name, parse_list-join}

abbrev two_repositories : List RepositoryName
two_repositories =
    record { owner = lit "Org"; name = lit "One" }
    ∷ record { owner = lit "org"; name = lit "two" }
    ∷ []

two_parsed : parse_list (lit " Org/One,org/one,org/two,, ") ≡ ok two_repositories
unfolding parse_list donkeyspace.Text.split_on lit donkeyspace.Text.trim donkeyspace.Text.split_once
    donkeyspace.Prelude.list_eq donkeyspace.Text.to_ascii_lowercase
two_parsed = refl

owner_alone :
    parse_list (lit "owner") ≡ err (lit "invalid github repository `owner`; expected owner/name")
unfolding parse_list donkeyspace.Text.split_on lit donkeyspace.Text.trim donkeyspace.Text.split_once
owner_alone = refl

parse_list-join_example :
    All IsRepository two_repositories
    × (is_distinct (map lower_name two_repositories) ≡ true)
    × (parse_list (join (lit ",") (map full_name two_repositories)) ≡ ok two_repositories)
parse_list-join_example =
    parse_list-join (lit " Org/One,org/one,org/two,, ") two_repositories two_parsed
