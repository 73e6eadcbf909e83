-- ===== src/Plugin/Paths/Tests.antt =====
-- The path check at the paths of the source's test `rejects_path_traversal`.
use donkeyspace.Prelude.{◌≡◌, ◌↔◌, refl, Bool, true, false, Result, ok, err, all, List, [], ◌∷◌}
use donkeyspace.Text.{Text, lit}
use donkeyspace.Plugin.Paths.{validate_repository_path}
use donkeyspace.Plugin.Paths.Decides.{IsRepositoryPath, validate_repository_path_iff}

is_err : Text → Bool
is_err path = elim (validate_repository_path path) [ ok u ↦ false | err e ↦ true ]

refused_paths :
    all is_err (
      lit "."
      ∷ lit "./"
      ∷ lit ".git"
      ∷ lit "./.git/config"
      ∷ lit "src/.Git/config"
      ∷ lit "../rtl"
      ∷ [])
    ≡ true
unfolding is_err validate_repository_path lit donkeyspace.Text.is_blank donkeyspace.Prelude.list_eq
    donkeyspace.Text.eq_ignore_ascii_case donkeyspace.Plugin.Paths.component_text
refused_paths = refl

accepted_path : validate_repository_path (lit "src/rtl") ≡ ok tt
unfolding validate_repository_path lit donkeyspace.Text.is_blank donkeyspace.Prelude.list_eq
    donkeyspace.Text.eq_ignore_ascii_case donkeyspace.Plugin.Paths.component_text
accepted_path = refl

validate_repository_path_iff_example :
    (validate_repository_path (lit "src/rtl") ≡ ok tt) ↔ IsRepositoryPath (lit "src/rtl")
validate_repository_path_iff_example = validate_repository_path_iff (lit "src/rtl")
