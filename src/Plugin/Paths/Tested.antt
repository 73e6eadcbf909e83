-- ===== src/Plugin/Paths/Tested.antt =====
-- The tests of the components of a path, as tests of the parts between its slashes.
use donkeyspace.Prelude.{
  ℕ, ◌≡◌, ◌≢◌, ◌↔◌, refl, sym, ap, ◌∙◌, subst, Bool, true, false, not, ◌&&◌, ◌||◌, List, [], ◌∷◌,
  ◌++◌, any, any_intro, any_elim, is_empty, is_empty-nil, ◌⊎◌, Result, ok, err, fail_if,
  fail_if-eq-ok, >>-eq-ok, ◌>>◌, Memᴰ, Bool-cases, inl, inr, ◌==◌, ==_iff, text_eq, nat_eq,
  nat_eq_iff, arith, if◌then◌else◌,
}
use donkeyspace.Text.{Text, lit, eq_ignore_ascii_case, split_on}
use donkeyspace.Policy.PathPattern.{is_slash}
use donkeyspace.Plugin.Paths.{
  Component, component_text, components, inner_components, leading_component, is_absolute,
  is_normal, is_parent_dir,
}

unfoldable pub is_named : Text → Bool
is_named part = not (is_empty part || part == lit "." || part == lit "..")

abbrev pub is_git : Text → Bool
is_git part = eq_ignore_ascii_case part (lit ".git")

any_append :
    (p : Component → Bool) (xs ys : List Component) → any p (xs ++ ys) ≡ (any p xs || any p ys)
any_append p [] ys = refl
any_append p (x ∷ xs) ys = ground (arith, any_append p xs ys)

-- A test of components that is false of the skipped parts is a test of the parts.
any-inner_components :
    (p : Component → Bool) (q : Text → Bool)
    → ((part : Text) → (is_empty part || part == lit ".") ≡ true → q part ≡ false)
    → ((part : Text)
        → (is_empty part || part == lit ".") ≡ false
        → p (if part == lit ".." then Component.parent_dir else Component.normal part) ≡ q part)
    → (parts : List Text) → any p (inner_components parts) ≡ any q parts
unfolding inner_components
any-inner_components p q skipped kept [] = refl
any-inner_components p q skipped kept (part ∷ parts) =
    elim (Bool-cases (is_empty part || part == lit ".")) [
      | inl e ↦ rw (e, skipped part e) (any-inner_components p q skipped kept parts)
      | inr e ↦ rw (e, kept part e, any-inner_components p q skipped kept parts) refl
    ]

any-components :
    (p : Component → Bool) (q : Text → Bool) (value : Text)
    → is_absolute value ≡ false
    → p Component.cur_dir ≡ false
    → ((part : Text) → (is_empty part || part == lit ".") ≡ true → q part ≡ false)
    → ((part : Text)
        → (is_empty part || part == lit ".") ≡ false
        → p (if part == lit ".." then Component.parent_dir else Component.normal part) ≡ q part)
    → any p (components value) ≡ any q (split_on is_slash value)
unfolding components
any-components p q value relative cur skipped kept = rw relative (
    any_append p (leading_component (split_on is_slash value)) _
    ∙ rw (leading (split_on is_slash value))
        (any-inner_components p q skipped kept (split_on is_slash value)))
  where
    leading : (parts : List Text) → any p (leading_component parts) ≡ false
    leading [] = refl
    leading (part ∷ parts) = ground (arith, cur)

skipped_cases :
    (part : Text) → (is_empty part || part == lit ".") ≡ true → (part ≡ []) ⊎ (part ≡ lit ".")
skipped_cases part h = elim (Bool-cases (is_empty part)) [
  | inl e ↦ inl (is_empty-nil part e)
  | inr e ↦ inr ((==_iff part (lit ".")).0 (ground arith))
]

abbrev pub is_up : Text → Bool
is_up part = part == lit ".."

pub up_parts :
    (value : Text)
    → is_absolute value ≡ false
    → any is_parent_dir (components value) ≡ any is_up (split_on is_slash value)
unfolding lit donkeyspace.Prelude.list_eq
up_parts value relative =
    any-components is_parent_dir is_up value relative refl
      (λ part h. elim (skipped_cases part h) [ inl e ↦ rw e refl | inr e ↦ rw e refl ])
      (λ part h. elim (Bool-cases (part == lit "..")) [ inl e ↦ rw e refl | inr e ↦ rw e refl ])

pub named_parts :
    (value : Text)
    → is_absolute value ≡ false
    → any is_normal (components value) ≡ any is_named (split_on is_slash value)
unfolding is_named lit donkeyspace.Prelude.list_eq
named_parts value relative =
    any-components is_normal is_named value relative refl
      (λ part h. elim (skipped_cases part h) [ inl e ↦ rw e refl | inr e ↦ rw e refl ])
      (λ part h. ground arith)

pub git_parts :
    (value : Text)
    → is_absolute value ≡ false
    → any (λ c. eq_ignore_ascii_case (component_text c) (lit ".git")) (components value)
      ≡ any is_git (split_on is_slash value)
unfolding component_text lit eq_ignore_ascii_case donkeyspace.Prelude.list_eq
git_parts value relative =
    any-components (λ c. eq_ignore_ascii_case (component_text c) (lit ".git")) is_git value relative
      refl (λ part h. elim (skipped_cases part h) [ inl e ↦ rw e refl | inr e ↦ rw e refl ])
      (λ part h. elim (Bool-cases (part == lit "..")) [
        | inl e ↦ let same = (==_iff part (lit "..")).0 e in rw (e, same) refl
        | inr e ↦ rw e refl
      ])
