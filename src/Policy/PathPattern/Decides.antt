-- ===== src/Policy/PathPattern/Decides.antt =====
-- `path_matches` decides the relation that docs/policy.md describes in words.
use donkeyspace.Prelude.{
  Bool, true, false, ◌||◌, ◌++◌, none, some, ◌==◌, ==_iff, text_eq, if◌then◌else◌, ◌≡◌, ◌≢◌, refl,
  ◌↔◌, arith, Option-cases, Bool-cases, inl, inr, ◌⊎◌,
}
use donkeyspace.Text.{
  Text, lit, trim_matches, strip_prefix, strip_suffix, starts_with, contains_text, starts_with_iff,
  ends_with_iff, contains_text_iff, strip_prefix_sound, strip_suffix_sound, strip_prefix-append,
  strip_suffix-append,
}
use donkeyspace.Policy.PathPattern.{
  path_matches, trimmed_matches, is_slash, glob_matches, under_directory, under_prefix,
  suffix_matches, prefix_matches,
}

-- `path` is the directory or lies in it.
pub data IsIn (directory path : Text) : Type 0 where
  itself : path ≡ directory → IsIn directory path
  inside : (rest : Text) → path ≡ (directory ++ lit "/") ++ rest → IsIn directory path

-- A whole path component sequence `directory` stands somewhere behind the first slash, with
-- something under it.
abbrev pub IsBelow : Text → Text → Type 0
IsBelow directory path =
    (before : Text) × (after : Text) × (path
      ≡ before ++ ((lit "/" ++ (directory ++ lit "/")) ++ after))

-- How a pattern covers a path, both without the slashes at their ends.
pub data Covers (pattern path : Text) : Type 0 where
  exact : pattern ≡ path → Covers pattern path
  nested :
      (directory : Text)
      → pattern ≡ lit "**/" ++ (directory ++ lit "/**")
      → IsIn directory path ⊎ IsBelow directory path
      → Covers pattern path
  ending :
      (suffix before : Text)
      → pattern ≡ lit "**/" ++ suffix
      → ((rest : Text) → suffix ≢ rest ++ lit "/**")
      → path ≡ before ++ suffix
      → Covers pattern path
  prefixed :
      (prefix : Text)
      → pattern ≡ prefix ++ lit "/**"
      → ((rest : Text) → pattern ≢ lit "**/" ++ rest)
      → IsIn prefix path
      → Covers pattern path

under_prefix_iff : (prefix path : Text) → (under_prefix prefix path ≡ true) ↔ IsIn prefix path
unfolding under_prefix
under_prefix_iff prefix path = (to, from)
  where
    to : (path == prefix || starts_with (prefix ++ lit "/") path) ≡ true → IsIn prefix path
    to h = elim (Bool-cases (path == prefix)) [
      | inl e ↦ IsIn.itself ((==_iff path prefix).0 e)
      | inr e ↦
          let (rest, f) = (starts_with_iff (prefix ++ lit "/") path).0 (ground arith) in
          IsIn.inside rest f
    ]

    from : IsIn prefix path → (path == prefix || starts_with (prefix ++ lit "/") path) ≡ true
    from (IsIn.itself e) = ground (arith, ==_iff path prefix)
    from (IsIn.inside rest e) =
        let h = (starts_with_iff (prefix ++ lit "/") path).1 (rest, e) in ground arith

under_directory_iff :
    (directory path : Text)
    → (under_directory directory path ≡ true) ↔ (IsIn directory path ⊎ IsBelow directory path)
unfolding under_directory under_prefix
under_directory_iff directory path = (to, from)
  where
    inner : Text
    inner = lit "/" ++ (directory ++ lit "/")

    to :
        (path == directory || starts_with (directory ++ lit "/") path || contains_text inner path)
          ≡ true
        → IsIn directory path ⊎ IsBelow directory path
    to h = elim (Bool-cases (under_prefix directory path)) [
      | inl e ↦ inl ((under_prefix_iff directory path).0 e)
      | inr e ↦ inr ((contains_text_iff inner path).0 (ground arith))
    ]

    from :
        IsIn directory path ⊎ IsBelow directory path
        → (path == directory || starts_with (directory ++ lit "/") path || contains_text inner path)
          ≡ true
    from (inl i) = let h = (under_prefix_iff directory path).1 i in ground arith
    from (inr b) = let h = (contains_text_iff inner path).1 b in ground arith

not_stripped : (p s : Text) → strip_suffix p s ≡ none → (rest : Text) → s ≢ rest ++ p
not_stripped p s h rest e =
    let f : strip_suffix p s ≡ some rest = rw e (strip_suffix-append p rest) in absurd (cc)

not_begun : (p s : Text) → strip_prefix p s ≡ none → (rest : Text) → s ≢ p ++ rest
not_begun p s h rest e =
    let f : strip_prefix p s ≡ some rest = rw e (strip_prefix-append p rest) in absurd (cc)

glob_sound :
    (pattern path : Text)
    → glob_matches (strip_prefix (lit "**/") pattern) pattern path ≡ true
    → Covers pattern path
unfolding glob_matches
glob_sound pattern path h = elim (Option-cases (strip_prefix (lit "**/") pattern)) [
  | inr (suffix, e) ↦
      let split = strip_prefix_sound (lit "**/") pattern suffix e in
      elim (Option-cases (strip_suffix (lit "/**") suffix)) [
        | inr (directory, f) ↦
            let back = strip_suffix_sound (lit "/**") suffix directory f in
            Covers.nested directory (rw (← back) split) (
              (under_directory_iff directory path).0 (rw (e, glob_matches, f, suffix_matches) at h))
        | inl f ↦
            let (before, g) =
              (ends_with_iff suffix path).0 (rw (e, glob_matches, f, suffix_matches) at h) in
            Covers.ending suffix before split (not_stripped _ suffix f) g
      ]
  | inl e ↦ elim (Option-cases (strip_suffix (lit "/**") pattern)) [
    | inr (prefix, f) ↦
        Covers.prefixed prefix (strip_suffix_sound (lit "/**") pattern prefix f)
          (not_begun _ pattern e)
          ((under_prefix_iff prefix path).0 (rw (e, glob_matches, f, prefix_matches) at h))
    | inl f ↦ absurd (cc (rw (e, glob_matches, f, prefix_matches) at h))
  ]
]

ending_none : (p s : Text) → ((rest : Text) → s ≢ rest ++ p) → strip_suffix p s ≡ none
ending_none p s h = elim (Option-cases (strip_suffix p s)) [
  | inl e ↦ e
  | inr (rest, e) ↦ absurd (h rest (strip_suffix_sound p s rest e))
]

beginning_none : (p s : Text) → ((rest : Text) → s ≢ p ++ rest) → strip_prefix p s ≡ none
beginning_none p s h = elim (Option-cases (strip_prefix p s)) [
  | inl e ↦ e
  | inr (rest, e) ↦ absurd (h rest (strip_prefix_sound p s rest e))
]

or_true : (b : Bool) → (if b then true else true) ≡ true
or_true true = refl
or_true false = refl

trimmed_complete : (pattern path : Text) → Covers pattern path → trimmed_matches pattern path ≡ true
unfolding trimmed_matches
trimmed_complete pattern path (Covers.exact e) = rw ((==_iff pattern path).1 e)
trimmed_complete pattern path (Covers.nested d e i) =
    rw
      (
        e,
        strip_prefix-append (lit "**/") (d ++ lit "/**"),
        glob_matches,
        strip_suffix-append (lit "/**") d,
        suffix_matches,
        (under_directory_iff d path).1 i,
      )
      (or_true _)
trimmed_complete pattern path (Covers.ending s before e n f) =
    rw
      (
        e,
        strip_prefix-append (lit "**/") s,
        glob_matches,
        ending_none _ s n,
        suffix_matches,
        (ends_with_iff s path).1 (before, f),
      )
      (or_true _)
trimmed_complete pattern path (Covers.prefixed prefix e n i) =
    rw
      (
        beginning_none _ pattern n,
        glob_matches,
        (let f : strip_suffix (lit "/**") pattern ≡ some prefix =
              rw e (strip_suffix-append (lit "/**") prefix) in
            f),
        prefix_matches,
        (under_prefix_iff prefix path).1 i,
      )
      (or_true _)

trimmed_sound : (pattern path : Text) → trimmed_matches pattern path ≡ true → Covers pattern path
unfolding trimmed_matches
trimmed_sound pattern path h = elim (Bool-cases (pattern == path)) [
  | inl e ↦ Covers.exact ((==_iff pattern path).0 e)
  | inr e ↦ glob_sound pattern path (rw e at h)
]

-- `path_matches` accepts a changed file exactly if its pattern covers it, the slashes at the ends
-- of both left aside: by equality, as a prefix in front of a final `/**`, as a directory at any
-- depth between `**/` and `/**`, or as the end of the path behind a leading `**/`.
pub path_matches_iff :
    (pattern path : Text)
    → (path_matches pattern path ≡ true)
      ↔ Covers (trim_matches is_slash pattern) (trim_matches is_slash path)
unfolding path_matches
path_matches_iff pattern path = (trimmed_sound _ _, trimmed_complete _ _)
