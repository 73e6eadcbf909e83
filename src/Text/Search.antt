-- ===== src/Text/Search.antt =====
-- Prefixes, suffixes and occurrences of one text in another.
use donkeyspace.Prelude.{
  ℕ, zero, suc, ◌-◌, length, ◌≡◌, refl, sym, ap, ◌∙◌, Bool, true, [], ◌∷◌, ◌++◌, nat_eq, nat_eq_iff,
  if◌then◌else◌, arith, reverse, ◌↔◌, Option, none, some, is_some, Option-cases, inl, inr, any,
}
use mathlib.Core.Option
use mathlib.Core.Path.{ap₂}
use mathlib.Core.List.{reverse-append, reverse-reverse}
use donkeyspace.Text.Chars.{Text, lit}

-- `strip_prefix`.
unfoldable pub strip_prefix : Text → Text → Option Text
strip_prefix [] s = some s
strip_prefix (p ∷ ps) [] = none
strip_prefix (p ∷ ps) (c ∷ s) = let rest = strip_prefix ps s in if nat_eq p c then rest else none

unfoldable pub starts_with : Text → Text → Bool
unfolding strip_prefix
starts_with p s = is_some (strip_prefix p s)

-- `strip_suffix`, on the reversed texts.
unfoldable pub strip_suffix : Text → Text → Option Text
unfolding strip_prefix
strip_suffix p s = Option.map reverse (strip_prefix (reverse p) (reverse s))

unfoldable pub ends_with : Text → Text → Bool
unfolding strip_prefix
ends_with p s = is_some (strip_prefix (reverse p) (reverse s))

abbrev prepend : ℕ → Option (Text × Text) → Option (Text × Text)
prepend c none = none
prepend c (some (before, after)) = some (c ∷ before, after)

abbrev found_or : Option Text → Option (Text × Text) → Option (Text × Text)
found_or (some after) later = some ([], after)
found_or none later = later

-- `find`: what stands before the first occurrence of the pattern, and what stands behind it.
unfoldable pub split_at : Text → Text → Option (Text × Text)
unfolding strip_prefix
split_at p [] = found_or (strip_prefix p []) none
split_at p (c ∷ s) = let later = prepend c (split_at p s) in found_or (strip_prefix p (c ∷ s)) later

unfoldable pub contains_text : Text → Text → Bool
unfolding split_at
contains_text p s = is_some (split_at p s)

abbrev pub has_char : ℕ → Text → Bool
has_char c s = any (λ x. nat_eq x c) s

pub strip_prefix_sound : (p s rest : Text) → strip_prefix p s ≡ some rest → s ≡ p ++ rest
unfolding strip_prefix
strip_prefix_sound [] s rest h = ground arith
strip_prefix_sound (p ∷ ps) [] rest h = cc
strip_prefix_sound (p ∷ ps) (c ∷ s) rest h =
    ground (arith, strip_prefix_sound ps s rest, nat_eq_iff p c)

pub strip_prefix-append : (p rest : Text) → strip_prefix p (p ++ rest) ≡ some rest
unfolding strip_prefix
strip_prefix-append [] rest = refl
strip_prefix-append (p ∷ ps) rest = ground (arith, nat_eq_iff p p, strip_prefix-append ps rest)

-- `replace` of a pattern that is not empty: `skip` counts the characters of the last match that
-- are still to be passed over.
replace_from : ℕ → Text → Text → Text → Text
replace_from skip p new [] = []
replace_from (suc skip) p new (c ∷ s) = replace_from skip p new s
replace_from zero p new (c ∷ s) =
    let matched = replace_from (length p - 1) p new s in
    let kept = replace_from zero p new s in
    if starts_with p (c ∷ s) then new ++ matched else c ∷ kept

unfoldable pub replace : Text → Text → Text → Text
unfolding replace_from starts_with
replace p new s = replace_from 0 p new s

replace_test : replace (lit "ab") (lit "x") (lit "abaabb") ≡ lit "xaxb"
unfolding replace lit
replace_test = refl

-- What the tests say, as decompositions of the text.
pub starts_with_iff : (p s : Text) → (starts_with p s ≡ true) ↔ ((rest : Text) × (s ≡ p ++ rest))
unfolding starts_with
starts_with_iff p s = (to, from)
  where
    to : is_some (strip_prefix p s) ≡ true → (rest : Text) × (s ≡ p ++ rest)
    to h = elim (Option-cases (strip_prefix p s)) [
      | inl e ↦ absurd (ground arith)
      | inr (rest, e) ↦ (rest, strip_prefix_sound p s rest e)
    ]

    from : (rest : Text) × (s ≡ p ++ rest) → is_some (strip_prefix p s) ≡ true
    from (rest, e) = rw (e, strip_prefix-append p rest)

pub strip_suffix_sound : (p s rest : Text) → strip_suffix p s ≡ some rest → s ≡ rest ++ p
unfolding strip_suffix
strip_suffix_sound p s rest h = elim (Option-cases (strip_prefix (reverse p) (reverse s))) [
  | inl e ↦ absurd (ground arith)
  | inr (back, e) ↦
      let q : reverse back ≡ rest = ground arith in
      let r = strip_prefix_sound (reverse p) (reverse s) back e in
      sym (reverse-reverse s)
      ∙ ap reverse r
      ∙ reverse-append (reverse p) back
      ∙ ap₂ ◌++◌ q (reverse-reverse p)
]

pub strip_suffix-append : (p rest : Text) → strip_suffix p (rest ++ p) ≡ some rest
unfolding strip_suffix
strip_suffix-append p rest =
    rw (reverse-append rest p, strip_prefix-append (reverse p) (reverse rest))
      (ap some (reverse-reverse rest))

pub ends_with_iff : (p s : Text) → (ends_with p s ≡ true) ↔ ((before : Text) × (s ≡ before ++ p))
unfolding ends_with strip_suffix
ends_with_iff p s = (to, from)
  where
    to : is_some (strip_prefix (reverse p) (reverse s)) ≡ true → (before : Text) × (s ≡ before ++ p)
    to h = elim (Option-cases (strip_prefix (reverse p) (reverse s))) [
      | inl e ↦ absurd (ground arith)
      | inr (back, e) ↦ (reverse back, strip_suffix_sound p s (reverse back) (rw e))
    ]

    from :
        (before : Text) × (s ≡ before ++ p) → is_some (strip_prefix (reverse p) (reverse s)) ≡ true
    from (before, e) =
        rw (e, reverse-append before p, strip_prefix-append (reverse p) (reverse before))

pub split_at_sound :
    (p s before after : Text) → split_at p s ≡ some (before, after) → s ≡ before ++ (p ++ after)
unfolding split_at
split_at_sound p [] before after h = elim (Option-cases (strip_prefix p [])) [
  | inl e ↦ absurd (ground arith)
  | inr (rest, e) ↦ ground (arith, strip_prefix_sound p [] rest e)
]
split_at_sound p (c ∷ s) before after h = elim (Option-cases (strip_prefix p (c ∷ s))) [
  | inr (rest, e) ↦ ground (arith, strip_prefix_sound p (c ∷ s) rest e)
  | inl e ↦ elim (Option-cases (split_at p s)) [
    | inl f ↦ absurd (ground arith)
    | inr (found, f) ↦ ground (arith, split_at_sound p s found.0 found.1)
  ]
]

-- An occurrence anywhere is found somewhere.
pub split_at_finds : (p before after : Text) → is_some (split_at p (before ++ (p ++ after))) ≡ true
unfolding split_at
split_at_finds [] [] [] = refl
split_at_finds [] [] (c ∷ s) = refl
split_at_finds (x ∷ p) [] after = ground (arith, strip_prefix-append (x ∷ p) after)
split_at_finds p (c ∷ before) after =
    elim (Option-cases (strip_prefix p (c ∷ (before ++ (p ++ after))))) [
      | inr (rest, e) ↦ ground arith
      | inl e ↦ elim (Option-cases (split_at p (before ++ (p ++ after)))) [
        | inl f ↦ absurd (ground (arith, split_at_finds p before after))
        | inr (found, f) ↦ ground arith
      ]
    ]

pub contains_text_iff :
    (p s : Text)
    → (contains_text p s ≡ true) ↔ ((before : Text) × (after : Text) × (s ≡ before ++ (p ++ after)))
unfolding contains_text
contains_text_iff p s = (to, from)
  where
    to :
        is_some (split_at p s) ≡ true
        → (before : Text) × (after : Text) × (s ≡ before ++ (p ++ after))
    to h = elim (Option-cases (split_at p s)) [
      | inl e ↦ absurd (ground arith)
      | inr (found, e) ↦ (found.0, found.1, split_at_sound p s found.0 found.1 e)
    ]

    from :
        (before : Text) × (after : Text) × (s ≡ before ++ (p ++ after))
        → is_some (split_at p s) ≡ true
    from (before, after, e) = rw e (split_at_finds p before after)
