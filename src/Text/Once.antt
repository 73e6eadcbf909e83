-- ===== src/Text/Once.antt =====
-- `split_once` against the first occurrence of its character.
use donkeyspace.Prelude.{
  ℕ, ◌<◌, ◌≡◌, refl, ap, false, [], ◌∷◌, ◌++◌, none, some, nat_eq, nat_eq_iff, arith, Bool-cases,
  Option-cases, inl, inr, length, length-append,
}
use donkeyspace.Text.Chars.{Text}
use donkeyspace.Text.Search.{has_char}
use donkeyspace.Text.Split.{split_once}

-- A success splits at the first occurrence.
pub split_once_sound :
    (d : ℕ) (s a b : Text)
    → split_once d s ≡ some (a, b)
    → (s ≡ a ++ (d ∷ b)) × (has_char d a ≡ false)
unfolding split_once
split_once_sound d [] a b h = cc
split_once_sound d (c ∷ s) a b h = elim (Bool-cases (nat_eq c d)) [
  | inl e ↦ ground (arith, nat_eq_iff c d)
  | inr e ↦ elim (Option-cases (split_once d s)) [
    | inl f ↦ absurd (ground arith)
    | inr (found, f) ↦ ground (arith, split_once_sound d s found.0 found.1)
  ]
]

pub split_once-none : (d : ℕ) (s : Text) → split_once d s ≡ none → has_char d s ≡ false
unfolding split_once
split_once-none d [] h = refl
split_once-none d (c ∷ s) h = ground (arith, split_once-none d s)

pub split_once_finds :
    (d : ℕ) (a b : Text) → has_char d a ≡ false → split_once d (a ++ (d ∷ b)) ≡ some (a, b)
unfolding split_once
split_once_finds d [] b h = ground (arith, nat_eq_iff d d)
split_once_finds d (c ∷ a) b h = ground (arith, split_once_finds d a b)

pub split_once_lacks : (d : ℕ) (s : Text) → has_char d s ≡ false → split_once d s ≡ none
unfolding split_once
split_once_lacks d [] h = refl
split_once_lacks d (c ∷ s) h = ground (arith, split_once_lacks d s)

pub split_once-length : (d : ℕ) (s a b : Text) → split_once d s ≡ some (a, b) → length b < length s
split_once-length d s a b h =
    let e = (split_once_sound d s a b h).0 in
    omega (arith, ap length e, length-append {0} a (d ∷ b))
