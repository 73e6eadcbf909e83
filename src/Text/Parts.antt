-- ===== src/Text/Parts.antt =====
-- The parts of a text between separators, and `split_on`.
use donkeyspace.Prelude.{
  ℕ, ◌≡◌, refl, ap, Bool, true, false, List, [], ◌∷◌, ◌++◌, any, nat_eq, nat_eq_iff, All, arith,
  Bool-cases, inl, inr,
}
use donkeyspace.Text.Chars.{Text}
use donkeyspace.Text.Split.{split_on, add_char}

-- The parts of a split have no separator.
pub split_on-any : (p : ℕ → Bool) (s : Text) → All (λ t. any p t ≡ false) (split_on p s)
unfolding split_on
split_on-any p [] = (refl, tt)
split_on-any p (c ∷ s) = elim (Bool-cases (p c)) [
  | inl q ↦ rw q (refl, split_on-any p s)
  | inr q ↦ rw q (added q (split_on p s) (split_on-any p s))
]
  where
    added :
        p c ≡ false
        → (ts : List Text) → All (λ t. any p t ≡ false) ts
        → All (λ t. any p t ≡ false) (add_char c ts)
    added q [] h = (ground arith, tt)
    added q (t ∷ ts) h = (ground (arith, h.0), h.1)

pub split_on_none : (p : ℕ → Bool) (s : Text) → any p s ≡ false → split_on p s ≡ s ∷ []
unfolding split_on
split_on_none p [] h = refl
split_on_none p (c ∷ s) h = ground (arith, split_on_none p s)

pub split_on-append :
    (p : ℕ → Bool) (s t : Text) (c : ℕ)
    → any p s ≡ false
    → p c ≡ true
    → split_on p (s ++ (c ∷ t)) ≡ s ∷ split_on p t
unfolding split_on
split_on-append p [] t c h q = rw q refl
split_on-append p (d ∷ s) t c h q = ground (arith, split_on-append p s t c)

-- The texts between the separators, in order.
pub data Splits (d : ℕ) : Text → List Text → Type 0 where
  only : (part : Text) → any (λ c. nat_eq c d) part ≡ false → Splits d part (part ∷ [])
  more :
      {text : Text} {parts : List Text} (part rest : Text)
      → text ≡ part ++ (d ∷ rest)
      → any (λ c. nat_eq c d) part ≡ false
      → Splits d rest parts
      → Splits d text (part ∷ parts)

add_char-Splits :
    (d c : ℕ) {s : Text} {ts : List Text}
    → nat_eq c d ≡ false
    → Splits d s ts
    → Splits d (c ∷ s) (add_char c ts)
add_char-Splits d c q (Splits.only part h) = Splits.only (c ∷ part) (ground arith)
add_char-Splits d c q (Splits.more part rest e h p) =
    Splits.more (c ∷ part) rest (ap (λ t. c ∷ t) e) (ground arith) p

pub split_on-Splits : (d : ℕ) (s : Text) → Splits d s (split_on (λ c. nat_eq c d) s)
unfolding split_on
split_on-Splits d [] = Splits.only [] refl
split_on-Splits d (c ∷ s) = elim (Bool-cases (nat_eq c d)) [
  | inl q ↦
      rw q (Splits.more [] s (ap (λ x. x ∷ s) ((nat_eq_iff c d).0 q)) refl (split_on-Splits d s))
  | inr q ↦ rw q (add_char-Splits d c q (split_on-Splits d s))
]

pub Splits-split_on :
    (d : ℕ) {s : Text} {ts : List Text} → Splits d s ts → split_on (λ c. nat_eq c d) s ≡ ts
Splits-split_on d (Splits.only part h) = split_on_none (λ c. nat_eq c d) part h
Splits-split_on d (Splits.more {parts} part rest e h p) =
    rw (e, split_on-append (λ c. nat_eq c d) part rest d h ((nat_eq_iff d d).1 refl))
      (ap (λ x. part ∷ x) (Splits-split_on d p))
