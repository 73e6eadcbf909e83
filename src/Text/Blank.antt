-- ===== src/Text/Blank.antt =====
-- Trimming leaves nothing exactly of a text of white space.
use mathlib.Core.List.{reverse-cons}
use donkeyspace.Prelude.{
  ℕ, ◌≡◌, refl, ◌∙◌, Bool, false, ◌&&◌, [], ◌∷◌, ◌++◌, reverse, all, is_empty, arith, sym,
  Bool-cases, inl, inr, all_elim, Memᴰ, ◌↔◌,
}
use donkeyspace.Text.Chars.{
  Text, drop_while, trim_end_matches, trim_matches, trim, is_blank, is_whitespace,
}

all-append : (p : ℕ → Bool) (xs ys : Text) → all p (xs ++ ys) ≡ (all p xs && all p ys)
all-append p [] ys = refl
all-append p (x ∷ xs) ys = ground (arith, all-append p xs ys)

all-reverse : (p : ℕ → Bool) (xs : Text) → all p (reverse xs) ≡ all p xs
all-reverse p [] = refl
all-reverse p (x ∷ xs) =
    rw (reverse-cons x xs) (ground (arith, all-append p (reverse xs) (x ∷ []), all-reverse p xs))

is_empty-push : (xs : Text) (x : ℕ) → is_empty (xs ++ x ∷ []) ≡ false
is_empty-push [] x = refl
is_empty-push (y ∷ xs) x = refl

is_empty-reverse : (xs : Text) → is_empty (reverse xs) ≡ is_empty xs
is_empty-reverse [] = refl
is_empty-reverse (x ∷ xs) = rw (reverse-cons x xs) (is_empty-push (reverse xs) x)

is_empty-drop_while : (p : ℕ → Bool) (s : Text) → is_empty (drop_while p s) ≡ all p s
unfolding drop_while
is_empty-drop_while p [] = refl
is_empty-drop_while p (c ∷ s) = ground (arith, is_empty-drop_while p s)

all-drop_while : (p : ℕ → Bool) (s : Text) → all p (drop_while p s) ≡ all p s
unfolding drop_while
all-drop_while p [] = refl
all-drop_while p (c ∷ s) = ground (arith, all-drop_while p s)

pub is_empty-trim_matches : (p : ℕ → Bool) (s : Text) → is_empty (trim_matches p s) ≡ all p s
unfolding trim_matches trim_end_matches
is_empty-trim_matches p s =
    is_empty-reverse (drop_while p (reverse (drop_while p s)))
    ∙ is_empty-drop_while p (reverse (drop_while p s))
    ∙ all-reverse p (drop_while p s)
    ∙ all-drop_while p s

pub is_blank_lem : (s : Text) → is_blank s ≡ all is_whitespace s
unfolding is_blank trim
is_blank_lem s = is_empty-trim_matches is_whitespace s

-- A text is not blank exactly when some character of it is not white space.
pub visible_iff :
    (s : Text) → (is_blank s ≡ false) ↔ ((c : ℕ) × Memᴰ c s × (is_whitespace c ≡ false))
visible_iff s = (λ h. to s (sym (is_blank_lem s) ∙ h), λ w. is_blank_lem s ∙ from w)
  where
    to : (s : Text) → all is_whitespace s ≡ false → (c : ℕ) × Memᴰ c s × (is_whitespace c ≡ false)
    to [] h = cc
    to (c ∷ s) h = elim (Bool-cases (is_whitespace c)) [
      | inl q ↦ (let (d, m, e) = to s (ground arith) in (d, Memᴰ.tail m, e))
      | inr q ↦ (c, Memᴰ.head refl, q)
    ]

    from : (c : ℕ) × Memᴰ c s × (is_whitespace c ≡ false) → all is_whitespace s ≡ false
    from (c, m, e) = elim (Bool-cases (all is_whitespace s)) [
      | inl q ↦ absurd (cc (all_elim is_whitespace q m))
      | inr q ↦ q
    ]
