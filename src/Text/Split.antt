-- ===== src/Text/Split.antt =====
-- Splitting texts at characters, lines and words, and joining them.
use donkeyspace.Prelude.{
  ℕ, ◌≡◌, refl, Bool, not, List, [], ◌∷◌, ◌++◌, nat_eq, if◌then◌else◌, Option, none, some, keep,
  is_empty,
}
use donkeyspace.Text.Chars.{Text, lit, is_whitespace}

abbrev pub add_char : ℕ → List Text → List Text
add_char c [] = (c ∷ []) ∷ []
add_char c (t ∷ ts) = (c ∷ t) ∷ ts

-- `split` at each character that passes a test: one more part than there are such characters.
unfoldable pub split_on : (ℕ → Bool) → Text → List Text
split_on p [] = [] ∷ []
split_on p (c ∷ s) = let rest = split_on p s in if p c then [] ∷ rest else add_char c rest

-- `split_once` at a character.
abbrev pair_with : ℕ → Option (Text × Text) → Option (Text × Text)
pair_with c none = none
pair_with c (some (a, b)) = some (c ∷ a, b)

unfoldable pub split_once : ℕ → Text → Option (Text × Text)
split_once d [] = none
split_once d (c ∷ s) =
    let rest = split_once d s in if nat_eq c d then some ([], s) else pair_with c rest

-- `split_whitespace`.
unfoldable pub split_whitespace : Text → List Text
unfolding split_on is_whitespace
split_whitespace s = keep (λ w. not (is_empty w)) (split_on is_whitespace s)

-- `[…].join(separator)`.
unfoldable pub join : Text → List Text → Text
join sep [] = []
join sep (t ∷ []) = t
join sep (t ∷ u ∷ ts) = t ++ (sep ++ join sep (u ∷ ts))

-- `lines`: split after each line feed, which goes with a carriage return before it; the empty line
-- behind a last line feed is none.
drop_cr : Text → Text
drop_cr [] = []
drop_cr (c ∷ []) = if nat_eq c 13 then [] else c ∷ []
drop_cr (c ∷ d ∷ s) = c ∷ drop_cr (d ∷ s)

lines_of : List Text → List Text
lines_of [] = []
lines_of (t ∷ []) = if is_empty t then [] else t ∷ []
lines_of (t ∷ u ∷ ts) = drop_cr t ∷ lines_of (u ∷ ts)

unfoldable pub lines : Text → List Text
unfolding split_on lines_of drop_cr
lines s = lines_of (split_on (λ c. nat_eq c 10) s)

lines_test : lines (lit "a\r\n\nb\n") ≡ lit "a" ∷ [] ∷ lit "b" ∷ []
unfolding lines lit
lines_test = refl
