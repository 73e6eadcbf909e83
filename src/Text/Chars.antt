-- ===== src/Text/Chars.antt =====
-- Characters: the classes of `char` that the source tests, and texts of one class.
use Prim.Native.Char.{code}
use Prim.Native.String.{String}
use donkeyspace.Prelude.{
  ℕ, ◌+◌, ◌≡◌, refl, Bool, ◌&&◌, ◌||◌, List, [], ◌∷◌, map, leb, ltb, nat_eq, if◌then◌else◌, reverse,
  ◌==◌, text_eq, is_empty,
}

abbrev pub Text : Type 0
Text = List ℕ

-- A literal of the source.
unfoldable pub lit : String → Text
lit String.[] = []
lit (String.◌∷◌ c s) = code c ∷ lit s

-- `char::is_whitespace`: the Unicode property White_Space.
unfoldable pub is_whitespace : ℕ → Bool
is_whitespace c =
    (leb 9 c && leb c 13)
    || nat_eq c 32
    || nat_eq c 0x85
    || nat_eq c 0xA0
    || nat_eq c 0x1680
    || (leb 0x2000 c && leb c 0x200A)
    || nat_eq c 0x2028
    || nat_eq c 0x2029
    || nat_eq c 0x202F
    || nat_eq c 0x205F
    || nat_eq c 0x3000

-- `char::is_control`: the Unicode category Cc.
unfoldable pub is_control : ℕ → Bool
is_control c = leb c 0x1F || (leb 0x7F c && leb c 0x9F)

unfoldable pub is_ascii_lowercase : ℕ → Bool
is_ascii_lowercase c = leb b'a' c && leb c b'z'

unfoldable pub is_ascii_uppercase : ℕ → Bool
is_ascii_uppercase c = leb b'A' c && leb c b'Z'

unfoldable pub is_ascii_digit : ℕ → Bool
is_ascii_digit c = leb b'0' c && leb c b'9'

unfoldable pub is_ascii_alphanumeric : ℕ → Bool
unfolding is_ascii_lowercase is_ascii_uppercase is_ascii_digit
is_ascii_alphanumeric c = is_ascii_lowercase c || is_ascii_uppercase c || is_ascii_digit c

unfoldable pub lower_char : ℕ → ℕ
unfolding is_ascii_uppercase
lower_char c = if is_ascii_uppercase c then c + 32 else c

-- `str::to_ascii_lowercase` and `eq_ignore_ascii_case`.
unfoldable pub to_ascii_lowercase : Text → Text
unfolding lower_char
to_ascii_lowercase s = map lower_char s

unfoldable pub eq_ignore_ascii_case : Text → Text → Bool
unfolding to_ascii_lowercase
eq_ignore_ascii_case s t = to_ascii_lowercase s == to_ascii_lowercase t

-- The bytes that a character takes in UTF-8, and `str::len`.
abbrev pub utf8_width : ℕ → ℕ
utf8_width c = if ltb c 0x80 then 1 else if ltb c 0x800 then 2 else if ltb c 0x10000 then 3 else 4

abbrev pub len : Text → ℕ
len [] = 0
len (c ∷ s) = utf8_width c + len s

-- `trim_start_matches` of a test, and `trim_matches`, by two reversals.
unfoldable pub drop_while : (ℕ → Bool) → Text → Text
drop_while p [] = []
drop_while p (c ∷ s) = let rest = drop_while p s in if p c then rest else c ∷ s

unfoldable pub trim_end_matches : (ℕ → Bool) → Text → Text
unfolding drop_while
trim_end_matches p s = reverse (drop_while p (reverse s))

unfoldable pub trim_matches : (ℕ → Bool) → Text → Text
unfolding trim_end_matches drop_while
trim_matches p s = trim_end_matches p (drop_while p s)

-- `str::trim` and `str::trim_end`.
unfoldable pub trim : Text → Text
unfolding trim_matches is_whitespace
trim s = trim_matches is_whitespace s

unfoldable pub trim_end : Text → Text
unfolding trim_end_matches is_whitespace
trim_end s = trim_end_matches is_whitespace s

-- `s.trim().is_empty()`.
unfoldable pub is_blank : Text → Bool
unfolding trim
is_blank s = is_empty (trim s)

trim_test : trim (lit " \t a b \n") ≡ lit "a b"
unfolding trim lit
trim_test = refl
