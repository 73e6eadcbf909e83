-- ===== src/Plugin/Templates/Placeholders.antt =====
-- `placeholders` decides which texts are templates, and finds their placeholders in order.
use donkeyspace.Prelude.{
  ℕ, zero, suc, ◌<◌, ◌≡◌, sym, ap, ◌∙◌, false, List, [], ◌∷◌, ◌++◌, append_assoc, append-nil, some,
  ok, arith, Bool-cases, Option-cases, inl, inr, is_empty, length, ◌↔◌, ◌||◌,
}
use donkeyspace.Text.{
  Text, has_char, split_once, split_once_sound, split_once-none, split_once_finds, split_once_lacks,
  split_once-length,
}
use donkeyspace.Plugin.Templates.{placeholders_from, placeholders}

-- A text in which every `{` opens a placeholder, and no `}` stands behind the last of them.
pub data Template : Text → List Text → Type 0 where
  plain : (text : Text) → has_char b'{' text ≡ false → has_char b'}' text ≡ false → Template text []
  hole :
      {text : Text} {names : List Text} (before name later : Text)
      → text ≡ before ++ (b'{' ∷ (name ++ (b'}' ∷ later)))
      → has_char b'{' before ≡ false
      → is_empty name ≡ false
      → has_char b'{' name ≡ false
      → has_char b'}' name ≡ false
      → Template later names
      → Template text (name ∷ names)

from_sound :
    (fuel : ℕ) (value rest : Text) (found names : List Text)
    → length rest < fuel
    → placeholders_from fuel value rest found ≡ ok names
    → (more : List Text) × (names ≡ found ++ more) × Template rest more
unfolding placeholders_from
from_sound zero value rest found names l h = absurd (omega arith)
from_sound (suc fuel) value rest found names l h = elim (Option-cases (split_once b'{' rest)) [
  | inl e ↦ elim (Bool-cases (has_char b'}' rest)) [
    | inl c ↦ absurd (cc (rw (e, placeholders_from, c) at h))
    | inr c ↦
        let k : ok found ≡ ok names = rw (e, placeholders_from, c) at h in
        ([], ground (arith, append-nil found), Template.plain rest (split_once-none _ rest e) c)
  ]
  | inr ((before, after), e) ↦ elim (Option-cases (split_once b'}' after)) [
    | inl f ↦ absurd (cc (rw (e, placeholders_from, f) at h))
    | inr ((name, later), f) ↦ elim (Bool-cases (is_empty name || has_char b'{' name)) [
      | inl c ↦ absurd (cc (rw (e, placeholders_from, f, c) at h))
      | inr c ↦
          let (more, q, t) =
            from_sound fuel value later (found ++ name ∷ []) names
              (omega (
                arith,
                split_once-length _ rest before after e,
                split_once-length _ after name later f,
              ))
              (rw (e, placeholders_from, f, c) at h) in
          let (x, y) = split_once_sound b'{' rest before after e in
          let (v, w) = split_once_sound b'}' after name later f in
          (
            name ∷ more,
            q ∙ append_assoc found (name ∷ []) more,
            Template.hole before name later (rw v at x) y (ground arith) (ground arith) w t,
          )
    ]
  ]
]

from_complete :
    (fuel : ℕ) (value : Text) {rest : Text} (found : List Text) {more : List Text}
    → length rest < fuel
    → Template rest more
    → placeholders_from fuel value rest found ≡ ok (found ++ more)
unfolding placeholders_from
from_complete zero value found l t = absurd (omega arith)
from_complete (suc fuel) value found l (Template.plain text p q) =
    rw (split_once_lacks b'{' text p, placeholders_from, q) (ap ok (sym (append-nil found)))
from_complete (suc fuel) value {rest} found l
      (Template.hole {names} before name later e p n q r t) =
    let a : split_once b'{' rest ≡ some (before, name ++ (b'}' ∷ later)) =
      rw e (split_once_finds b'{' before (name ++ (b'}' ∷ later)) p) in
    let b = split_once_finds b'}' name later r in
    let c : (is_empty name || has_char b'{' name) ≡ false = ground arith in
    rw (a, placeholders_from, b, c, ← append_assoc found (name ∷ []) names)
      (from_complete fuel value (found ++ name ∷ [])
        (omega (arith, split_once-length _ rest before _ a, split_once-length _ _ name later b)) t)

-- `placeholders` succeeds with a list of names exactly if the text is a template with these
-- placeholders in this order; so its loop never stops early.
pub placeholders_iff :
    (value : Text) (names : List Text) → (placeholders value ≡ ok names) ↔ Template value names
unfolding placeholders
placeholders_iff value names =
    (to, λ t. from_complete (suc (length value)) value [] (omega arith) t)
  where
    to : placeholders_from (suc (length value)) value value [] ≡ ok names → Template value names
    to h =
        let (more, q, t) = from_sound (suc (length value)) value value [] names (omega arith) h in
        rw q t
