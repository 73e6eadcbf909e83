-- ===== src/Facade/Names.antt =====
-- Which names `validate` accepts, said without its tests.
use donkeyspace.Prelude.{
  ℕ, ◌≤◌, ◌≡◌, ◌↔◌, refl, sym, ap, subst, ◌∙◌, Bool, true, false, ◌||◌, [], ◌∷◌, ◌++◌, Option, none,
  some, ok, length, is_empty, any, any_intro, any_elim, all, all_elim, all_intro, nat_eq,
  nat_eq_iff, Memᴰ, ◌⊎◌, inl, inr, Bool-cases, arith,
}
use donkeyspace.Text.{
  Text, lit, is_blank, visible_iff, is_control, is_whitespace, is_ascii_lowercase, is_ascii_digit,
  len,
}
use donkeyspace.Facade.{FacadeConfig, validate, valid_slug, is_slug_char, first_is, last_is}
use donkeyspace.Facade.Laws.{IfSome, validate-Passes, Passes-validate}

-- A text of one line: some character is not white space, and none is a control character.
pub record IsText (s : Text) : Type 0 where
  pub visible : (c : ℕ) × Memᴰ c s × (is_whitespace c ≡ false)
  pub uncontrolled : (c : ℕ) → Memᴰ c s → is_control c ≡ false

abbrev pub alphabet : Text
alphabet = lit "abcdefghijklmnopqrstuvwxyz0123456789"

-- Up to `limit` lower-case letters, digits and hyphens, of which the first and the last is no hyphen.
pub record IsSlug (limit : ℕ) (s : Text) : Type 0 where
  pub begins : (c : ℕ) × (after : Text) × Memᴰ c alphabet × (s ≡ c ∷ after)
  pub ends : (before : Text) × (c : ℕ) × Memᴰ c alphabet × (s ≡ before ++ c ∷ [])
  pub made_of : (c : ℕ) → Memᴰ c s → (c ≡ b'-') ⊎ Memᴰ c alphabet
  pub short : length s ≤ limit

-- What is given for a field, if anything, is such a name.
pub record IsValid (c : FacadeConfig) : Type 0 where
  pub display_name : IfSome IsText c.display_name
  pub tagline : IfSome IsText c.tagline
  pub command : IfSome (IsSlug 32) c.command
  pub branch_prefix : IfSome (IsSlug 64) c.branch_prefix

slug_char-alphabet : (c : ℕ) → is_slug_char c ≡ any (λ d. nat_eq c d) alphabet
unfolding lit is_ascii_lowercase is_ascii_digit
slug_char-alphabet c = ground arith

slug_char_iff : (c : ℕ) → (is_slug_char c ≡ true) ↔ Memᴰ c alphabet
slug_char_iff c =
    (to, λ m. slug_char-alphabet c ∙ any_intro (λ d. nat_eq c d) m (ground (arith, nat_eq_iff c c)))
  where
    to : is_slug_char c ≡ true → Memᴰ c alphabet
    to h =
        let (d, m, q) = any_elim (λ d. nat_eq c d) alphabet (sym (slug_char-alphabet c) ∙ h) in
        subst (λ x. Memᴰ x alphabet) (sym ((nat_eq_iff c d).0 q)) m

first_is_iff :
    (p : ℕ → Bool) (s : Text)
    → (first_is p s ≡ true) ↔ ((c : ℕ) × (after : Text) × (p c ≡ true) × (s ≡ c ∷ after))
first_is_iff p [] = (λ h. cc, λ (c, after, h, e). cc)
first_is_iff p (c ∷ s) =
    (λ h. (c, s, h, refl), λ (d, after, h, e). let same : c ≡ d = cc in rw same h)

last_is_iff :
    (p : ℕ → Bool) (s : Text)
    → (last_is p s ≡ true) ↔ ((before : Text) × (c : ℕ) × (p c ≡ true) × (s ≡ before ++ c ∷ []))
last_is_iff p s = (to s, λ (before, c, h, e). rw e (from before c h))
  where
    to :
        (s : Text)
        → last_is p s ≡ true
        → (before : Text) × (c : ℕ) × (p c ≡ true) × (s ≡ before ++ c ∷ [])
    to [] h = cc
    to (c ∷ []) h = ([], c, h, refl)
    to (c ∷ d ∷ s) h = let (before, e, q, f) = to (d ∷ s) h in (c ∷ before, e, q, ap (λ t. c ∷ t) f)

    from : (before : Text) (c : ℕ) → p c ≡ true → last_is p (before ++ c ∷ []) ≡ true
    from [] c h = h
    from (d ∷ []) c h = h
    from (d ∷ e ∷ before) c h = from (e ∷ before) c h

-- These characters take one byte each.
len-ascii : (s : Text) → all (λ c. is_slug_char c || nat_eq c b'-') s ≡ true → len s ≡ length s
unfolding is_ascii_lowercase is_ascii_digit
len-ascii [] h = refl
len-ascii (c ∷ s) h = ground (arith, len-ascii s)

is_empty-last_is : (p : ℕ → Bool) (s : Text) → first_is p s ≡ true → is_empty s ≡ false
is_empty-last_is p [] h = cc
is_empty-last_is p (c ∷ s) h = refl

pub valid_slug-IsSlug : (s : Text) (limit : ℕ) → valid_slug s limit ≡ true → IsSlug limit s
unfolding valid_slug
valid_slug-IsSlug s limit h =
    let (c, after, p, e) = (first_is_iff is_slug_char s).0 (ground arith) in
    let (before, d, q, f) = (last_is_iff is_slug_char s).0 (ground arith) in
    let chars : all (λ c. is_slug_char c || nat_eq c b'-') s ≡ true = ground arith in
    record {
      begins = (c, after, (slug_char_iff c).0 p, e);
      ends = (before, d, (slug_char_iff d).0 q, f);
      made_of = λ x m. one x (all_elim (λ c. is_slug_char c || nat_eq c b'-') chars m);
      short = ground (arith, len-ascii s chars);
    }
  where
    one : (x : ℕ) → (is_slug_char x || nat_eq x b'-') ≡ true → (x ≡ b'-') ⊎ Memᴰ x alphabet
    one x h = elim (Bool-cases (is_slug_char x)) [
      | inl a ↦ inr ((slug_char_iff x).0 a)
      | inr a ↦ inl ((nat_eq_iff x b'-').0 (ground arith))
    ]

IsSlug-valid_slug : (s : Text) (limit : ℕ) → IsSlug limit s → valid_slug s limit ≡ true
unfolding valid_slug
IsSlug-valid_slug s limit v =
    let (c, after, m, e) = v.begins in
    let (before, d, n, f) = v.ends in
    let first = (first_is_iff is_slug_char s).1 (c, after, (slug_char_iff c).1 m, e) in
    let last = (last_is_iff is_slug_char s).1 (before, d, (slug_char_iff d).1 n, f) in
    let chars = all_intro (λ c. is_slug_char c || nat_eq c b'-') s (λ x m. one x (v.made_of x m)) in
    ground
      (arith, first, last, chars, len-ascii s chars, v.short, is_empty-last_is is_slug_char s first)
  where
    one : (x : ℕ) → (x ≡ b'-') ⊎ Memᴰ x alphabet → (is_slug_char x || nat_eq x b'-') ≡ true
    one x (inl q) = ground (arith, nat_eq_iff x b'-')
    one x (inr m) = ground (arith, (slug_char_iff x).1 m)

pub text_iff : (s : Text) → ((is_blank s ≡ false) × (any is_control s ≡ false)) ↔ IsText s
text_iff s = (
  λ (a, b). record { visible = (visible_iff s).0 a; uncontrolled = λ c m. none_of c m b },
  λ v. ((visible_iff s).1 v.visible, quiet v),
)
  where
    none_of : (c : ℕ) → Memᴰ c s → any is_control s ≡ false → is_control c ≡ false
    none_of c m b = elim (Bool-cases (is_control c)) [
      | inl q ↦ absurd (cc (any_intro is_control m q))
      | inr q ↦ q
    ]

    quiet : IsText s → any is_control s ≡ false
    quiet v = elim (Bool-cases (any is_control s)) [
      | inl q ↦ (let (c, m, e) = any_elim is_control s q in absurd (cc (v.uncontrolled c m)))
      | inr q ↦ q
    ]

IfSome-map :
    {P Q : Text → Type 0} (o : Option Text) → ((s : Text) → P s → Q s) → IfSome P o → IfSome Q o
IfSome-map none f h = tt
IfSome-map (some s) f h = f s h

-- `validate` accepts exactly the configurations of which every given field is valid: the display
-- name and the tagline have a character that is not white space and no control character; the
-- command and the branch prefix are at most 32 and 64 lower-case letters, digits and hyphens, of
-- which the first and the last is no hyphen.
pub validate_iff : (c : FacadeConfig) → (validate c ≡ ok tt) ↔ IsValid c
validate_iff c = (
  λ h.
      let p = validate-Passes c h in
      record {
        display_name = IfSome-map c.display_name (λ s. (text_iff s).0) p.display_name;
        tagline = IfSome-map c.tagline (λ s. (text_iff s).0) p.tagline;
        command = IfSome-map c.command (λ s. valid_slug-IsSlug s 32) p.command;
        branch_prefix = IfSome-map c.branch_prefix (λ s. valid_slug-IsSlug s 64) p.branch_prefix;
      },
  λ v. Passes-validate c (record {
    display_name = IfSome-map c.display_name (λ s. (text_iff s).1) v.display_name;
    tagline = IfSome-map c.tagline (λ s. (text_iff s).1) v.tagline;
    command = IfSome-map c.command (λ s. IsSlug-valid_slug s 32) v.command;
    branch_prefix = IfSome-map c.branch_prefix (λ s. IsSlug-valid_slug s 64) v.branch_prefix;
  }),
)
