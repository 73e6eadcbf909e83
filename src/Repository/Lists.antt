-- ===== src/Repository/Lists.antt =====
-- Lists of repositories: what `parse_list` accepts, and that a printed list is read back.
use mathlib.Core.List.{reverse-cons, reverse-reverse}
use donkeyspace.Prelude.{
  ℕ, ◌≡◌, refl, sym, ap, ◌∙◌, subst, Bool, true, false, not, ◌||◌, List, [], ◌∷◌, ◌++◌, map,
  map_mem, keep_mem, any, contains, ok, ok_or, fail_if, >>=-eq-ok, >>-eq-ok, ok_inj, ok_or-eq-ok,
  fail_if-eq-ok, is_empty, is_distinct, if◌then◌else◌, nat_eq, text_eq, ◌==◌, ==_iff, arith, All,
  All_elim, Memᴰ, Bool-cases, inl, inr, reverse,
}
use donkeyspace.Text.{
  Text, lit, split_on, split_on-any, split_on_none, split_on-append, split_once, split_once_sound,
  split_once_finds, trim, trim_matches, trim_end_matches, drop_while, is_whitespace, has_char,
  to_ascii_lowercase, join,
}
use donkeyspace.Repository.{
  RepositoryName, full_name, parse_entry, parse_entries, entries, parse_list,
}

-- Owner and name are there and have no slash, no comma and no white space.
pub record IsRepository (r : RepositoryName) : Type 0 where
  pub has_owner : is_empty r.owner ≡ false
  pub has_name : is_empty r.name ≡ false
  pub owner_no_slash : has_char 47 r.owner ≡ false
  pub name_no_slash : has_char 47 r.name ≡ false
  pub no_comma : has_char 44 (full_name r) ≡ false
  pub no_space : any is_whitespace (full_name r) ≡ false

any-append : (p : ℕ → Bool) (s t : Text) → any p (s ++ t) ≡ (any p s || any p t)
any-append p [] t = refl
any-append p (c ∷ s) t = ground (arith, any-append p s t)

drop_while_none : (p : ℕ → Bool) (s : Text) → any p s ≡ false → drop_while p s ≡ s
unfolding drop_while
drop_while_none p [] h = refl
drop_while_none p (c ∷ s) h = ground arith

any-drop_while : (p q : ℕ → Bool) (s : Text) → any q s ≡ false → any q (drop_while p s) ≡ false
unfolding drop_while
any-drop_while p q [] h = refl
any-drop_while p q (c ∷ s) h = ground (arith, any-drop_while p q s)

any-reverse : (p : ℕ → Bool) (s : Text) → any p (reverse s) ≡ any p s
any-reverse p [] = refl
any-reverse p (c ∷ s) =
    rw (reverse-cons c s) (ground (arith, any-append p (reverse s) (c ∷ []), any-reverse p s))

trim_none : (s : Text) → any is_whitespace s ≡ false → trim s ≡ s
unfolding trim trim_matches trim_end_matches
trim_none s h =
    ap reverse (
      drop_while_none is_whitespace (reverse (drop_while is_whitespace s)) (
        any-reverse is_whitespace (drop_while is_whitespace s)
        ∙ any-drop_while is_whitespace is_whitespace s h))
    ∙ (reverse-reverse _ ∙ drop_while_none is_whitespace s h)

any-trim : (q : ℕ → Bool) (s : Text) → any q s ≡ false → any q (trim s) ≡ false
unfolding trim trim_matches trim_end_matches
any-trim q s h =
    any-reverse q _
    ∙ any-drop_while is_whitespace q _ (any-reverse q _ ∙ any-drop_while is_whitespace q s h)

abbrev pub lower_name : RepositoryName → Text
lower_name r = to_ascii_lowercase (full_name r)

-- An accepted entry is the full name of its repository.
parse_entry-IsRepository :
    (entry : Text) {r : RepositoryName}
    → parse_entry entry ≡ ok r
    → has_char 44 entry ≡ false
    → IsRepository r × (full_name r ≡ entry)
unfolding parse_entry full_name lit
parse_entry-IsRepository entry {r} e n =
    let (parts, f, e) = >>=-eq-ok (ok_or (split_once 47 entry) _) _ e in
    let (g, e) =
      >>-eq-ok
        (fail_if
          (is_empty parts.0 || is_empty parts.1 || has_char 47 parts.1 || any is_whitespace entry)
          _)
        _ e in
    let h = fail_if-eq-ok _ _ g in
    let (q, o) =
      split_once_sound 47 entry parts.0 parts.1 (ok_or-eq-ok (split_once 47 entry) _ f) in
    let same = ok_inj e in
    subst (λ r. IsRepository r × (full_name r ≡ entry)) same
      (
        record {
          has_owner = ground arith;
          has_name = ground arith;
          owner_no_slash = o;
          name_no_slash = ground arith;
          no_comma = subst (λ s. has_char 44 s ≡ false) q n;
          no_space = subst (λ s. any is_whitespace s ≡ false) q (ground arith);
        },
        sym q,
      )

entries-has_char : (value : Text) {e : Text} → Memᴰ e (entries value) → has_char 44 e ≡ false
unfolding entries
entries-has_char value {e} m =
    let (n, _) =
      keep_mem (λ s. not (is_empty s)) (map trim (split_on (λ c. nat_eq c 44) value)) m in
    let (s, i, q) = map_mem trim (split_on (λ c. nat_eq c 44) value) n in
    subst (λ s. has_char 44 s ≡ false) (sym q)
      (any-trim (λ c. nat_eq c 44) s
        (All_elim _ (split_on (λ c. nat_eq c 44) value) (split_on-any (λ c. nat_eq c 44) value) i))

-- What the loop gives, and that the names it gives are new to it.
record IsList (seen : List Text) (rs : List RepositoryName) : Type 0 where
  valid : All IsRepository rs
  distinct : is_distinct (map lower_name rs) ≡ true
  unseen : (n : Text) → contains (map lower_name rs) n ≡ true → contains seen n ≡ false

parse_entries-IsList :
    (seen es : List Text) {rs : List RepositoryName}
    → parse_entries seen es ≡ ok rs
    → ((e : Text) → Memᴰ e es → has_char 44 e ≡ false)
    → IsList seen rs
unfolding parse_entries
parse_entries-IsList seen [] e n =
    subst (IsList seen) (ok_inj e) (record { valid = tt; distinct = refl; unseen = λ n h. cc })
parse_entries-IsList seen (entry ∷ more) {rs} e n =
    let (r, f, e) = >>=-eq-ok (parse_entry entry) _ e in
    let (rest, g, e) =
      >>=-eq-ok
        (parse_entries
          (if contains seen (to_ascii_lowercase entry)
            then seen
            else to_ascii_lowercase entry ∷ seen)
          more)
        _ e in
    let (v, q) = parse_entry-IsRepository entry f (n entry (Memᴰ.head refl)) in
    elim (Bool-cases (contains seen (to_ascii_lowercase entry))) [
      | inl c ↦
          let g' : parse_entries seen more ≡ ok rest = rw c at g in
          let e' : ok rest ≡ ok rs = rw c at e in
          subst (IsList seen) (ok_inj e')
            (parse_entries-IsList seen more {rs = rest} g' (λ i m. n i (Memᴰ.tail m)))
      | inr c ↦
          let g' : parse_entries (to_ascii_lowercase entry ∷ seen) more ≡ ok rest = rw c at g in
          let e' : ok (r ∷ rest) ≡ ok rs = rw c at e in
          let ih =
            parse_entries-IsList (to_ascii_lowercase entry ∷ seen) more {rs = rest} g'
              (λ i m. n i (Memᴰ.tail m)) in
          subst (IsList seen) (ok_inj e') (grown r rest v (ap to_ascii_lowercase q) c ih)
    ]
  where
    grown :
        (r : RepositoryName) (rest : List RepositoryName)
        → IsRepository r
        → lower_name r ≡ to_ascii_lowercase entry
        → contains seen (to_ascii_lowercase entry) ≡ false
        → IsList (to_ascii_lowercase entry ∷ seen) rest
        → IsList seen (r ∷ rest)
    grown r rest v q c ih = record {
      valid = (v, ih.valid);
      distinct = ground (
        arith,
        ih.distinct,
        ih.unseen (lower_name r),
        ==_iff (to_ascii_lowercase entry) (lower_name r),
        q,
      );
      unseen = λ n h. elim (Bool-cases (lower_name r == n)) [
        | inl e ↦ subst (λ m. contains seen m ≡ false) (sym q ∙ (==_iff (lower_name r) n).0 e) c
        | inr e ↦ ground (arith, ih.unseen n, h)
      ];
    }

parse_entry-full_name : (r : RepositoryName) → IsRepository r → parse_entry (full_name r) ≡ ok r
unfolding parse_entry full_name lit
parse_entry-full_name r v =
    rw
      (
        split_once_finds 47 r.owner r.name v.owner_no_slash,
        v.has_owner,
        v.has_name,
        v.name_no_slash,
        v.no_space,
      )
      refl

parse_entries-full_name :
    (seen : List Text) (rs : List RepositoryName)
    → IsList seen rs
    → parse_entries seen (map full_name rs) ≡ ok rs
unfolding parse_entries
parse_entries-full_name seen [] l = refl
parse_entries-full_name seen (r ∷ rs) l =
    let new = l.unseen (lower_name r) (ground (arith, ==_iff (lower_name r) (lower_name r))) in
    rw
      (
        parse_entry-full_name r l.valid.0,
        new,
        parse_entries-full_name (lower_name r ∷ seen) rs (record {
          valid = l.valid.1;
          distinct = ground (arith, l.distinct);
          unseen = λ n h. ground (
            arith,
            l.distinct,
            l.unseen n,
            h,
            ==_iff (lower_name r) n,
            ap (contains (map lower_name rs)) {x = lower_name r} {y = n},
          );
        }),
      )
      refl

is_empty-full_name : (r : RepositoryName) → IsRepository r → is_empty (full_name r) ≡ false
unfolding full_name
is_empty-full_name r v = longer r.owner (lit "/" ++ r.name) v.has_owner
  where
    longer : (s t : Text) → is_empty s ≡ false → is_empty (s ++ t) ≡ false
    longer [] t h = cc
    longer (c ∷ s) t h = refl

entries_one : (r : RepositoryName) → IsRepository r → entries (full_name r) ≡ full_name r ∷ []
unfolding entries
entries_one r v =
    rw
      (
        split_on_none (λ c. nat_eq c 44) (full_name r) v.no_comma,
        trim_none (full_name r) v.no_space,
        is_empty-full_name r v,
      )
      refl

entries_more :
    (r : RepositoryName) (rest : Text)
    → IsRepository r
    → entries (full_name r ++ (44 ∷ rest)) ≡ full_name r ∷ entries rest
unfolding entries
entries_more r rest v =
    rw
      (
        split_on-append (λ c. nat_eq c 44) (full_name r) rest 44 v.no_comma refl,
        trim_none (full_name r) v.no_space,
        is_empty-full_name r v,
      )
      refl

entries-join :
    (rs : List RepositoryName)
    → All IsRepository rs
    → entries (join (lit ",") (map full_name rs)) ≡ map full_name rs
unfolding entries join lit split_on trim trim_matches trim_end_matches drop_while
entries-join [] v = refl
entries-join (r ∷ []) v = entries_one r v.0
entries-join (r ∷ s ∷ rs) v =
    entries_more r (join (lit ",") (map full_name (s ∷ rs))) v.0
    ∙ ap (λ es. full_name r ∷ es) (entries-join (s ∷ rs) v.1)

-- `parse_list` gives names of an owner and a repository, without slashes, commas and white space, and none
-- twice when the case of letters is ignored; and the list of their full names is read back as it is.
pub parse_list-join :
    (value : Text) (rs : List RepositoryName)
    → parse_list value ≡ ok rs
    → All IsRepository rs
      × (is_distinct (map lower_name rs) ≡ true)
      × (parse_list (join (lit ",") (map full_name rs)) ≡ ok rs)
unfolding parse_list
parse_list-join value rs e =
    let l = parse_entries-IsList [] (entries value) {rs = rs} e (λ t m. entries-has_char value m) in
    (
      l.valid,
      l.distinct,
      ap (parse_entries []) (entries-join rs l.valid) ∙ parse_entries-full_name [] rs l,
    )
