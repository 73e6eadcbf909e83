-- ===== src/Plugin/Paths/Decides.antt =====
-- Which paths `validate_repository_path` accepts, said of the parts between the slashes.
use donkeyspace.Prelude.{
  ℕ, ◌≡◌, ◌≢◌, ◌↔◌, refl, sym, ap, subst, Bool, true, false, List, [], ◌∷◌, any, any_intro,
  any_elim, is_empty, ok, Memᴰ, Bool-cases, inl, inr, ◌==◌, ==_iff, text_eq, nat_eq, nat_eq_iff,
  arith,
}
use donkeyspace.Text.{
  Text, lit, is_blank, is_whitespace, visible_iff, eq_ignore_ascii_case, split_on, Splits,
  split_on-Splits, Splits-split_on,
}
use donkeyspace.Policy.PathPattern.{is_slash}
use donkeyspace.Plugin.Paths.{is_absolute, is_brace, validate_repository_path}
use donkeyspace.Plugin.Paths.Tested.{is_named, is_up, is_git, up_parts, named_parts, git_parts}

-- A relative path to a file or directory of a checkout: outside of `.git`, never upwards.
pub record IsRepositoryPath (value : Text) : Type 0 where
  pub visible : (c : ℕ) × Memᴰ c value × (is_whitespace c ≡ false)
  pub no_braces : (c : ℕ) → Memᴰ c value → (c ≢ b'{') × (c ≢ b'}')
  pub relative : (after : Text) → value ≢ b'/' ∷ after
  pub parts : List Text
  pub splits : Splits b'/' value parts
  pub names : (part : Text) × Memᴰ part parts × (part ≢ []) × (part ≢ lit ".")
  pub stays : (part : Text) → Memᴰ part parts → part ≢ lit ".."
  pub not_git : (part : Text) → Memᴰ part parts → eq_ignore_ascii_case part (lit ".git") ≡ false

-- The checks, each on its own.
record Passes (value : Text) : Type 0 where
  visible : is_blank value ≡ false
  no_braces : any is_brace value ≡ false
  relative : is_absolute value ≡ false
  stays : any is_up (split_on is_slash value) ≡ false
  names : any is_named (split_on is_slash value) ≡ true
  not_git : any is_git (split_on is_slash value) ≡ false

validate-Passes : (value : Text) → validate_repository_path value ≡ ok tt → Passes value
unfolding validate_repository_path
validate-Passes value h =
    let relative : is_absolute value ≡ false = ground arith in
    record {
      visible = ground arith;
      no_braces = ground arith;
      relative = relative;
      stays = ground (arith, up_parts value relative);
      names = ground (arith, named_parts value relative);
      not_git = ground (arith, git_parts value relative);
    }

Passes-validate : (value : Text) → Passes value → validate_repository_path value ≡ ok tt
unfolding validate_repository_path
Passes-validate value p = ground (
  arith,
  p.visible,
  p.no_braces,
  p.relative,
  p.stays,
  p.names,
  p.not_git,
  up_parts value p.relative,
  named_parts value p.relative,
  git_parts value p.relative,
)

module _ {A : Type 0} where
  none_of : (q : A → Bool) {x : A} {xs : List A} → any q xs ≡ false → Memᴰ x xs → q x ≡ false
  none_of q {x} h m = elim (Bool-cases (q x)) [ inl e ↦ absurd (cc (any_intro q m e)) | inr e ↦ e ]

  nothing : (q : A → Bool) (xs : List A) → ((x : A) → Memᴰ x xs → q x ≡ false) → any q xs ≡ false
  nothing q xs h = elim (Bool-cases (any q xs)) [
    | inl e ↦ (let (x, m, f) = any_elim q xs e in absurd (cc (h x m)))
    | inr e ↦ e
  ]

is_absolute_iff :
    (value : Text) → (is_absolute value ≡ false) ↔ ((after : Text) → value ≢ b'/' ∷ after)
unfolding is_absolute
is_absolute_iff [] = (λ h after e. cc, λ h. refl)
is_absolute_iff (c ∷ s) = (to, from)
  where
    to : nat_eq c b'/' ≡ false → (after : Text) → c ∷ s ≢ b'/' ∷ after
    to h after e = let same : c ≡ b'/' = cc in ground (arith, nat_eq_iff c b'/', same)

    from : ((after : Text) → c ∷ s ≢ b'/' ∷ after) → nat_eq c b'/' ≡ false
    from h = elim (Bool-cases (nat_eq c b'/')) [
      | inl q ↦ absurd (h s (ap (λ x. x ∷ s) ((nat_eq_iff c b'/').0 q)))
      | inr q ↦ q
    ]

is_brace_iff : (c : ℕ) → (is_brace c ≡ false) ↔ ((c ≢ b'{') × (c ≢ b'}'))
is_brace_iff c = (
  λ h. (λ e. ground (arith, nat_eq_iff c b'{', e), λ e. ground (arith, nat_eq_iff c b'}', e)),
  λ (n, m). elim (Bool-cases (nat_eq c b'{')) [
    | inl q ↦ absurd (n ((nat_eq_iff c b'{').0 q))
    | inr q ↦ elim (Bool-cases (nat_eq c b'}')) [
      | inl r ↦ absurd (m ((nat_eq_iff c b'}').0 r))
      | inr r ↦ ground arith
    ]
  ],
)

differs : (s t : Text) → s ≢ t → (s == t) ≡ false
differs s t n = elim (Bool-cases (s == t)) [ inl q ↦ absurd (n ((==_iff s t).0 q)) | inr q ↦ q ]

same_or : (s t : Text) → (s == t) ≡ false → s ≢ t
same_or s t h e = let q = (==_iff s t).1 e in cc

filled : (s : Text) → s ≢ [] → is_empty s ≡ false
filled [] n = absurd (n refl)
filled (c ∷ s) n = refl

named_iff :
    (part : Text) → part ≢ lit ".." → (is_named part ≡ true) ↔ ((part ≢ []) × (part ≢ lit "."))
unfolding is_named
named_iff part u = (
  λ h. (λ e. let h' : is_named [] ≡ true = rw e at h in cc, same_or part (lit ".") (ground arith)),
  λ (n, d). ground (arith, filled part n, differs part (lit ".") d, differs part (lit "..") u),
)

-- The path check accepts exactly the paths that stay in a checkout and outside of its `.git`: the
-- path has a character that is not white space and no brace, and does not begin with a slash; of
-- the parts between its slashes none is `..`, none is `.git` in any case, and some part is neither
-- empty nor `.`.
pub validate_repository_path_iff :
    (value : Text) → (validate_repository_path value ≡ ok tt) ↔ IsRepositoryPath value
validate_repository_path_iff value = (to, from)
  where
    to : validate_repository_path value ≡ ok tt → IsRepositoryPath value
    to h =
        let p = validate-Passes value h in
        let stays : (part : Text) → Memᴰ part (split_on is_slash value) → part ≢ lit ".." =
          λ part m. same_or part (lit "..") (none_of is_up p.stays m) in
        record {
          visible = (visible_iff value).0 p.visible;
          no_braces = λ c m. (is_brace_iff c).0 (none_of is_brace p.no_braces m);
          relative = (is_absolute_iff value).0 p.relative;
          parts = split_on is_slash value;
          splits = split_on-Splits b'/' value;
          names =
              (let (part, m, q) = any_elim is_named (split_on is_slash value) p.names in
                let (n, d) = (named_iff part (stays part m)).0 q in (part, m, n, d));
          stays = stays;
          not_git = λ part m. none_of is_git p.not_git m;
        }

    from : IsRepositoryPath value → validate_repository_path value ≡ ok tt
    from v =
        let same : v.parts ≡ split_on is_slash value = sym (Splits-split_on b'/' v.splits) in
        let (part, m, n, d) = v.names in
        Passes-validate value (record {
          visible = (visible_iff value).1 v.visible;
          no_braces = nothing is_brace value (λ c m. (is_brace_iff c).1 (v.no_braces c m));
          relative = (is_absolute_iff value).1 v.relative;
          stays =
              subst (λ ps. any is_up ps ≡ false) same
                (nothing is_up v.parts (λ q m. differs q (lit "..") (v.stays q m)));
          names =
              subst (λ ps. any is_named ps ≡ true) same
                (any_intro is_named m ((named_iff part (v.stays part m)).1 (n, d)));
          not_git = subst (λ ps. any is_git ps ≡ false) same (nothing is_git v.parts v.not_git);
        })
