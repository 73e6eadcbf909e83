-- ===== src/Access/Narrows.antt =====
-- An override of the policy only narrows the access of a task, and reported changes stay in it.
use donkeyspace.Prelude.{
  ◌≡◌, refl, sym, ap, ◌∙◌, subst, Bool, true, false, not, ◌||◌, List, [], ◌∷◌, ◌++◌, append_assoc,
  any, any_intro, any_elim, all, all_elim, Option, none, some, Result, ok, err, fail_if, find,
  find-none, >>=-eq-ok, >>-eq-ok, ok_inj, map_err-eq-ok, fail_if-eq-ok, Option-cases, Bool-cases,
  inl, inr, ◌⊎◌, ◌↔◌, lookup, ◌==◌, ==_iff, text_eq, Memᴰ, arith,
}
use donkeyspace.Text.{
  Text, lit, strip_prefix, strip_prefix_sound, strip_prefix-append, starts_with_iff,
}
use donkeyspace.Plugin.{PluginParameter, TextMap}
use donkeyspace.Plugin.Paths.{validate_repository_path}
use donkeyspace.Plugin.Paths.Decides.{IsRepositoryPath, validate_repository_path_iff}
use donkeyspace.Access.{
  unsafe_path, AccessError, TaskAccessOverride, validate_runtime_path, covered, below, override_or,
  apply_override, resolve_access, is_refused, validate_changed_files,
}

-- The file is the root, or lies in the directory that the root names.
abbrev pub IsUnder : Text → Text → Type 0
IsUnder root file = (file ≡ root) ⊎ ((rest : Text) × (file ≡ root ++ (47 ∷ rest)))

below_iff :
    (root file : Text)
    → (below (strip_prefix root file) ≡ true) ↔ ((rest : Text) × (file ≡ root ++ (47 ∷ rest)))
unfolding below lit
below_iff root file = (to, from)
  where
    to : below (strip_prefix root file) ≡ true → (rest : Text) × (file ≡ root ++ (47 ∷ rest))
    to h = elim (Option-cases (strip_prefix root file)) [
      | inl e ↦ absurd (ground arith)
      | inr (tail, e) ↦
          let (rest, q) = (starts_with_iff (47 ∷ []) tail).0 (ground arith) in
          (rest, strip_prefix_sound root file tail e ∙ ap (λ t. root ++ t) q)
    ]

    from : (rest : Text) × (file ≡ root ++ (47 ∷ rest)) → below (strip_prefix root file) ≡ true
    from (rest, q) =
        rw (q, strip_prefix-append root (47 ∷ rest))
          ((starts_with_iff (47 ∷ []) (47 ∷ rest)).1 (rest, refl))

-- A path is covered exactly when it is under one of the roots.
pub covered_iff :
    (file : Text) (roots : List Text)
    → (covered file roots ≡ true) ↔ ((root : Text) × Memᴰ root roots × IsUnder root file)
unfolding covered
covered_iff file roots = (to, from)
  where
    under :
        (root : Text) → (file == root || below (strip_prefix root file)) ≡ true → IsUnder root file
    under root h = elim (Bool-cases (file == root)) [
      | inl q ↦ inl ((==_iff file root).0 q)
      | inr q ↦ inr ((below_iff root file).0 (ground arith))
    ]

    holds :
        (root : Text) → IsUnder root file → (file == root || below (strip_prefix root file)) ≡ true
    holds root (inl q) = ground (arith, ==_iff file root)
    holds root (inr w) = ground (arith, (below_iff root file).1 w)

    to :
        any (λ root. file == root || below (strip_prefix root file)) roots ≡ true
        → (root : Text) × Memᴰ root roots × IsUnder root file
    to h = let (root, m, q) = any_elim _ roots h in (root, m, under root q)

    from :
        (root : Text) × Memᴰ root roots × IsUnder root file
        → any (λ root. file == root || below (strip_prefix root file)) roots ≡ true
    from (root, m, u) = any_intro _ m (holds root u)

IsUnder-trans : (a b c : Text) → IsUnder a b → IsUnder b c → IsUnder a c
IsUnder-trans a b c (inl p) v = subst (λ r. IsUnder r c) p v
IsUnder-trans a b c (inr (s, p)) (inl q) = inr (s, q ∙ p)
IsUnder-trans a b c (inr (s, p)) (inr (t, q)) =
    inr (s ++ (47 ∷ t), q ∙ (ap (λ r. r ++ (47 ∷ t)) p ∙ append_assoc a (47 ∷ s) (47 ∷ t)))

-- What covers each of the roots covers what they cover.
covered_trans :
    (file : Text) (roots declared : List Text)
    → all (λ root. covered root declared) roots ≡ true
    → covered file roots ≡ true
    → covered file declared ≡ true
covered_trans file roots declared h c =
    let (root, m, u) = (covered_iff file roots).0 c in
    let (base, n, v) =
      (covered_iff root declared).0 (all_elim (λ root. covered root declared) h m) in
    (covered_iff file declared).1 (base, n, IsUnder-trans base root file v u)

Narrows : List Text → List Text → Type 0
Narrows roots declared = (file : Text) → covered file roots ≡ true → covered file declared ≡ true

apply_override-Narrows :
    (stage : Text) (declared_read declared_write : List Text) (parameters : TextMap (Option Text))
    (definitions : TextMap PluginParameter) (overrides : Option TaskAccessOverride)
    {read write : List Text}
    → apply_override stage declared_read declared_write parameters definitions overrides
      ≡ ok (read, write)
    → Narrows read declared_read × Narrows write declared_write
unfolding apply_override Narrows
apply_override-Narrows stage dr dw parameters definitions none {read} {write} e =
    let same = ok_inj e in
    (
      (λ file c. subst (λ p. covered file p.0 ≡ true) (sym same) c),
      (λ file c. subst (λ p. covered file p.1 ≡ true) (sym same) c),
    )
apply_override-Narrows stage dr dw parameters definitions (some overrides) e =
    let (r, _, e) = >>=-eq-ok (override_or overrides.read parameters definitions dr) _ e in
    let (w, _, e) = >>=-eq-ok (override_or overrides.write parameters definitions dw) _ e in
    let (g, e) =
      >>-eq-ok
        (fail_if (not (all (λ file. covered file dr) r) || not (all (λ file. covered file dw) w)) _)
        _ e in
    let h = fail_if-eq-ok _ _ g in
    let same = ok_inj e in
    (
      (λ file c.
          covered_trans file r dr (ground arith)
            (subst (λ p. covered file p.0 ≡ true) (sym same) c)),
      (λ file c.
          covered_trans file w dw (ground arith)
            (subst (λ p. covered file p.1 ≡ true) (sym same) c)),
    )

changed_files_covered :
    (files roots : List Text)
    → validate_changed_files files roots ≡ ok tt
    → (file : Text) → Memᴰ file files
    → (validate_runtime_path file ≡ ok tt) × (covered file roots ≡ true)
unfolding validate_changed_files
changed_files_covered files roots e file m =
    let t : Text → Bool =
      λ file. is_refused (validate_runtime_path file) || not (covered file roots) in
    elim (Option-cases (find t files)) [
      | inr (bad, q) ↦ absurd (ground (arith, e, q))
      | inl q ↦
          let h = find-none t m q in
          (accepted (validate_runtime_path file) (ground arith), ground arith)
    ]
  where
    accepted : (r : Result AccessError (Unit {0})) → is_refused r ≡ false → r ≡ ok tt
    accepted (ok tt) h = refl
    accepted (err x) h = cc

-- Changes that are accepted with the resolved roots for writing stay in what the task declares:
-- each changed file is a declared root for writing or lies in the directory that one names, and its
-- path stays in the checkout and outside of its `.git`.
pub resolve_access-validate_changed_files :
    (task_access_overrides : TextMap TaskAccessOverride) (stage : Text)
    (declared_read declared_write : List Text) (parameters : TextMap (Option Text))
    (definitions : TextMap PluginParameter) (read write files : List Text) (file : Text)
    → resolve_access task_access_overrides stage declared_read declared_write parameters definitions
      ≡ ok (read, write)
    → validate_changed_files files write ≡ ok tt
    → Memᴰ file files
    → ((root : Text) × Memᴰ root declared_write × IsUnder root file) × IsRepositoryPath file
unfolding resolve_access Narrows validate_runtime_path
resolve_access-validate_changed_files overrides stage dr dw parameters definitions read write files
      file e f m =
    let (r, w) =
      apply_override-Narrows stage dr dw parameters definitions (lookup stage overrides)
        {read = read} {write = write} e in
    let (p, d) = changed_files_covered files write f file m in
    (
      (covered_iff file dw).0 (w file d),
      (validate_repository_path_iff file).0
          (map_err-eq-ok unsafe_path (validate_repository_path file) p),
    )
