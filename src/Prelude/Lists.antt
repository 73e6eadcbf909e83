-- ===== src/Prelude/Lists.antt =====
-- Lists: lengths over the native numbers, Boolean quantifiers, and predicates on all entries.
use Prim.Native.Nat.{ℕ, suc, ◌+◌, ◌≤◌, ◌<◌}
use mathlib.Core.Path.{◌≡◌, refl, ap, sym, subst}
use mathlib.Core.Logic.{inl, inr}
use mathlib.Core.Bool.{Bool, true, false, not, ◌&&◌, ◌||◌}
use mathlib.Core.Option.{Option, none, some}
use mathlib.Core.List.{List, [], ◌∷◌, ◌++◌, map, Memᴰ}
use native.Mathlib.Omega.{arith}
use donkeyspace.Prelude.Tests.{Eq, ◌==◌, ==_iff, if◌then◌else◌, Bool-cases}

module _ {ℓ} {A : Type ℓ} where
  abbrev pub length : List A → ℕ
  length [] = 0
  length (x ∷ xs) = suc (length xs)

  abbrev pub is_empty : List A → Bool
  is_empty [] = true
  is_empty (x ∷ xs) = false

  pub is_empty-nil : (xs : List A) → is_empty xs ≡ true → xs ≡ []
  is_empty-nil [] h = refl
  is_empty-nil (x ∷ xs) h = cc

  abbrev pub any : (A → Bool) → List A → Bool
  any p [] = false
  any p (x ∷ xs) = p x || any p xs

  abbrev pub all : (A → Bool) → List A → Bool
  all p [] = true
  all p (x ∷ xs) = p x && all p xs

  -- The entries that pass a test, in order (Rust's `filter` and `retain`).
  abbrev pub keep : (A → Bool) → List A → List A
  keep p [] = []
  keep p (x ∷ xs) = let rest = keep p xs in if p x then x ∷ rest else rest

  -- The first entry that passes (`Iterator::find`).
  abbrev pub find : (A → Bool) → List A → Option A
  find p [] = none
  find p (x ∷ xs) = let rest = find p xs in if p x then some x else rest

  pub length-append : (xs ys : List A) → length (xs ++ ys) ≡ length xs + length ys
  length-append [] ys = omega arith
  length-append (x ∷ xs) ys = omega (arith, length-append xs ys)

  pub length-keep-le : (p : A → Bool) (xs : List A) → length (keep p xs) ≤ length xs
  length-keep-le p [] = omega arith
  length-keep-le p (x ∷ xs) = ground (arith, length-keep-le p xs)

  pub any_intro : (p : A → Bool) {a : A} {xs : List A} → Memᴰ a xs → p a ≡ true → any p xs ≡ true
  any_intro p (Memᴰ.head e) h = ground (arith, ap p e)
  any_intro p (Memᴰ.tail {x} m) h = ground (arith, any_intro p m h)

  pub any_elim : (p : A → Bool) (xs : List A) → any p xs ≡ true → (a : A) × Memᴰ a xs × (p a ≡ true)
  any_elim p [] h = cc
  any_elim p (x ∷ xs) h = elim (Bool-cases (p x)) [
    | inl e ↦ (x, Memᴰ.head refl, e)
    | inr e ↦ let (a, m, q) = any_elim p xs (ground arith) in (a, Memᴰ.tail m, q)
  ]

  pub all_elim : (p : A → Bool) {a : A} {xs : List A} → all p xs ≡ true → Memᴰ a xs → p a ≡ true
  all_elim p h (Memᴰ.head e) = ground (arith, ap p e)
  all_elim p h (Memᴰ.tail m) = all_elim p (ground arith) m

  pub all_intro :
      (p : A → Bool) (xs : List A) → ((a : A) → Memᴰ a xs → p a ≡ true) → all p xs ≡ true
  all_intro p [] h = refl
  all_intro p (x ∷ xs) h =
      let rest = all_intro p xs (λ a m. h a (Memᴰ.tail m)) in
      ground (arith, h x (Memᴰ.head refl), rest)

  pub mem-keep : (p : A → Bool) {a : A} {xs : List A} → Memᴰ a xs → p a ≡ true → Memᴰ a (keep p xs)
  mem-keep p (Memᴰ.head {x} {xs} e) h = rw (← e, h) (Memᴰ.head refl)
  mem-keep p (Memᴰ.tail {x} {xs} m) h = elim (Bool-cases (p x)) [
    | inl e ↦ rw e (Memᴰ.tail (mem-keep p m h))
    | inr e ↦ rw e (mem-keep p m h)
  ]

  pub keep_mem :
      (p : A → Bool) {a : A} (xs : List A) → Memᴰ a (keep p xs) → Memᴰ a xs × (p a ≡ true)
  keep_mem p {a} [] m = elim m [ ]
  keep_mem p {a} (x ∷ xs) m = elim (Bool-cases (p x)) [
    | inl e ↦ first e (let n : Memᴰ a (x ∷ keep p xs) = rw e at m in n) (keep_mem p xs)
    | inr e ↦
        let (n, h) = keep_mem p xs (let n : Memᴰ a (keep p xs) = rw e at m in n) in (Memᴰ.tail n, h)
  ]
    where
      first :
          p x ≡ true
          → Memᴰ a (x ∷ keep p xs)
          → (Memᴰ a (keep p xs) → Memᴰ a xs × (p a ≡ true))
          → Memᴰ a (x ∷ xs) × (p a ≡ true)
      first e (Memᴰ.head q) ih = (Memᴰ.head q, rw q e)
      first e (Memᴰ.tail n) ih = let (k, h) = ih n in (Memᴰ.tail k, h)

-- Membership as a test (`contains`), for types with an equality.
module _ {ℓ} {A : Type ℓ} ⦃e : Eq A⦄ where
  abbrev pub contains : List A → A → Bool
  contains [] a = false
  contains (x ∷ xs) a = x == a || contains xs a

  pub contains_mem : (xs : List A) (a : A) → contains xs a ≡ true → Memᴰ a xs
  contains_mem [] a h = cc
  contains_mem (x ∷ xs) a h = elim (Bool-cases (x == a)) [
    | inl q ↦ Memᴰ.head (sym ((==_iff x a).0 q))
    | inr q ↦ Memᴰ.tail (contains_mem xs a (ground arith))
  ]

  pub mem_contains : {a : A} {xs : List A} → Memᴰ a xs → contains xs a ≡ true
  mem_contains {a} (Memᴰ.head {x} q) = ground (arith, ==_iff x a)
  mem_contains (Memᴰ.tail m) = ground (arith, mem_contains m)

  pub contains-append :
      (xs ys : List A) (a : A) → contains (xs ++ ys) a ≡ (contains xs a || contains ys a)
  contains-append [] ys a = refl
  contains-append (x ∷ xs) ys a = ground (arith, contains-append xs ys a)

  -- Taking back what was pushed at the end.
  pub keep_ne-push :
      (xs : List A) (a : A) → contains xs a ≡ false → keep (λ x. not (x == a)) (xs ++ a ∷ []) ≡ xs
  keep_ne-push [] a h = ground (arith, ==_iff a a)
  keep_ne-push (x ∷ xs) a h = ground (arith, keep_ne-push xs a)

module _ {ℓ} {A : Type ℓ} where
  pub length-keep_mono :
      (p q : A → Bool) (xs : List A)
      → ((x : A) → p x ≡ true → q x ≡ true)
      → length (keep p xs) ≤ length (keep q xs)
  length-keep_mono p q [] h = omega arith
  length-keep_mono p q (x ∷ xs) h = ground (arith, h x, length-keep_mono p q xs h)

  pub length-keep-lt :
      (p q : A → Bool) {a : A} {xs : List A}
      → ((x : A) → p x ≡ true → q x ≡ true)
      → Memᴰ a xs
      → p a ≡ false
      → q a ≡ true
      → length (keep p xs) < length (keep q xs)
  length-keep-lt p q {a} h (Memᴰ.head {x} {xs} e) pa qa =
      let px : p x ≡ false = rw e at pa in
      let qx : q x ≡ true = rw e at qa in ground (arith, length-keep_mono p q xs h)
  length-keep-lt p q h (Memᴰ.tail {x} {xs} m) pa qa =
      ground (arith, h x, length-keep-lt p q h m pa qa)

module _ {ℓ κ} {A : Type ℓ} (P : A → Type κ) where
  abbrev pub All : List A → Type κ
  All [] = Unit
  All (x ∷ xs) = P x × All xs

  pub All_elim : (xs : List A) {a : A} → All xs → Memᴰ a xs → P a
  All_elim [] h m = elim m [ ]
  All_elim (x ∷ xs) h (Memᴰ.head e) = subst P (sym e) h.0
  All_elim (x ∷ xs) h (Memᴰ.tail m) = All_elim xs h.1 m

  pub All-intro : (xs : List A) → ((a : A) → Memᴰ a xs → P a) → All xs
  All-intro [] h = tt
  All-intro (x ∷ xs) h = (h x (Memᴰ.head refl), All-intro xs (λ a m. h a (Memᴰ.tail m)))

  pub All-append : (xs ys : List A) → All xs → All ys → All (xs ++ ys)
  All-append [] ys h k = k
  All-append (x ∷ xs) ys h k = (h.0, All-append xs ys h.1 k)

module _ {ℓ} {A : Type ℓ} where
  pub find_sound :
      (p : A → Bool) (xs : List A) {a : A} → find p xs ≡ some a → Memᴰ a xs × (p a ≡ true)
  find_sound p [] h = cc
  find_sound p (x ∷ xs) {a} h = elim (Bool-cases (p x)) [
    | inl e ↦ let same : a ≡ x = ground arith in (Memᴰ.head same, rw same e)
    | inr e ↦ let (m, q) = find_sound p xs {a = a} (ground arith) in (Memᴰ.tail m, q)
  ]

  -- An entry that passes is not missed.
  pub find_finds :
      (p : A → Bool) {a : A} {xs : List A} → Memᴰ a xs → p a ≡ true → (b : A) × (find p xs ≡ some b)
  find_finds p {a} (Memᴰ.head {x} e) h = (x, ground (arith, ap p e))
  find_finds p (Memᴰ.tail {x} m) h = elim (Bool-cases (p x)) [
    | inl e ↦ (x, ground arith)
    | inr e ↦ let (b, q) = find_finds p m h in (b, ground arith)
  ]

module _ {ℓ} {A : Type ℓ} where
  pub find-none : (p : A → Bool) {a : A} {xs : List A} → Memᴰ a xs → find p xs ≡ none → p a ≡ false
  find-none p {a} (Memᴰ.head {x} e) h = ground (arith, ap p e)
  find-none p (Memᴰ.tail m) h = find-none p m (ground arith)

  pub length-map {κ} : {B : Type κ} (f : A → B) (xs : List A) → length (map f xs) ≡ length xs
  length-map f [] = refl
  length-map f (x ∷ xs) = ap suc (length-map f xs)

  pub mem-map {κ} :
      {B : Type κ} (f : A → B) {a : A} {xs : List A} → Memᴰ a xs → Memᴰ (f a) (map f xs)
  mem-map f (Memᴰ.head q) = Memᴰ.head (ap f q)
  mem-map f (Memᴰ.tail n) = Memᴰ.tail (mem-map f n)

  pub map_mem {κ} :
      {B : Type κ} (f : A → B) {b : B} (xs : List A)
      → Memᴰ b (map f xs)
      → (a : A) × Memᴰ a xs × (b ≡ f a)
  map_mem f [] n = elim n [ ]
  map_mem f (x ∷ xs) (Memᴰ.head q) = (x, Memᴰ.head refl, q)
  map_mem f (x ∷ xs) (Memᴰ.tail n) = let (a, m, q) = map_mem f xs n in (a, Memᴰ.tail m, q)
