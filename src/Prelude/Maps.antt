-- ===== src/Prelude/Maps.antt =====
-- `BTreeMap` as the list of its entries in key order, with the operations that the source uses.
use mathlib.Core.Path.{◌≡◌, refl, sym, ap, ◌∙◌}
use mathlib.Core.Logic.{inl, inr}
use mathlib.Core.Bool.{Bool, true, false, ◌||◌}
use mathlib.Core.Option.{Option, none, some}
use mathlib.Core.List.{List, [], ◌∷◌, Memᴰ}
use native.Mathlib.Omega.{arith}
use Prim.Native.Nat.{suc}
use donkeyspace.Prelude.Lists.{length, contains, contains_mem, mem_contains}
use donkeyspace.Prelude.Distinct.{is_distinct}
use donkeyspace.Prelude.Tests.{Option-cases, Eq, ◌==◌, ==_iff, if◌then◌else◌, Bool-cases}

-- Rust's `Ord` on keys: `before a b` holds when `a` is strictly smaller.
pub record Ord {ℓ} (K : Type ℓ) : Type ℓ where
  pub before : K → K → Bool

module _ {ℓ κ} {K : Type ℓ} {V : Type κ} where
  abbrev pub keys : List (K × V) → List K
  keys [] = []
  keys ((k, v) ∷ m) = k ∷ keys m

  abbrev pub values : List (K × V) → List V
  values [] = []
  values ((k, v) ∷ m) = v ∷ values m

abbrev pub is_some {ℓ} : {V : Type ℓ} → Option V → Bool
is_some none = false
is_some (some v) = true

module _ {ℓ κ} {K : Type ℓ} {V : Type κ} ⦃e : Eq K⦄ where
  -- `get`.
  unfoldable pub lookup : K → List (K × V) → Option V
  lookup k [] = none
  lookup k ((j, v) ∷ m) = let rest = lookup k m in if j == k then some v else rest

  -- `contains_key`.
  abbrev pub contains_key : K → List (K × V) → Bool
  contains_key k m = is_some (lookup k m)

  -- A write through `get_mut`, which changes nothing where the key is missing.
  unfoldable pub assign : K → V → List (K × V) → List (K × V)
  assign k v [] = []
  assign k v ((j, w) ∷ m) = let rest = assign k v m in if j == k then (j, v) ∷ m else (j, w) ∷ rest

  unfoldable pub place : ⦃o : Ord K⦄ → K → V → List (K × V) → List (K × V)
  place k v [] = (k, v) ∷ []
  place ⦃o⦄ k v ((j, w) ∷ m) =
      let rest = place k v m in if o.before k j then (k, v) ∷ (j, w) ∷ m else (j, w) ∷ rest

  -- `insert`, which replaces the value of a key that is there, and puts another at its place.
  unfoldable pub insert : ⦃o : Ord K⦄ → K → V → List (K × V) → List (K × V)
  unfolding assign place
  insert k v m = if contains_key k m then assign k v m else place k v m

  pub lookup-assign :
      (k j : K) (v : V) (m : List (K × V))
      → lookup j (assign k v m)
        ≡ (if k == j then (if contains_key k m then some v else none) else lookup j m)
  unfolding lookup assign
  lookup-assign k j v [] = ground arith
  lookup-assign k j v ((i, w) ∷ m) =
      ground (arith, ==_iff k j, ==_iff i k, ==_iff i j, lookup-assign k j v m)

  pub keys-assign : (k : K) (v : V) (m : List (K × V)) → keys (assign k v m) ≡ keys m
  unfolding assign
  keys-assign k v [] = refl
  keys-assign k v ((i, w) ∷ m) = ground (arith, keys-assign k v m)

  lookup-place :
      ⦃o : Ord K⦄
      → (k j : K) (v : V) (m : List (K × V)) → contains_key k m ≡ false
      → lookup j (place k v m) ≡ (if k == j then some v else lookup j m)
  unfolding lookup place
  lookup-place k j v [] h = refl
  lookup-place k j v ((i, w) ∷ m) h =
      ground (arith, ==_iff k j, ==_iff i k, ==_iff i j, lookup-place k j v m)

  pub lookup-insert :
      ⦃o : Ord K⦄
      → (k j : K) (v : V) (m : List (K × V))
      → lookup j (insert k v m) ≡ (if k == j then some v else lookup j m)
  unfolding insert
  lookup-insert k j v m = elim (Bool-cases (contains_key k m)) [
    | inl h ↦ rw h (ground (arith, lookup-assign k j v m))
    | inr h ↦ rw h (lookup-place k j v m h)
  ]

  contains-keys-place :
      ⦃o : Ord K⦄
      → (k j : K) (v : V) (m : List (K × V))
      → contains (keys (place k v m)) j ≡ (k == j || contains (keys m) j)
  unfolding place
  contains-keys-place k j v [] = refl
  contains-keys-place k j v ((i, w) ∷ m) = ground (arith, contains-keys-place k j v m)

  distinct-place :
      ⦃o : Ord K⦄
      → (k : K) (v : V) (m : List (K × V)) → contains (keys m) k ≡ false
      → is_distinct (keys m) ≡ true
      → is_distinct (keys (place k v m)) ≡ true
  unfolding place
  distinct-place k v [] n h = refl
  distinct-place k v ((i, w) ∷ m) n h =
      ground (arith, ==_iff k i, ==_iff i k, contains-keys-place k i v m, distinct-place k v m)

  pub lookup_mem : (k : K) (m : List (K × V)) {v : V} → lookup k m ≡ some v → Memᴰ (k, v) m
  unfolding lookup
  lookup_mem k [] h = cc
  lookup_mem k ((j, w) ∷ m) {v} h = elim (Bool-cases (j == k)) [
    | inl q ↦ Memᴰ.head (ground (arith, ==_iff j k))
    | inr q ↦ Memᴰ.tail (lookup_mem k m (ground arith))
  ]

  pub mem_contains_key : {b : K × V} {m : List (K × V)} → Memᴰ b m → contains_key b.0 m ≡ true
  unfolding lookup
  mem_contains_key {b} (Memᴰ.head {x} q) = ground (arith, ==_iff x.0 b.0, ap (λ (p : K × V). p.0) q)
  mem_contains_key {b} (Memᴰ.tail {x} n) = ground (arith, mem_contains_key n)

  pub contains_key_cases :
      (k : K) (m : List (K × V)) → contains_key k m ≡ true → (v : V) × (lookup k m ≡ some v)
  contains_key_cases k m h = elim (Option-cases (lookup k m)) [
    | inl q ↦ absurd (ground arith)
    | inr c ↦ c
  ]

  pub mem-keys : (k : K) (m : List (K × V)) → contains_key k m ≡ true → Memᴰ k (keys m)
  unfolding lookup
  mem-keys k [] h = cc
  mem-keys k ((j, v) ∷ m) h = elim (Bool-cases (j == k)) [
    | inl q ↦ Memᴰ.head (sym ((==_iff j k).0 q))
    | inr q ↦ Memᴰ.tail (mem-keys k m (ground arith))
  ]

  pub keys_mem : (k : K) (m : List (K × V)) → Memᴰ k (keys m) → contains_key k m ≡ true
  unfolding lookup
  keys_mem k [] n = elim n [ ]
  keys_mem k ((j, v) ∷ m) (Memᴰ.head q) = ground (arith, ==_iff j k)
  keys_mem k ((j, v) ∷ m) (Memᴰ.tail n) = ground (arith, keys_mem k m n)

-- `insert` keeps the keys distinct.
module _ {ℓ κ} {K : Type ℓ} {V : Type κ} ⦃e : Eq K⦄ where
  pub distinct-insert :
      ⦃o : Ord K⦄
      → (k : K) (v : V) (m : List (K × V)) → is_distinct (keys m) ≡ true
      → is_distinct (keys (insert k v m)) ≡ true
  unfolding insert
  distinct-insert k v m h = elim (Bool-cases (contains_key k m)) [
    | inl c ↦ rw c (ap is_distinct (keys-assign k v m) ∙ h)
    | inr c ↦ rw c (distinct-place k v m (absent c) h)
  ]
    where
      absent : contains_key k m ≡ false → contains (keys m) k ≡ false
      absent c = elim (Bool-cases (contains (keys m) k)) [
        | inl q ↦ absurd (cc (keys_mem k m (contains_mem (keys m) k q)))
        | inr q ↦ q
      ]

-- A filtered map, by a test on the keys (`retain(|name, _| …)`).
module _ {ℓ κ} {K : Type ℓ} {V : Type κ} ⦃e : Eq K⦄ where
  pub retain : (K → Bool) → List (K × V) → List (K × V)
  retain p [] = []
  retain p ((k, v) ∷ m) = let rest = retain p m in if p k then (k, v) ∷ rest else rest

  pub lookup-retain :
      (p : K → Bool) (k : K) (m : List (K × V))
      → lookup k (retain p m) ≡ (if p k then lookup k m else none)
  unfolding lookup retain
  lookup-retain p k [] = ground arith
  lookup-retain p k ((j, w) ∷ m) =
      ground (arith, ==_iff j k, lookup-retain p k m, ap p {x = j} {y = k})

-- The values of a map changed one by one, keys kept.
module _ {ℓ κ ι} {K : Type ℓ} {V : Type κ} {W : Type ι} ⦃e : Eq K⦄ where
  abbrev pub map_values : (K → V → W) → List (K × V) → List (K × W)
  map_values f [] = []
  map_values f ((k, v) ∷ m) = (k, f k v) ∷ map_values f m

-- `BTreeSet` as the list of its elements in order, and its `insert`, which changes nothing where
-- the element is there.
module _ {ℓ} {K : Type ℓ} ⦃e : Eq K⦄ ⦃o : Ord K⦄ where
  insert_at : K → List K → List K
  insert_at k [] = k ∷ []
  insert_at k (j ∷ ks) = let rest = insert_at k ks in if o.before k j then k ∷ j ∷ ks else j ∷ rest

  unfoldable pub insert_key : K → List K → List K
  unfolding insert_at
  insert_key k ks = if contains ks k then ks else insert_at k ks

  contains-insert_at :
      (k : K) (ks : List K) (a : K) → contains (insert_at k ks) a ≡ (k == a || contains ks a)
  unfolding insert_at
  contains-insert_at k [] a = refl
  contains-insert_at k (j ∷ ks) a = ground (arith, contains-insert_at k ks a)

  length-insert_at : (k : K) (ks : List K) → length (insert_at k ks) ≡ suc (length ks)
  unfolding insert_at
  length-insert_at k [] = refl
  length-insert_at k (j ∷ ks) = ground (arith, length-insert_at k ks)

  pub contains-insert_key :
      (k : K) (ks : List K) (a : K) → contains (insert_key k ks) a ≡ (k == a || contains ks a)
  unfolding insert_key
  contains-insert_key k ks a = elim (Bool-cases (k == a)) [
    | inl q ↦ ground (arith, ==_iff k a, contains-insert_at k ks a)
    | inr q ↦ ground (arith, contains-insert_at k ks a)
  ]

  pub length-insert_key :
      (k : K) (ks : List K)
      → length (insert_key k ks) ≡ (if contains ks k then length ks else suc (length ks))
  unfolding insert_key
  length-insert_key k ks = ground (arith, length-insert_at k ks)

  pub insert_key_same : (k : K) (ks : List K) → contains ks k ≡ true → insert_key k ks ≡ ks
  unfolding insert_key
  insert_key_same k ks h = rw h refl

-- An entry of a map whose keys are distinct is found by its key.
module _ {ℓ κ} {K : Type ℓ} {V : Type κ} ⦃e : Eq K⦄ where
  pub mem_lookup :
      (k : K) (v : V) (m : List (K × V))
      → is_distinct (keys m) ≡ true
      → Memᴰ (k, v) m
      → lookup k m ≡ some v
  unfolding lookup
  mem_lookup k v [] h n = elim n [ ]
  mem_lookup k v ((j, w) ∷ m) h (Memᴰ.head q) =
      ground (arith, ==_iff j k, ap (λ (p : K × V). p.0) q, ap (λ (p : K × V). p.1) q)
  mem_lookup k v ((j, w) ∷ m) h (Memᴰ.tail n) =
      let c = mem_contains_key n in
      let f = mem_contains (mem-keys k m c) in
      let ih = mem_lookup k v m (ground arith) n in ground (arith, ==_iff j k)
