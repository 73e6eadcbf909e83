-- ===== src/Prelude/Entries.antt =====
-- The entries of a changed map.
use mathlib.Core.Path.{◌≡◌, ap, ◌∙◌}
use mathlib.Core.Logic.{◌⊎◌, inl, inr}
use mathlib.Core.Bool.{true}
use mathlib.Core.List.{List, [], ◌∷◌, Memᴰ}
use donkeyspace.Prelude.Tests.{Eq, ◌==◌, ==_iff, Bool-cases}
use donkeyspace.Prelude.Maps.{Ord, assign, place, insert, contains_key}

-- An entry of a changed map is an old one or the new one.
module _ {ℓ κ} {K : Type ℓ} {V : Type κ} ⦃e : Eq K⦄ where
  pub assign_mem :
      (k : K) (v : V) {b : K × V} (m : List (K × V))
      → Memᴰ b (assign k v m)
      → Memᴰ b m ⊎ (b ≡ (k, v))
  unfolding assign
  assign_mem k v [] n = elim n [ ]
  assign_mem k v {b} ((j, w) ∷ m) n = elim (Bool-cases (j == k)) [
    | inl q ↦ (let n' : Memᴰ b ((j, v) ∷ m) = rw q at n in first q n')
    | inr q ↦ (let n' : Memᴰ b ((j, w) ∷ assign k v m) = rw q at n in rest n' (assign_mem k v m))
  ]
    where
      first : (j == k) ≡ true → Memᴰ b ((j, v) ∷ m) → Memᴰ b ((j, w) ∷ m) ⊎ (b ≡ (k, v))
      first q (Memᴰ.head h) = inr (h ∙ ap (λ i. (i, v)) ((==_iff j k).0 q))
      first q (Memᴰ.tail n) = inl (Memᴰ.tail n)

      rest :
          Memᴰ b ((j, w) ∷ assign k v m)
          → (Memᴰ b (assign k v m) → Memᴰ b m ⊎ (b ≡ (k, v)))
          → Memᴰ b ((j, w) ∷ m) ⊎ (b ≡ (k, v))
      rest (Memᴰ.head h) ih = inl (Memᴰ.head h)
      rest (Memᴰ.tail n) ih = elim (ih n) [ inl i ↦ inl (Memᴰ.tail i) | inr q ↦ inr q ]

  place_mem :
      ⦃o : Ord K⦄
      → (k : K) (v : V) {b : K × V} (m : List (K × V)) → Memᴰ b (place k v m)
      → Memᴰ b m ⊎ (b ≡ (k, v))
  unfolding place
  place_mem k v [] (Memᴰ.head h) = inr h
  place_mem k v [] (Memᴰ.tail n) = elim n [ ]
  place_mem ⦃o⦄ k v {b} ((j, w) ∷ m) n = elim (Bool-cases (o.before k j)) [
    | inl q ↦ (let n' : Memᴰ b ((k, v) ∷ (j, w) ∷ m) = rw q at n in first n')
    | inr q ↦ (let n' : Memᴰ b ((j, w) ∷ place k v m) = rw q at n in rest n' (place_mem k v m))
  ]
    where
      first : Memᴰ b ((k, v) ∷ (j, w) ∷ m) → Memᴰ b ((j, w) ∷ m) ⊎ (b ≡ (k, v))
      first (Memᴰ.head h) = inr h
      first (Memᴰ.tail n) = inl n

      rest :
          Memᴰ b ((j, w) ∷ place k v m)
          → (Memᴰ b (place k v m) → Memᴰ b m ⊎ (b ≡ (k, v)))
          → Memᴰ b ((j, w) ∷ m) ⊎ (b ≡ (k, v))
      rest (Memᴰ.head h) ih = inl (Memᴰ.head h)
      rest (Memᴰ.tail n) ih = elim (ih n) [ inl i ↦ inl (Memᴰ.tail i) | inr q ↦ inr q ]

  pub insert_mem :
      ⦃o : Ord K⦄
      → (k : K) (v : V) {b : K × V} (m : List (K × V)) → Memᴰ b (insert k v m)
      → Memᴰ b m ⊎ (b ≡ (k, v))
  unfolding insert
  insert_mem k v {b} m n = elim (Bool-cases (contains_key k m)) [
    | inl q ↦ (let n' : Memᴰ b (assign k v m) = rw q at n in assign_mem k v m n')
    | inr q ↦ (let n' : Memᴰ b (place k v m) = rw q at n in place_mem k v m n')
  ]
