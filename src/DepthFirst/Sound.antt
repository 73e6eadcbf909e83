-- ===== src/DepthFirst/Sound.antt =====
-- A search that ends without an error has shown that there is no cycle: every name that it has
-- finished is accessible in the dependency order.
use mathlib.Core.WellFounded.{Acc}
use donkeyspace.Prelude.{
  ℕ, zero, suc, List, [], ◌∷◌, Option, Eq, contains, contains_mem, ◌≡◌, Memᴰ, Result, ok, >>=-eq-ok,
  inl, inr, All, All_elim, All-append, subst, sym, true,
}
use mathlib.Core.List.Memᴰ
use donkeyspace.DepthFirst.Cases.{Entered, visit_cases}
use donkeyspace.DepthFirst.{Fault, Marks, visit, visit_each, enter, Requires, search_all}

module _ {K : Type 0} ⦃e : Eq K⦄ (children : K → Option (List K)) where
  abbrev pub IsSound : Marks K → Type 0
  IsSound s = All (Acc (Requires children)) s.visited

  -- What a successful visit of the names `ks` leaves.
  pub record Done (ks : List K) (s t : Marks K) : Type 0 where
    pub sound : IsSound t
    pub grown : (a : K) → Memᴰ a s.visited → Memᴰ a t.visited
    pub finished : (a : K) → Memᴰ a ks → Memᴰ a t.visited

  Done-trans :
      {k : K} {ks : List K} {s t u : Marks K} → Done (k ∷ []) s t → Done ks t u → Done (k ∷ ks) s u
  Done-trans {k} {ks} {u} d f = record {
    sound = f.sound;
    grown = λ a m. f.grown a (d.grown a m);
    finished = both;
  }
    where
      both : (a : K) → Memᴰ a (k ∷ ks) → Memᴰ a u.visited
      both a (Memᴰ.head q) = f.grown a (d.finished a (Memᴰ.head q))
      both a (Memᴰ.tail m) = f.finished a m

  visit_each-Done :
      (step : K → Marks K → Result (Fault K) (Marks K))
      → ((k : K) (s t : Marks K) → IsSound s → step k s ≡ ok t → Done (k ∷ []) s t)
      → (ks : List K) (s t : Marks K) → IsSound s
      → visit_each children step ks s ≡ ok t
      → Done ks s t
  unfolding visit_each
  visit_each-Done step one [] s t h r =
      let q : s ≡ t = cc in
      subst (Done [] s) q (record { sound = h; grown = λ a m. m; finished = λ a m. elim m [ ] })
  visit_each-Done step one (k ∷ ks) s t h r =
      let (u, p, q) = >>=-eq-ok (step k s) _ r in
      let d = one k s u h p in Done-trans d (visit_each-Done step one ks u t d.sound q)

  visit-Done :
      (fuel : ℕ) (k : K) (s t : Marks K)
      → IsSound s
      → visit children fuel k s ≡ ok t
      → Done (k ∷ []) s t
  visit-Done zero k s t h r = absurd (unfold visit in cc)
  visit-Done (suc fuel) k s t h r = elim (visit_cases children fuel k s t r) [
    | inl (p, q) ↦ seen p q
    | inr w ↦ left w (
        visit_each-Done (visit children fuel) (visit-Done fuel) w.listed (enter children k s)
          w.inner h w.of_each)
  ]
    where
      seen : contains s.visited k ≡ true → t ≡ s → Done (k ∷ []) s t
      seen p q = subst (Done (k ∷ []) s) (sym q) (record {
        sound = h;
        grown = λ a m. m;
        finished = λ a m.
            subst (λ b. Memᴰ b s.visited) (sym (Memᴰ.eq_of_singleton m))
              (contains_mem s.visited k p);
      })

      left :
          (w : Entered children fuel k s t)
          → Done w.listed (enter children k s) w.inner
          → Done (k ∷ []) s t
      left w d = subst (Done (k ∷ []) s) (sym w.is_left) (record {
        sound = All-append _ w.inner.visited (k ∷ []) d.sound (Acc.intro k below, tt);
        grown = λ a m. Memᴰ.append_left (k ∷ []) (d.grown a m);
        finished = λ a m. Memᴰ.append_right w.inner.visited m;
      })
        where
          below : (b : K) → Requires children b k → Acc (Requires children) b
          below b r =
              let same : r.listed ≡ w.listed = cc (r.of_children, w.of_children) in
              All_elim _ w.inner.visited d.sound (d.finished b (subst (Memᴰ b) same r.is_listed))

  -- If the search from `ks` succeeds, every name of `ks` is accessible: no dependency path from it
  -- goes on for ever, and none comes back.
  pub search_all_sound :
      (fuel : ℕ) (ks : List K) {t : Marks K}
      → search_all children fuel ks ≡ ok t
      → (a : K) → Memᴰ a ks
      → Acc (Requires children) a
  unfolding search_all
  search_all_sound fuel ks {t} r a m =
      let d =
        visit_each-Done (visit children fuel) (visit-Done fuel) ks
          (record { visiting = []; visited = [] }) t tt r in
      All_elim _ t.visited d.sound (d.finished a m)
