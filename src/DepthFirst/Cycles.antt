-- ===== src/DepthFirst/Cycles.antt =====
-- A search that reports a cycle has found one: the name that it reports depends on itself.
use donkeyspace.Prelude.{
  >>=-eq-err, ℕ, zero, suc, List, [], ◌∷◌, Option, some, Eq, contains_mem, ◌≡◌, refl, sym, ap, ◌∙◌,
  Memᴰ, Result, ok, err, >>=-eq-ok, inl, inr, keep_ne-push, subst,
}
use mathlib.Core.List.Memᴰ
use donkeyspace.DepthFirst.Cases.{Entered, visit_cases, Fails, visit-Fails}
use donkeyspace.DepthFirst.{Fault, Marks, visit, visit_each, enter, Requires, search_all}

module _ {K : Type 0} ⦃e : Eq K⦄ (children : K → Option (List K)) where
  -- `Leads a b`: by one or more dependency steps `a` comes to `b`.
  pub data Leads (a : K) : K → Type 0 where
    one : {b : K} → Requires children b a → Leads a b
    more : {b c : K} → Leads a b → Requires children c b → Leads a c

  visit_each-visiting :
      (step : K → Marks K → Result (Fault K) (Marks K))
      → ((k : K) (s t : Marks K) → step k s ≡ ok t → t.visiting ≡ s.visiting)
      → (ks : List K) (s t : Marks K) → visit_each children step ks s ≡ ok t
      → t.visiting ≡ s.visiting
  unfolding visit_each
  visit_each-visiting step keeps [] s t r =
      let q : s ≡ t = cc in ap (λ (u : Marks K). u.visiting) (sym q)
  visit_each-visiting step keeps (k ∷ ks) s t r =
      let (u, p, q) = >>=-eq-ok (step k s) _ r in
      visit_each-visiting step keeps ks u t q ∙ keeps k s u p

  -- A successful visit restores the path.
  pub visit-visiting :
      (fuel : ℕ) (k : K) (s t : Marks K) → visit children fuel k s ≡ ok t → t.visiting ≡ s.visiting
  visit-visiting zero k s t r = absurd (unfold visit in cc)
  visit-visiting (suc fuel) k s t r = elim (visit_cases children fuel k s t r) [
    | inl (p, q) ↦ ap (λ (u : Marks K). u.visiting) q
    | inr w ↦ left w (
        visit_each-visiting (visit children fuel) (visit-visiting fuel) w.listed
          (enter children k s) w.inner w.of_each)
  ]
    where
      left :
          (w : Entered children fuel k s t)
          → w.inner.visiting ≡ (enter children k s).visiting
          → t.visiting ≡ s.visiting
      left w q = rw (w.is_left, q) (keep_ne-push s.visiting k w.not_visiting)

  -- Every name on the path leads to all the names that are visited next.
  abbrev Trail : Marks K → List K → Type 0
  Trail s ks = (v : K) → Memᴰ v s.visiting → (k : K) → Memᴰ k ks → Leads v k

  visit_each-cycle :
      (fuel : ℕ)
      → ((k n : K) (s : Marks K)
          → Trail s (k ∷ [])
          → visit children fuel k s ≡ err (Fault.cycle n)
          → Leads n n)
      → (ks : List K) (n : K) (s : Marks K) → Trail s ks
      → visit_each children (visit children fuel) ks s ≡ err (Fault.cycle n)
      → Leads n n
  unfolding visit_each
  visit_each-cycle fuel found [] n s h r = absurd (cc)
  visit_each-cycle fuel found (k ∷ ks) n s h r = elim (>>=-eq-err (visit children fuel k s) _ r) [
    | inl p ↦
        found k n s (λ v m j i. h v m j (Memᴰ.cast (Memᴰ.eq_of_singleton i) (Memᴰ.head refl))) p
    | inr (t, p, q) ↦
        visit_each-cycle fuel found ks n t
          (λ v m j i. h v (subst (Memᴰ v) (visit-visiting fuel k s t p) m) j (Memᴰ.tail i)) q
  ]

  visit-cycle :
      (fuel : ℕ) (k n : K) (s : Marks K)
      → Trail s (k ∷ [])
      → visit children fuel k s ≡ err (Fault.cycle n)
      → Leads n n
  visit-cycle zero k n s h r = absurd (unfold visit in cc)
  visit-cycle (suc fuel) k n s h r = elim (visit-Fails children fuel k s (Fault.cycle n) r) [
    | Fails.closes p q ↦
        let same : n ≡ k = cc in rw same (h k (contains_mem s.visiting k p) k (Memᴰ.head refl))
    | Fails.lacks p q ↦ absurd (cc)
    | Fails.within p ks c q ↦
        visit_each-cycle fuel (visit-cycle fuel) ks n (enter children k s) (longer ks c) q
  ]
    where
      longer : (ks : List K) → children k ≡ some ks → Trail (enter children k s) ks
      longer ks c v m j i = elim (Memᴰ.append_cases s.visiting m) [
        | inl old ↦
            Leads.more (h v old k (Memᴰ.head refl))
              (record { listed = ks; of_children = c; is_listed = i })
        | inr new ↦
            rw (Memᴰ.eq_of_singleton new)
              (Leads.one (record { listed = ks; of_children = c; is_listed = i }))
      ]

  -- If the search reports a cycle at `n`, there is one: `n` depends on itself through one or more
  -- dependencies.
  pub search_all_cycle :
      (fuel : ℕ) (ks : List K) {n : K}
      → search_all children fuel ks ≡ err (Fault.cycle n)
      → Leads n n
  unfolding search_all
  search_all_cycle fuel ks {n} r =
      visit_each-cycle fuel (visit-cycle fuel) ks n (record { visiting = []; visited = [] })
        (λ v m j i. elim m [ ]) r
