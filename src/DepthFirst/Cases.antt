-- ===== src/DepthFirst/Cases.antt =====
-- One visit taken apart: an inversion of its success, used by the proofs about the search.
use donkeyspace.Prelude.{
  ℕ, suc, List, Option, none, some, Eq, contains, ◌>>=◌, ◌≡◌, refl, ok, err, Bool-cases, inl, inr,
  true, false, ◌⊎◌, >>=-eq-ok, >>=-eq-err, ok_or,
}
use donkeyspace.DepthFirst.{Fault, Marks, visit, visit_each, enter, leave}

module _ {K : Type 0} ⦃e : Eq K⦄ (children : K → Option (List K)) where
  -- The visit of a name that was neither finished nor on the path.
  pub record Entered (fuel : ℕ) (k : K) (s t : Marks K) : Type 0 where
    pub not_visited : contains s.visited k ≡ false
    pub not_visiting : contains s.visiting k ≡ false
    pub listed : List K
    pub of_children : children k ≡ some listed
    pub inner : Marks K
    pub of_each : visit_each children (visit children fuel) listed (enter children k s) ≡ ok inner
    pub is_left : t ≡ leave children k inner

  visit_body :
      (fuel : ℕ) (k : K) (s t : Marks K)
      → contains s.visited k ≡ false
      → contains s.visiting k ≡ false
      → (c : Option (List K)) → children k ≡ c
      → (ok_or c (Fault.unknown k) >>= λ ks.
          visit_each children (visit children fuel) ks (enter children k s) >>= λ u.
          ok (leave children k u))
        ≡ ok t
      → Entered fuel k s t
  visit_body fuel k s t p q none c h = cc
  visit_body fuel k s t p q (some ks) c h =
      let (u, i, j) =
        >>=-eq-ok (visit_each children (visit children fuel) ks (enter children k s)) _ h in
      record {
        not_visited = p;
        not_visiting = q;
        listed = ks;
        of_children = c;
        inner = u;
        of_each = i;
        is_left = cc;
      }

  pub visit_cases :
      (fuel : ℕ) (k : K) (s t : Marks K)
      → visit children (suc fuel) k s ≡ ok t
      → ((contains s.visited k ≡ true) × (t ≡ s)) ⊎ Entered fuel k s t
  unfolding visit
  visit_cases fuel k s t h = elim (Bool-cases (contains s.visited k)) [
    | inl p ↦ inl (p, cc (rw p at h))
    | inr p ↦ elim (Bool-cases (contains s.visiting k)) [
      | inl q ↦ absurd (cc (rw (p, q) at h))
      | inr q ↦ inr (visit_body fuel k s t p q (children k) refl (rw (p, q) at h))
    ]
  ]

module _ {K : Type 0} ⦃e : Eq K⦄ (children : K → Option (List K)) where
  -- The three ways in which a visit fails while it has fuel.
  pub data Fails (fuel : ℕ) (k : K) (s : Marks K) (f : Fault K) : Type 0 where
    closes : contains s.visiting k ≡ true → f ≡ Fault.cycle k → Fails fuel k s f
    lacks : children k ≡ none → f ≡ Fault.unknown k → Fails fuel k s f
    within :
        contains s.visiting k ≡ false
        → (ks : List K) → children k ≡ some ks
        → visit_each children (visit children fuel) ks (enter children k s) ≡ err f
        → Fails fuel k s f

  Fails-body :
      (fuel : ℕ) (k : K) (s : Marks K) (f : Fault K)
      → contains s.visiting k ≡ false
      → (c : Option (List K)) → children k ≡ c
      → (ok_or c (Fault.unknown k) >>= λ ks.
          visit_each children (visit children fuel) ks (enter children k s) >>= λ u.
          ok (leave children k u))
        ≡ err f
      → Fails fuel k s f
  Fails-body fuel k s f q none c h = Fails.lacks c (cc)
  Fails-body fuel k s f q (some ks) c h =
      elim (>>=-eq-err (visit_each children (visit children fuel) ks (enter children k s)) _ h) [
        | inl p ↦ Fails.within q ks c p
        | inr (u, i, j) ↦ absurd (cc)
      ]

  pub visit-Fails :
      (fuel : ℕ) (k : K) (s : Marks K) (f : Fault K)
      → visit children (suc fuel) k s ≡ err f
      → Fails fuel k s f
  unfolding visit
  visit-Fails fuel k s f h = elim (Bool-cases (contains s.visited k)) [
    | inl p ↦ absurd (cc (rw p at h))
    | inr p ↦ elim (Bool-cases (contains s.visiting k)) [
      | inl q ↦ Fails.closes q (cc (rw (p, q) at h))
      | inr q ↦ Fails-body fuel k s f q (children k) refl (rw (p, q) at h)
    ]
  ]
