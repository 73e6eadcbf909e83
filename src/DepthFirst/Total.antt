-- ===== src/DepthFirst/Total.antt =====
-- The search never runs out of fuel, nor meets a name that it does not know, if the dependencies of
-- each name are names and the fuel is one more than the number of names: the path holds no name
-- twice, so the names that are not on it grow fewer at each level.
use donkeyspace.Prelude.{
  >>=-eq-err, ℕ, zero, suc, ◌<◌, List, [], ◌∷◌, ◌++◌, Option, some, Eq, ==_refl, contains,
  contains-append, ◌≡◌, refl, sym, Memᴰ, err, inl, inr, arith, false, not, keep, length,
  length-keep-lt, length-keep-le, subst, Bool,
}
use donkeyspace.DepthFirst.Cases.{Fails, visit-Fails}
use donkeyspace.DepthFirst.Cycles.{visit-visiting}
use donkeyspace.DepthFirst.{Fault, Marks, visit, visit_each, enter, search_all}

module _ {K : Type 0} ⦃e : Eq K⦄ (children : K → Option (List K)) (names : List K) where
  abbrev is_off : List K → K → Bool
  is_off path k = not (contains path k)

  -- The names that are not on the path.
  abbrev room : Marks K → ℕ
  room s = length (keep (is_off s.visiting) names)

  -- Each name has its dependencies, and they are names.
  abbrev pub IsClosed : Type 0
  IsClosed =
      (k : K)
      → Memᴰ k names
      → (ks : List K) × (children k ≡ some ks) × ((a : K) → Memᴰ a ks → Memᴰ a names)

  enter-room :
      (k : K) (s : Marks K)
      → Memᴰ k names
      → contains s.visiting k ≡ false
      → room (enter children k s) < room s
  enter-room k s m h =
      length-keep-lt (is_off (s.visiting ++ k ∷ [])) (is_off s.visiting)
        (λ x p. ground (arith, contains-append s.visiting (k ∷ []) x)) m
        (ground (arith, contains-append s.visiting (k ∷ []) k, ==_refl k)) (ground arith)

  module _ (closed : IsClosed) where
    visit_each-decided :
        (fuel : ℕ)
        → ((k : K) (s : Marks K) (f : Fault K)
            → Memᴰ k names
            → room s < fuel
            → visit children fuel k s ≡ err f
            → (n : K) × (f ≡ Fault.cycle n))
        → (ks : List K) (s : Marks K) (f : Fault K) → ((a : K) → Memᴰ a ks → Memᴰ a names)
        → room s < fuel
        → visit_each children (visit children fuel) ks s ≡ err f
        → (n : K) × (f ≡ Fault.cycle n)
    unfolding visit_each
    visit_each-decided fuel one [] s f known h r = absurd (cc)
    visit_each-decided fuel one (k ∷ ks) s f known h r =
        elim (>>=-eq-err (visit children fuel k s) _ r) [
          | inl p ↦ one k s f (known k (Memᴰ.head refl)) h p
          | inr (t, p, q) ↦
              visit_each-decided fuel one ks t f (λ a m. known a (Memᴰ.tail m))
                (subst (λ (v : List K). length (keep (is_off v) names) < fuel)
                  (sym (visit-visiting children fuel k s t p)) h)
                q
        ]

    visit-decided :
        (fuel : ℕ) (k : K) (s : Marks K) (f : Fault K)
        → Memᴰ k names
        → room s < fuel
        → visit children fuel k s ≡ err f
        → (n : K) × (f ≡ Fault.cycle n)
    visit-decided zero k s f m h r = absurd (omega arith)
    visit-decided (suc fuel) k s f m h r = elim (visit-Fails children fuel k s f r) [
      | Fails.closes p q ↦ (k, q)
      | Fails.lacks p q ↦ let (ks, c, d) = closed k m in absurd (cc)
      | Fails.within p ks c q ↦ inside p ks c q (visit-decided fuel)
    ]
      where
        inside :
            contains s.visiting k ≡ false
            → (ks : List K) → children k ≡ some ks
            → visit_each children (visit children fuel) ks (enter children k s) ≡ err f
            → ((k : K) (s : Marks K) (f : Fault K)
                → Memᴰ k names
                → room s < fuel
                → visit children fuel k s ≡ err f
                → (n : K) × (f ≡ Fault.cycle n))
            → (n : K) × (f ≡ Fault.cycle n)
        inside p ks c q ih =
            let (js, d, known) = closed k m in
            let same : js ≡ ks = cc in
            visit_each-decided fuel ih ks (enter children k s) f
              (λ a i. known a (subst (Memᴰ a) (sym same) i)) (omega (arith, enter-room k s m p)) q

    -- With that fuel the search from the names ends in a success or in a cycle.
    pub search_all_decided :
        {f : Fault K}
        → search_all children (suc (length names)) names ≡ err f
        → (n : K) × (f ≡ Fault.cycle n)
    unfolding search_all
    search_all_decided {f} r =
        visit_each-decided (suc (length names)) (visit-decided (suc (length names))) names
          (record { visiting = []; visited = [] }) f (λ a m. m)
          (omega (arith, length-keep-le (is_off []) names)) r
