-- ===== src/DepthFirst.antt =====
-- The depth-first search with marks by which two parts of the program reject dependency cycles:
-- `visit` in crates/donkeyspace-core/src/plugin.rs and `visit` in
-- crates/donkeyspace-worker/src/plugin_flow.rs. Both keep the names on the current path
-- (`visiting`) and the finished ones (`visited`), as a vector or as a set, whose order nothing
-- reads. `children` gives the dependencies of a name, `none` where the code would panic. The
-- recursion takes fuel; running out of it is an outcome of its own.
mod Cases
pub mod Sound
pub mod Cycles
pub mod Total
use donkeyspace.Prelude.{
  ℕ, zero, suc, Bool, not, List, [], ◌∷◌, ◌++◌, Option, Eq, ◌==◌, contains, keep, if◌then◌else◌,
  Result, ok, err, ok_or, ◌>>=◌, some, ◌≡◌, Memᴰ,
}

pub data Fault (K : Type 0) : Type 0 where
  cycle : K → Fault K
  unknown : K → Fault K
  out_of_fuel : Fault K

pub record Marks (K : Type 0) : Type 0 where
  pub visiting : List K
  pub visited : List K

module _ {K : Type 0} ⦃e : Eq K⦄ (children : K → Option (List K)) where
  abbrev pub enter : K → Marks K → Marks K
  enter k s = record s { visiting = s.visiting ++ k ∷ [] }

  abbrev pub leave : K → Marks K → Marks K
  leave k s = record {
    visiting = keep (λ j. not (j == k)) s.visiting;
    visited = s.visited ++ k ∷ [];
  }

  -- The loop over the dependencies of a name, which stops at the first error.
  unfoldable pub visit_each :
      (K → Marks K → Result (Fault K) (Marks K)) → List K → Marks K → Result (Fault K) (Marks K)
  visit_each step [] s = ok s
  visit_each step (k ∷ ks) s = step k s >>= λ t. visit_each step ks t

  unfoldable pub visit : ℕ → K → Marks K → Result (Fault K) (Marks K)
  visit zero k s = err out_of_fuel
  visit (suc fuel) k s =
      if contains s.visited k then ok s else if contains s.visiting k then err (cycle k) else (do
        ks ← ok_or (children k) (unknown k)
        t ← visit_each (visit fuel) ks (enter k s)
        ok (leave k t))

  -- The search from every name in turn, with no marks at the start.
  unfoldable pub search_all : ℕ → List K → Result (Fault K) (Marks K)
  search_all fuel ks = visit_each (visit fuel) ks (record { visiting = []; visited = [] })

  -- One dependency step, `Requires b a` when `a` lists `b`.
  pub record Requires (b a : K) : Type 0 where
    pub listed : List K
    pub of_children : children a ≡ some listed
    pub is_listed : Memᴰ b listed
