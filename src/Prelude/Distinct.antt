-- ===== src/Prelude/Distinct.antt =====
-- Sets as lists without repetition: how `BTreeSet` is collected and compared with its source.
use Prim.Native.Nat.{◌≤◌}
use mathlib.Core.Path.{◌≡◌, refl}
use mathlib.Core.Bool.{Bool, true, not, ◌&&◌}
use mathlib.Core.List.{List, [], ◌∷◌}
use native.Mathlib.Omega.{arith}
use donkeyspace.Prelude.Tests.{Eq, if◌then◌else◌, nat_eq}
use donkeyspace.Prelude.Lists.{contains, length}

module _ {ℓ} {A : Type ℓ} ⦃e : Eq A⦄ where
  -- The distinct entries, `iter().collect::<BTreeSet<_>>()`; the order is not read.
  unfoldable pub to_set : List A → List A
  to_set [] = []
  to_set (x ∷ xs) = let rest = to_set xs in if contains rest x then rest else x ∷ rest

  -- No entry stands twice.
  abbrev pub is_distinct : List A → Bool
  is_distinct [] = true
  is_distinct (x ∷ xs) = not (contains xs x) && is_distinct xs

  pub contains-to_set : (xs : List A) (a : A) → contains (to_set xs) a ≡ contains xs a
  unfolding to_set
  contains-to_set [] a = refl
  contains-to_set (x ∷ xs) a =
      ground (arith, contains-to_set xs a, contains-to_set xs x, e.eq_iff x a)

  pub length-to_set : (xs : List A) → length (to_set xs) ≤ length xs
  unfolding to_set
  length-to_set [] = omega arith
  length-to_set (x ∷ xs) = ground (arith, length-to_set xs)

  -- The size of the set tells whether there was a repetition.
  pub to_set-is_distinct : (xs : List A) → nat_eq (length (to_set xs)) (length xs) ≡ is_distinct xs
  unfolding to_set
  to_set-is_distinct [] = refl
  to_set-is_distinct (x ∷ xs) =
      ground (arith, length-to_set xs, contains-to_set xs x, to_set-is_distinct xs)
