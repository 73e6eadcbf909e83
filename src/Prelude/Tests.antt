-- ===== src/Prelude/Tests.antt =====
-- Boolean tests: on the native numbers, the conditional, and equality as an interface.
use Prim.Native.Nat.{ℕ, compare, Ordering}
use mathlib.Core.Path.{◌≡◌, refl}
use mathlib.Core.Logic.{◌↔◌, ◌⊎◌, inl, inr}
use mathlib.Core.Bool.{not, Bool, true, false, ◌&&◌}
use mathlib.Core.Option.{Option, none, some}
use mathlib.Core.List.{List, [], ◌∷◌}
use native.Mathlib.Omega.{arith}

abbrev pub ltb : ℕ → ℕ → Bool
ltb a b = elim (compare a b) [ Ordering.lt ↦ true | _ ↦ false ]

abbrev pub leb : ℕ → ℕ → Bool
leb a b = elim (compare a b) [ Ordering.gt ↦ false | _ ↦ true ]

abbrev pub nat_eq : ℕ → ℕ → Bool
nat_eq a b = elim (compare a b) [ Ordering.eq ↦ true | _ ↦ false ]

pub nat_eq_iff : (a b : ℕ) → (nat_eq a b ≡ true) ↔ (a ≡ b)
nat_eq_iff a b = ground arith

infix 1 if◌then◌else◌
abbrev pub if◌then◌else◌ {ℓ} : {A : Type ℓ} → Bool → A → A → A
if true then x else y = x
if false then x else y = y

pub not-false : (b : Bool) → not b ≡ false → b ≡ true
not-false true h = refl
not-false false h = cc

-- To split on a computed value and keep the equation.
pub Bool-cases : (b : Bool) → (b ≡ true) ⊎ (b ≡ false)
Bool-cases true = inl refl
Bool-cases false = inr refl

pub Option-cases {ℓ} : {A : Type ℓ} (o : Option A) → (o ≡ none) ⊎ ((a : A) × (o ≡ some a))
Option-cases none = inl refl
Option-cases (some a) = inr (a, refl)

-- The Rust trait `Eq`: a test that decides equality.
pub record Eq {ℓ} (A : Type ℓ) : Type ℓ where
  pub eq : A → A → Bool
  pub eq_iff : (a b : A) → (eq a b ≡ true) ↔ (a ≡ b)

infix 50 ◌==◌
abbrev pub ◌==◌ {ℓ} : {A : Type ℓ} ⦃e : Eq A⦄ → A → A → Bool
◌==◌ ⦃e⦄ = e.eq

module _ {ℓ} {A : Type ℓ} ⦃e : Eq A⦄ where
  pub ==_iff : (a b : A) → ((a == b) ≡ true) ↔ (a ≡ b)
  ==_iff a b = e.eq_iff a b

  pub ==_refl : (a : A) → (a == a) ≡ true
  ==_refl a = (e.eq_iff a a).1 refl

  unfoldable pub list_eq : List A → List A → Bool
  list_eq [] [] = true
  list_eq (x ∷ xs) (y ∷ ys) = x == y && list_eq xs ys
  list_eq _ _ = false

  pub list_eq_iff : (xs ys : List A) → (list_eq xs ys ≡ true) ↔ (xs ≡ ys)
  unfolding list_eq
  list_eq_iff [] [] = (λ _. refl, λ _. refl)
  list_eq_iff [] (y ∷ ys) = (λ h. cc, λ h. cc)
  list_eq_iff (x ∷ xs) [] = (λ h. cc, λ h. cc)
  list_eq_iff (x ∷ xs) (y ∷ ys) = (
    λ h. ground (arith, e.eq_iff x y, list_eq_iff xs ys),
    λ h. ground (arith, e.eq_iff x y, list_eq_iff xs ys),
  )

instance abbrev pub ℕ_eq : Eq ℕ
ℕ_eq = record { eq = nat_eq; eq_iff = nat_eq_iff }

-- Texts are lists of code points, so this is Rust's equality of `String`s.
instance abbrev pub text_eq : Eq (List ℕ)
text_eq = record { eq = list_eq; eq_iff = list_eq_iff }

module _ {ℓ} {A : Type ℓ} ⦃e : Eq A⦄ where
  abbrev pub option_eq : Option A → Option A → Bool
  option_eq none none = true
  option_eq (some a) (some b) = a == b
  option_eq _ _ = false

  pub option_eq_iff : (a b : Option A) → (option_eq a b ≡ true) ↔ (a ≡ b)
  option_eq_iff none none = (λ _. refl, λ _. refl)
  option_eq_iff none (some b) = (λ h. cc, λ h. cc)
  option_eq_iff (some a) none = (λ h. cc, λ h. cc)
  option_eq_iff (some a) (some b) =
      (λ h. ground (arith, e.eq_iff a b), λ h. ground (arith, e.eq_iff a b))
