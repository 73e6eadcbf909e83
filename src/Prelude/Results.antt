-- ===== src/Prelude/Results.antt =====
-- Rust's `Result`, its `?` operator as a bind, and loops that stop at the first error.
use mathlib.Core.Path.{◌≡◌, refl}
use mathlib.Core.Logic.{◌↔◌, ◌⊎◌, inl, inr}
use mathlib.Core.Bool.{Bool, true, false}
use mathlib.Core.Option.{Option, none, some}
use mathlib.Core.List.{List, [], ◌∷◌}
use native.Mathlib.Omega.{arith}
use donkeyspace.Prelude.Lists.{All}

pub data Result {ℓ κ} (E : Type ℓ) (A : Type κ) : Type (ℓ ⊔ κ) where
  ok : A → Result E A
  err : E → Result E A

infixl 5 ◌>>=◌ ◌>>◌
abbrev pub ◌>>=◌ {ℓ κ ι} :
    {E : Type ℓ} {A : Type κ} {B : Type ι} → Result E A → (A → Result E B) → Result E B
ok a >>= f = f a
err e >>= f = err e

abbrev pub ◌>>◌ {ℓ ι} : {E : Type ℓ} {B : Type ι} → Result E (Unit {0}) → Result E B → Result E B
m >> k = m >>= λ _. k

-- `if test { return Err(error) }`.
abbrev pub fail_if {ℓ} : {E : Type ℓ} → Bool → E → Result E (Unit {0})
fail_if true e = err e
fail_if false e = ok tt

-- `Option::ok_or`.
abbrev pub ok_or {ℓ κ} : {E : Type ℓ} {A : Type κ} → Option A → E → Result E A
ok_or none e = err e
ok_or (some a) e = ok a

-- `Result::map_err`.
abbrev pub map_err {ℓ κ ι} :
    {E : Type ℓ} {F : Type κ} {A : Type ι} → (E → F) → Result E A → Result F A
map_err f (ok a) = ok a
map_err f (err e) = err (f e)

-- `if let Some(value) = option { check(value)?; }`.
abbrev pub when_some {ℓ κ} :
    {E : Type ℓ} {A : Type κ} → Option A → (A → Result E (Unit {0})) → Result E (Unit {0})
when_some none check = ok tt
when_some (some a) check = check a

module _ {ℓ κ} {E : Type ℓ} {A : Type κ} where
  -- `for x in xs { check(x)?; }`.
  abbrev pub for_each : (A → Result E (Unit {0})) → List A → Result E (Unit {0})
  for_each check [] = ok tt
  for_each check (x ∷ xs) = check x >> for_each check xs

  pub for_each_iff :
      (check : A → Result E (Unit {0})) (xs : List A)
      → (for_each check xs ≡ ok tt) ↔ All (λ x. check x ≡ ok tt) xs
  for_each_iff check [] = (λ _. tt, λ _. refl)
  for_each_iff check (x ∷ xs) =
      (λ h. ground (arith, for_each_iff check xs), λ h. ground (arith, for_each_iff check xs))

pub Result-cases {ℓ κ} :
    {E : Type ℓ} {A : Type κ} (r : Result E A) → ((a : A) × (r ≡ ok a)) ⊎ ((e : E) × (r ≡ err e))
Result-cases (ok a) = inl (a, refl)
Result-cases (err e) = inr (e, refl)

-- Inversion of a successful bind, for proofs where the parts stay shut.
pub >>=-eq-ok {ℓ κ ι} :
    {E : Type ℓ} {A : Type κ} {B : Type ι} (first : Result E A) (next : A → Result E B) {last : B}
    → (first >>= next) ≡ ok last
    → (mid : A) × (first ≡ ok mid) × (next mid ≡ ok last)
>>=-eq-ok (err e) next h = cc
>>=-eq-ok (ok mid) next h = (mid, refl, h)

pub >>-eq-ok {ℓ ι} :
    {E : Type ℓ} {B : Type ι} (m : Result E (Unit {0})) (k : Result E B) {b : B}
    → (m >> k) ≡ ok b
    → (m ≡ ok tt) × (k ≡ ok b)
>>-eq-ok (ok tt) k h = (refl, h)
>>-eq-ok (err e) k h = cc

pub fail_if-eq-ok {ℓ} : {E : Type ℓ} (b : Bool) (e : E) → fail_if b e ≡ ok tt → b ≡ false
fail_if-eq-ok true e h = cc
fail_if-eq-ok false e h = refl

pub >>=-eq-err {ℓ κ ι} :
    {E : Type ℓ} {A : Type κ} {B : Type ι} (m : Result E A) (f : A → Result E B) {e : E}
    → (m >>= f) ≡ err e
    → (m ≡ err e) ⊎ ((a : A) × (m ≡ ok a) × (f a ≡ err e))
>>=-eq-err (ok a) f h = inr (a, refl, h)
>>=-eq-err (err e) f h = inl cc

pub map_err-eq-ok {ℓ κ ι} :
    {E : Type ℓ} {F : Type κ} {A : Type ι} (f : E → F) (m : Result E A) {a : A}
    → map_err f m ≡ ok a
    → m ≡ ok a
map_err-eq-ok f (ok b) h = cc
map_err-eq-ok f (err e) h = cc

pub ok_or-eq-ok {ℓ κ} :
    {E : Type ℓ} {A : Type κ} (m : Option A) (e : E) {a : A} → ok_or m e ≡ ok a → m ≡ some a
ok_or-eq-ok none e h = cc
ok_or-eq-ok (some b) e h = cc

pub ok_inj {ℓ κ} : {E : Type ℓ} {A : Type κ} {a b : A} → ◌≡◌ {A = Result E A} (ok a) (ok b) → a ≡ b
ok_inj h = cc
