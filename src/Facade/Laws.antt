-- ===== src/Facade/Laws.antt =====
-- What a validated facade promises to the code that prints it.
use donkeyspace.Prelude.{◌≡◌, refl, true, false, Option, none, some, ok, arith, any}
use donkeyspace.Text.{Text, lit, is_blank, is_control}
use donkeyspace.Facade.{FacadeConfig, Facade, resolve, validate, valid_slug, default_facade}

-- Text of one line that is not blank.
abbrev pub IsLine : Text → Type 0
IsLine s = (is_blank s ≡ false) × (any is_control s ≡ false)

-- The names of a facade as they may be printed into commands, branches and messages.
pub record IsPresentable (f : Facade) : Type 0 where
  pub display_name : IsLine f.display_name
  pub tagline : IsLine f.tagline
  pub command : valid_slug f.command 32 ≡ true
  pub branch_prefix : valid_slug f.branch_prefix 64 ≡ true

-- A field that is left out is valid.
abbrev pub IfSome : (Text → Type 0) → Option Text → Type 0
IfSome P none = Unit
IfSome P (some a) = P a

-- What `validate` checks, field by field.
pub record Passes (c : FacadeConfig) : Type 0 where
  pub display_name : IfSome IsLine c.display_name
  pub tagline : IfSome IsLine c.tagline
  pub command : IfSome (λ s. valid_slug s 32 ≡ true) c.command
  pub branch_prefix : IfSome (λ s. valid_slug s 64 ≡ true) c.branch_prefix

pub validate-Passes : (c : FacadeConfig) → validate c ≡ ok tt → Passes c
unfolding validate
validate-Passes c h = ground arith

pub Passes-validate : (c : FacadeConfig) → Passes c → validate c ≡ ok tt
unfolding validate
Passes-validate c v = ground arith

pub default-IsPresentable : IsPresentable default_facade
unfolding default_facade lit is_blank is_control valid_slug
default-IsPresentable = record {
  display_name = (refl, refl);
  tagline = (refl, refl);
  command = refl;
  branch_prefix = refl;
}

-- A configuration that passes `validate` resolves to a facade of which every name, also those
-- that it leaves to the defaults, is presentable.
pub resolve-IsPresentable : (c : FacadeConfig) → validate c ≡ ok tt → IsPresentable (resolve c)
unfolding resolve default_facade
resolve-IsPresentable c h = ground (arith, validate-Passes c h, default-IsPresentable)
