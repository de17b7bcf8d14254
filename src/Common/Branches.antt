-- ===== src/Common/Branches.antt =====
-- A property of a branch, from the property of each of its cases.
use mathlib.Core.Path.{◌≡◌, refl}
use mathlib.Core.Bool.{Bool, true, false}
use mathlib.Core.Option.{Option, none, some}
use hacp.Common.Tests.{if◌then◌else◌}
use hacp.Common.Fallible.{Result, ok, err}

module _ {C : Type 0} (P : C → Type 0) where
  pub on_bool :
      (b : Bool) (x y : C)
      → (b ≡ true → P x)
      → (b ≡ false → P y)
      → P (elim b as (λ _. C) [ true ↦ x | false ↦ y ])
  on_bool true x y one other = one refl
  on_bool false x y one other = other refl

  pub on_if : (b : Bool) (x y : C) → (b ≡ true → P x) → (b ≡ false → P y) → P (if b then x else y)
  on_if true x y one other = one refl
  on_if false x y one other = other refl

module _ {A C : Type 0} (P : C → Type 0) where
  pub on_option :
      (o : Option A) (x : C) (y : A → C)
      → (o ≡ none → P x)
      → ((a : A) → o ≡ some a → P (y a))
      → P (elim o as (λ _. C) [ none ↦ x | some a ↦ y a ])
  on_option none x y one other = one refl
  on_option (some a) x y one other = other a refl

module _ {A E C : Type 0} (P : C → Type 0) where
  pub on_result :
      (r : Result E A) (x : E → C) (y : A → C)
      → ((e : E) → r ≡ err e → P (x e))
      → ((a : A) → r ≡ ok a → P (y a))
      → P (elim r as (λ _. C) [ err e ↦ x e | ok a ↦ y a ])
  on_result (ok a) x y one other = other a refl
  on_result (err e) x y one other = one e refl
