-- ===== src/Base/Equality.antt =====
-- Equality tests, for every type whose derived `PartialEq` the source uses.
use Prim.Native.Nat.{ℕ}
use Prim.Native.String.{String}
use mathlib.Core.Path.{◌≡◌, refl, ap}
use mathlib.Core.Logic.{◌↔◌}
use mathlib.Core.Bool.{Bool, true, false, not, ◌&&◌, ◌||◌}
use mathlib.Core.Option.{Option, none, some}
use mathlib.Core.List.{List, [], ◌∷◌}
use native.Mathlib.Omega.{arith}
use text.Mathlib.Text.{◌==◌ as str_eq}
use text.Mathlib.TextEquality.{eq_iff}
use onix_core.Base.Tests.{nat_eq, nat_eq_iff}

pub record Eq {ℓ} (X : Type ℓ) : Type ℓ where
  pub beq : X → X → Bool
  pub beq_iff : (x y : X) → (beq x y ≡ true) ↔ (x ≡ y)

infix 50 ◌==◌ ◌!=◌
abbrev pub ◌==◌ {ℓ} : {A : Type ℓ} ⦃e : Eq A⦄ → A → A → Bool
◌==◌ ⦃e⦄ = e.beq

abbrev pub ◌!=◌ {ℓ} : {A : Type ℓ} ⦃e : Eq A⦄ → A → A → Bool
◌!=◌ ⦃e⦄ a b = not (e.beq a b)

module _ {ℓ} {A : Type ℓ} ⦃e : Eq A⦄ where
  pub eq_of_not-ne : {a b : A} → (a != b) ≡ false → a ≡ b
  eq_of_not-ne {a} {b} h = (e.beq_iff a b).0 (ground arith)

  pub not-ne_of_eq : {a b : A} → a ≡ b → (a != b) ≡ false
  not-ne_of_eq {a} {b} h = ground (arith, (e.beq_iff a b).1 h)

  pub ==_refl : (a : A) → (a == a) ≡ true
  ==_refl a = (e.beq_iff a a).1 refl

  unfoldable pub option_beq : Option A → Option A → Bool
  option_beq none none = true
  option_beq (some a) (some b) = a == b
  option_beq _ _ = false

  pub option_beq_iff : (a b : Option A) → (option_beq a b ≡ true) ↔ (a ≡ b)
  unfolding option_beq
  option_beq_iff none none = (λ h. refl, λ h. refl)
  option_beq_iff none (some b) = (λ h. cc, λ h. cc)
  option_beq_iff (some a) none = (λ h. cc, λ h. cc)
  option_beq_iff (some a) (some b) =
      (λ h. ap some ((e.beq_iff a b).0 h), λ h. (e.beq_iff a b).1 (ground arith))

  unfoldable pub list_beq : List A → List A → Bool
  list_beq [] [] = true
  list_beq (a ∷ as') (b ∷ bs) = a == b && list_beq as' bs
  list_beq _ _ = false

  pub list_beq_iff : (xs ys : List A) → (list_beq xs ys ≡ true) ↔ (xs ≡ ys)
  unfolding list_beq
  list_beq_iff [] [] = (λ h. refl, λ h. refl)
  list_beq_iff [] (b ∷ bs) = (λ h. cc, λ h. cc)
  list_beq_iff (a ∷ xs) [] = (λ h. cc, λ h. cc)
  list_beq_iff (a ∷ xs) (b ∷ ys) = (
    λ h. ground (arith, (e.beq_iff a b).0, (list_beq_iff xs ys).0),
    λ h. ground (arith, (e.beq_iff a b).1, (list_beq_iff xs ys).1),
  )

  instance unfoldable pub option_eq : Eq (Option A)
  unfolding option_beq
  option_eq = record { beq = option_beq; beq_iff = option_beq_iff }

  instance unfoldable pub list_eq : Eq (List A)
  unfolding list_beq
  list_eq = record { beq = list_beq; beq_iff = list_beq_iff }

  -- `contains` of a slice.
  unfoldable pub contains : List A → A → Bool
  contains [] a = false
  contains (x ∷ xs) a = x == a || contains xs a

instance unfoldable pub ℕ-eq : Eq ℕ
ℕ-eq = record { beq = nat_eq; beq_iff = nat_eq_iff }

instance unfoldable pub string_eq : Eq String
string_eq = record { beq = str_eq; beq_iff = eq_iff }
