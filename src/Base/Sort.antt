-- ===== src/Base/Sort.antt =====
-- `slice::sort`, `Vec::dedup` and the strict order test on windows, for a Boolean order.
pub mod Distinct
pub mod Rising
use mathlib.Core.Bool.{Bool, true, ◌&&◌}
use mathlib.Core.List.{List, [], ◌∷◌}
use onix_core.Base.Tests.{if◌then◌else◌}
use onix_core.Base.Equality.{Eq, ◌==◌}

module _ {ℓ} {A : Type ℓ} (lt : A → A → Bool) where
  -- Insertion sort. Where values that neither precedes are equal, every sort gives the same list.
  unfoldable pub insert : A → List A → List A
  insert a [] = a ∷ []
  insert a (x ∷ xs) = let rest = insert a xs in if lt x a then x ∷ rest else a ∷ x ∷ xs

  unfoldable pub sort : List A → List A
  unfolding insert
  sort [] = []
  sort (x ∷ xs) = insert x (sort xs)

  -- `values.windows(2).all(|window| window[0] < window[1])`
  unfoldable pub unique_sorted : List A → Bool
  unique_sorted [] = true
  unique_sorted (x ∷ []) = true
  unique_sorted (x ∷ y ∷ xs) = lt x y && unique_sorted (y ∷ xs)

module _ {ℓ} {A : Type ℓ} ⦃e : Eq A⦄ where
  -- Keeps the first of each run of equal values.
  unfoldable pub dedup : List A → List A
  dedup [] = []
  dedup (x ∷ []) = x ∷ []
  dedup (x ∷ y ∷ xs) = let rest = dedup (y ∷ xs) in if x == y then rest else x ∷ rest
