-- ===== src/Base/Sort/Rising.antt =====
-- Sorting members that are pairwise comparable gives a strictly rising list.
use mathlib.Core.Path.{◌≡◌}
use mathlib.Core.Logic.{◌⊎◌, inl, inr}
use mathlib.Core.Bool.{Bool, true, false}
use mathlib.Core.List.{List, [], ◌∷◌}
use native.Mathlib.Omega.{arith}
use onix_core.Base.Tests.{Bool-cases}
use onix_core.Base.Lists.{All}
use onix_core.Base.Sort.{insert, sort}
use onix_core.Base.Sort.Distinct.{All-map}

module _ {ℓ} {A : Type ℓ} (lt : A → A → Bool) where
  abbrev pub Rising : List A → Type 0
  Rising [] = Unit
  Rising (x ∷ xs) = All (λ y. lt x y ≡ true) xs × Rising xs

  abbrev pub Comparable : A → A → Type 0
  Comparable x y = (lt x y ≡ true) ⊎ (lt y x ≡ true)

  abbrev pub PairwiseComparable : List A → Type 0
  PairwiseComparable [] = Unit
  PairwiseComparable (x ∷ xs) = All (Comparable x) xs × PairwiseComparable xs

  pub insert-All {κ} :
      (P : A → Type κ) (a : A) (xs : List A) → P a → All P xs → All P (insert lt a xs)
  unfolding insert
  insert-All P a [] h hs = (h, tt)
  insert-All P a (x ∷ xs) h hs = elim (Bool-cases (lt x a)) [
    | inl after ↦ rw after (hs.0, insert-All P a xs h hs.1)
    | inr before ↦ rw before (h, hs)
  ]

  pub sort-All {κ} : (P : A → Type κ) (xs : List A) → All P xs → All P (sort lt xs)
  unfolding sort
  sort-All P [] h = tt
  sort-All P (x ∷ xs) h = insert-All P x (sort lt xs) h.0 (sort-All P xs h.1)

  module _ (trans : (a b c : A) → lt a b ≡ true → lt b c ≡ true → lt a c ≡ true) where
    before : (a x : A) → lt x a ≡ false → Comparable a x → lt a x ≡ true
    before a x h (inl p) = p
    before a x h (inr p) = absurd (ground arith)

    pub insert-Rising :
        (a : A) (xs : List A) → Rising xs → All (Comparable a) xs → Rising (insert lt a xs)
    unfolding insert
    insert-Rising a [] r c = (tt, tt)
    insert-Rising a (x ∷ xs) r c = elim (Bool-cases (lt x a)) [
      | inl after ↦
          rw after (insert-All (λ y. lt x y ≡ true) a xs after r.0, insert-Rising a xs r.1 c.1)
      | inr not_after ↦ rw not_after (
        (
          before a x not_after c.0,
          All-map (λ y p. trans a x y (before a x not_after c.0) p) xs r.0,
        ),
        r,
      )
    ]

    pub sort-Rising : (xs : List A) → PairwiseComparable xs → Rising (sort lt xs)
    unfolding sort
    sort-Rising [] c = tt
    sort-Rising (x ∷ xs) c =
        insert-Rising x (sort lt xs) (sort-Rising xs c.1) (sort-All (Comparable x) xs c.0)
