-- ===== src/Base/Sort/Distinct.antt =====
-- A strictly sorted list holds each value once.
use mathlib.Core.Path.{◌≡◌, refl, subst}
use mathlib.Core.Logic.{◌≢◌, inl, inr}
use mathlib.Core.Bool.{Bool, true}
use mathlib.Core.List.{List, [], ◌∷◌}
use native.Mathlib.Omega.{arith}
use onix_core.Base.Tests.{Bool-cases}
use onix_core.Base.Lists.{All, filter}
use onix_core.Base.Sort.{unique_sorted}

abbrev pub Distinct {ℓ} : {A : Type ℓ} → List A → Type ℓ
Distinct [] = Unit
Distinct (x ∷ xs) = All (λ y. x ≢ y) xs × Distinct xs

pub All-map {ℓ κ μ} :
    {A : Type ℓ} {P : A → Type κ} {Q : A → Type μ} (f : (a : A) → P a → Q a) (xs : List A)
    → All P xs
    → All Q xs
All-map f [] h = tt
All-map f (x ∷ xs) h = (f x h.0, All-map f xs h.1)

pub All-both {ℓ κ μ} :
    {A : Type ℓ} (P : A → Type κ) (Q : A → Type μ) (xs : List A)
    → All P xs
    → All Q xs
    → All (λ x. P x × Q x) xs
All-both P Q [] p q = tt
All-both P Q (x ∷ xs) p q = ((p.0, q.0), All-both P Q xs p.1 q.1)

-- Of the members kept, what held before and the test.
pub All-filter {ℓ κ} :
    {A : Type ℓ} (P : A → Type κ) (p : A → Bool) (xs : List A)
    → All P xs
    → All (λ x. P x × (p x ≡ true)) (filter p xs)
All-filter P p [] h = tt
All-filter P p (x ∷ xs) h = elim (Bool-cases (p x)) [
  | inl e ↦ rw e ((h.0, e), All-filter P p xs h.1)
  | inr e ↦ rw e (All-filter P p xs h.1)
]

pub filter-All {ℓ κ} :
    {A : Type ℓ} (P : A → Type κ) (p : A → Bool) (xs : List A) → All P xs → All P (filter p xs)
filter-All P p [] h = tt
filter-All P p (x ∷ xs) h = elim (Bool-cases (p x)) [
  | inl e ↦ rw e (h.0, filter-All P p xs h.1)
  | inr e ↦ rw e (filter-All P p xs h.1)
]

pub filter-Distinct {ℓ} :
    {A : Type ℓ} (p : A → Bool) (xs : List A) → Distinct xs → Distinct (filter p xs)
filter-Distinct p [] d = tt
filter-Distinct p (x ∷ xs) d = elim (Bool-cases (p x)) [
  | inl e ↦ rw e (filter-All (λ y. x ≢ y) p xs d.0, filter-Distinct p xs d.1)
  | inr e ↦ rw e (filter-Distinct p xs d.1)
]

-- A transitive and irreflexive Boolean order.
pub record IsStrict {ℓ} {A : Type ℓ} (lt : A → A → Bool) : Type ℓ where
  pub irrefl : (a : A) → ¬ (lt a a ≡ true)
  pub trans : (a b c : A) → lt a b ≡ true → lt b c ≡ true → lt a c ≡ true

module _ {ℓ} {A : Type ℓ} (lt : A → A → Bool) (s : IsStrict lt) where
  unique_sorted-All :
      (x : A) (xs : List A) → unique_sorted lt (x ∷ xs) ≡ true → All (λ y. lt x y ≡ true) xs
  unfolding unique_sorted
  unique_sorted-All x [] h = tt
  unique_sorted-All x (y ∷ xs) h =
      let below : lt x y ≡ true = ground arith in
      (below, All-map (λ z k. s.trans x y z below k) xs (unique_sorted-All y xs (ground arith)))

  unique_sorted-tail :
      (x : A) (xs : List A) → unique_sorted lt (x ∷ xs) ≡ true → unique_sorted lt xs ≡ true
  unfolding unique_sorted
  unique_sorted-tail x [] h = refl
  unique_sorted-tail x (y ∷ xs) h = ground arith

  pub unique_sorted-Distinct : (xs : List A) → unique_sorted lt xs ≡ true → Distinct xs
  unique_sorted-Distinct [] h = tt
  unique_sorted-Distinct (x ∷ xs) h = (
    All-map (λ y k e. s.irrefl y (subst (λ w. lt w y ≡ true) e k)) xs (unique_sorted-All x xs h),
    unique_sorted-Distinct xs (unique_sorted-tail x xs h),
  )
