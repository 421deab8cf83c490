-- ===== src/Base/Slices.antt =====
-- Indexing and slicing of lists.
use Prim.Native.Nat.{ℕ, zero, suc, ◌≤◌}
use mathlib.Core.Path.{◌≡◌, refl, ap}
use mathlib.Core.Option.{Option, none, some}
use mathlib.Core.List.{List, [], ◌∷◌, ◌++◌}
use native.Mathlib.Omega.{arith}
use onix_core.Base.Lists.{length, take, drop, All}

module _ {ℓ} {A : Type ℓ} where
  abbrev pub get_elem? : List A → ℕ → Option A
  get_elem? [] i = none
  get_elem? (x ∷ xs) zero = some x
  get_elem? (x ∷ xs) (suc i) = get_elem? xs i

  -- `list[start..stop]`. The source indexes only where `start` is at most `stop` and `stop` at most
  -- the length; elsewhere, where the source would panic, this is the part that is there.
  abbrev pub slice : ℕ → ℕ → List A → List A
  slice zero stop xs = take stop xs
  slice (suc start) zero xs = []
  slice (suc start) (suc stop) [] = []
  slice (suc start) (suc stop) (x ∷ xs) = slice start stop xs

  pub slice-split :
      (a b : ℕ) (xs : List A) {x : A}
      → a ≤ b
      → get_elem? xs b ≡ some x
      → drop a xs ≡ slice a b xs ++ (x ∷ drop (suc b) xs)
  slice-split a b [] h e = cc
  slice-split zero zero (y ∷ xs) h e = ground arith
  slice-split zero (suc b) (y ∷ xs) h e = ap (λ r. y ∷ r) (slice-split zero b xs (omega arith) e)
  slice-split (suc a) zero (y ∷ xs) h e = absurd (omega arith)
  slice-split (suc a) (suc b) (y ∷ xs) h e = slice-split a b xs (omega arith) e

  pub slice_all : (a b : ℕ) (xs : List A) → length xs ≤ b → slice a b xs ≡ drop a xs
  slice_all zero zero [] h = refl
  slice_all zero (suc b) [] h = refl
  slice_all zero zero (x ∷ xs) h = absurd (omega arith)
  slice_all zero (suc b) (x ∷ xs) h = ap (λ r. x ∷ r) (slice_all zero b xs (omega arith))
  slice_all (suc a) zero [] h = refl
  slice_all (suc a) (suc b) [] h = refl
  slice_all (suc a) zero (x ∷ xs) h = absurd (omega arith)
  slice_all (suc a) (suc b) (x ∷ xs) h = slice_all a b xs (omega arith)

  pub slice-suc :
      (a b : ℕ) (xs : List A) {x : A}
      → a ≤ b
      → get_elem? xs b ≡ some x
      → slice a (suc b) xs ≡ slice a b xs ++ (x ∷ [])
  slice-suc a b [] h e = cc
  slice-suc zero zero (y ∷ xs) h e = ground arith
  slice-suc zero (suc b) (y ∷ xs) h e = ap (λ r. y ∷ r) (slice-suc zero b xs (omega arith) e)
  slice-suc (suc a) zero (y ∷ xs) h e = absurd (omega arith)
  slice-suc (suc a) (suc b) (y ∷ xs) h e = slice-suc a b xs (omega arith) e

  pub drop-get_elem? :
      (k : ℕ) (xs : List A) {x : A} {r : List A}
      → drop k xs ≡ x ∷ r
      → (get_elem? xs k ≡ some x) × (drop (suc k) xs ≡ r)
  drop-get_elem? zero [] e = absurd (cc)
  drop-get_elem? (suc k) [] e = absurd (cc)
  drop-get_elem? zero (y ∷ xs) e = (ground arith, ground arith)
  drop-get_elem? (suc k) (y ∷ xs) e = drop-get_elem? k xs e

  pub drop-nil : (k : ℕ) (xs : List A) → drop k xs ≡ [] → length xs ≤ k
  drop-nil k [] e = omega arith
  drop-nil zero (x ∷ xs) e = absurd (cc)
  drop-nil (suc k) (x ∷ xs) e = omega (arith, drop-nil k xs e)

  pub slice_empty : (k : ℕ) (xs : List A) → slice k k xs ≡ []
  slice_empty zero xs = refl
  slice_empty (suc k) [] = refl
  slice_empty (suc k) (x ∷ xs) = slice_empty k xs

  module _ {κ} (P : A → Type κ) where
    pub All-slice : (a b : ℕ) (xs : List A) → All P xs → All P (slice a b xs)
    All-slice zero zero xs h = tt
    All-slice zero (suc b) [] h = tt
    All-slice zero (suc b) (x ∷ xs) h = (h.0, All-slice zero b xs h.1)
    All-slice (suc a) zero xs h = tt
    All-slice (suc a) (suc b) [] h = tt
    All-slice (suc a) (suc b) (x ∷ xs) h = All-slice a b xs h.1
