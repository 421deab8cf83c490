-- ===== src/Backup/Paths/Split.antt =====
-- `split` of texts that were put together.
use onix_core.Base.{
  ℕ, false, List, [], ◌∷◌, ◌++◌, ◌≡◌, ◌≢◌, refl, ap, ◌∙◌, any, nat_eq, arith, Bool-cases, inl, inr,
}
use onix_core.Base.Text.{Text}
use onix_core.Backup.Paths.{prepend, split}

-- A text without the byte is its only piece.
pub split_single : (d : ℕ) (s : Text) → any (λ c. nat_eq c d) s ≡ false → split d s ≡ s ∷ []
unfolding split
split_single d [] h = refl
split_single d (c ∷ s) h = ground (arith, split_single d s)

prepend-append : (c : ℕ) (ps qs : List Text) → ps ≢ [] → prepend c (ps ++ qs) ≡ prepend c ps ++ qs
unfolding prepend
prepend-append c [] qs h = absurd (h refl)
prepend-append c (p ∷ ps) qs h = refl

prepend-ne-nil : (c : ℕ) (ps : List Text) → prepend c ps ≢ []
unfolding prepend
prepend-ne-nil c [] = cc
prepend-ne-nil c (p ∷ ps) = cc

split-ne-nil : (d : ℕ) (s : Text) → split d s ≢ []
unfolding split
split-ne-nil d [] = cc
split-ne-nil d (c ∷ s) = elim (Bool-cases (nat_eq c d)) [
  | inl here ↦ rw here (cc)
  | inr other ↦ rw other (prepend-ne-nil c (split d s))
]

pub split-append : (d : ℕ) (a b : Text) → split d (a ++ (d ∷ b)) ≡ split d a ++ split d b
unfolding split
split-append d [] b = ground arith
split-append d (c ∷ a) b = elim (Bool-cases (nat_eq c d)) [
  | inl here ↦ rw here (ap (λ r. [] ∷ r) (split-append d a b))
  | inr other ↦ rw other (
      ap (prepend c) (split-append d a b)
      ∙ prepend-append c (split d a) (split d b) (split-ne-nil d a))
]

-- A first piece that does not hold the byte.
pub split_piece :
    (d : ℕ) (a b : Text) → any (λ c. nat_eq c d) a ≡ false → split d (a ++ (d ∷ b)) ≡ a ∷ split d b
split_piece d a b h = split-append d a b ∙ ap (λ ps. ps ++ split d b) (split_single d a h)
