-- ===== src/Base/Text/Order.antt =====
-- The order of texts is strict.
use mathlib.Core.Path.{◌≡◌, refl}
use mathlib.Core.Logic.{◌≢◌, ◌⊎◌, inl, inr}
use mathlib.Core.Bool.{true}
use mathlib.Core.List.{[], ◌∷◌}
use native.Mathlib.Omega.{arith}
use onix_core.Base.Tests.{Bool-cases, ltb, nat_eq}
use onix_core.Base.Sort.Distinct.{IsStrict}
use onix_core.Base.Text.{Text, text_lt}

text_lt_irrefl : (s : Text) → ¬ (text_lt s s ≡ true)
unfolding text_lt
text_lt_irrefl [] = cc
text_lt_irrefl (c ∷ s) = ground (arith, text_lt_irrefl s)

text_lt_trans : (s t u : Text) → text_lt s t ≡ true → text_lt t u ≡ true → text_lt s u ≡ true
unfolding text_lt
text_lt_trans s [] u h k = cc
text_lt_trans s (d ∷ t) [] h k = cc
text_lt_trans [] (d ∷ t) (e ∷ u) h k = ground arith
text_lt_trans (c ∷ s) (d ∷ t) (e ∷ u) h k = ground (arith, text_lt_trans s t u)

pub text_lt-IsStrict : IsStrict text_lt
text_lt-IsStrict = record { irrefl = text_lt_irrefl; trans = text_lt_trans }

-- Of two different texts one comes first.
pub text_lt_total : (a b : Text) → a ≢ b → (text_lt a b ≡ true) ⊎ (text_lt b a ≡ true)
unfolding text_lt
text_lt_total [] [] h = absurd (h refl)
text_lt_total [] (d ∷ b) h = inl refl
text_lt_total (c ∷ a) [] h = inr refl
text_lt_total (c ∷ a) (d ∷ b) h = elim (Bool-cases (nat_eq c d)) [
  | inl same ↦ elim (text_lt_total a b (ground arith)) [
    | inl p ↦ inl (ground arith)
    | inr p ↦ inr (ground arith)
  ]
  | inr other ↦ elim (Bool-cases (ltb c d)) [
    | inl p ↦ inl (ground arith)
    | inr p ↦ inr (ground arith)
  ]
]
