-- ===== src/Base/Text/Blank.antt =====
-- Texts of white space only, and prefixes.
use mathlib.Core.Path.{◌≡◌, refl, ap, ◌∙◌, sym}
use mathlib.Core.Bool.{Bool, false, ◌&&◌}
use mathlib.Core.Option.{some}
use mathlib.Core.List.{List, [], ◌∷◌, ◌++◌, reverse, reverse-cons}
use native.Mathlib.Omega.{arith}
use onix_core.Base.Tests.{Bool-cases}
use onix_core.Base.Lists.{all, is_nil}
use mathlib.Core.Logic.{◌≢◌, inl, inr}
use onix_core.Base.Text.{Text, trim_start, trim, is_whitespace, strip_prefix}

pub all-append {ℓ} :
    {A : Type ℓ} (p : A → Bool) (xs ys : List A) → all p (xs ++ ys) ≡ (all p xs && all p ys)
all-append p [] ys = refl
all-append p (x ∷ xs) ys = ground (arith, all-append p xs ys)

pub all-reverse {ℓ} : {A : Type ℓ} (p : A → Bool) (xs : List A) → all p (reverse xs) ≡ all p xs
all-reverse p [] = refl
all-reverse p (x ∷ xs) =
    ap (all p) (reverse-cons x xs)
    ∙ (all-append p (reverse xs) (x ∷ []) ∙ ground (arith, all-reverse p xs))

is_nil-append {ℓ} : {A : Type ℓ} (xs : List A) (y : A) → is_nil (xs ++ (y ∷ [])) ≡ false
is_nil-append [] y = refl
is_nil-append (x ∷ xs) y = refl

is_nil-reverse {ℓ} : {A : Type ℓ} (xs : List A) → is_nil (reverse xs) ≡ is_nil xs
is_nil-reverse [] = refl
is_nil-reverse (x ∷ xs) = ap is_nil (reverse-cons x xs) ∙ is_nil-append (reverse xs) x

is_nil-trim_start : (s : Text) → is_nil (trim_start s) ≡ all is_whitespace s
unfolding trim_start
is_nil-trim_start [] = refl
is_nil-trim_start (c ∷ s) = elim (Bool-cases (is_whitespace c)) [
  | inl white ↦ rw white (is_nil-trim_start s)
  | inr other ↦ rw other refl
]

all-trim_start : (s : Text) → all is_whitespace (trim_start s) ≡ all is_whitespace s
unfolding trim_start
all-trim_start [] = refl
all-trim_start (c ∷ s) = elim (Bool-cases (is_whitespace c)) [
  | inl white ↦ rw white (all-trim_start s)
  | inr other ↦ rw (other, other) refl
]

-- Trimming leaves nothing exactly where all is white space.
pub is_nil-trim : (s : Text) → is_nil (trim s) ≡ all is_whitespace s
unfolding trim
is_nil-trim s =
    is_nil-reverse (trim_start (reverse (trim_start s)))
    ∙ (is_nil-trim_start (reverse (trim_start s))
        ∙ (all-reverse is_whitespace (trim_start s) ∙ all-trim_start s))

pub strip_prefix-append : (p s : Text) → strip_prefix (p ++ s) p ≡ some s
unfolding strip_prefix
strip_prefix-append [] s = refl
strip_prefix-append (c ∷ p) s = ground (arith, strip_prefix-append p s)

-- A text that trimming leaves as it is is not white space only.
pub trimmed_not_blank : (s : Text) → s ≢ [] → s ≡ trim s → all is_whitespace s ≡ false
trimmed_not_blank [] n t = absurd (n refl)
trimmed_not_blank (c ∷ s) n t = sym (is_nil-trim (c ∷ s)) ∙ ap is_nil (sym t)
