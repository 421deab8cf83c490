-- ===== src/Base/Text/Lines.antt =====
-- `str::lines` over a text that is put together from lines.
use Prim.Native.Nat.{ℕ}
use mathlib.Core.Path.{◌≡◌, refl, ap, ◌∙◌}
use mathlib.Core.Bool.{Bool, false, ◌||◌}
use mathlib.Core.List.{List, [], ◌∷◌, ◌++◌}
use native.Mathlib.Omega.{arith}
use onix_core.Base.Tests.{nat_eq}
use onix_core.Base.Lists.{any, is_nil, All}
use onix_core.Base.Text.{Text, lines}

-- A line feed or a carriage return.
unfoldable pub is_break : ℕ → Bool
is_break c = nat_eq c b'\n' || nat_eq c b'\r'

pub any-append {ℓ} :
    {A : Type ℓ} (p : A → Bool) (xs ys : List A) → any p (xs ++ ys) ≡ (any p xs || any p ys)
any-append p [] ys = refl
any-append p (x ∷ xs) ys = ground (arith, any-append p xs ys)

-- A text with no break in it and a line feed behind it is the first line.
pub lines-append : (l s : Text) → any is_break l ≡ false → lines (l ++ (b'\n' ∷ s)) ≡ l ∷ lines s
unfolding lines is_break
lines-append [] s h = refl
lines-append (c ∷ l) s h = ground (arith, lines-append l s)

pub lines_last : (l : Text) → any is_break l ≡ false → is_nil l ≡ false → lines l ≡ l ∷ []
unfolding lines is_break
lines_last [] h k = cc
lines_last (c ∷ []) h k = ground arith
lines_last (c ∷ e ∷ l) h k = ground (arith, lines_last (e ∷ l))

-- Lines with a line feed behind each.
unfoldable pub unlines : List Text → Text
unlines [] = []
unlines (l ∷ ls) = l ++ (b'\n' ∷ unlines ls)

pub lines-unlines :
    (ls : List Text) → All (λ l. any is_break l ≡ false) ls → lines (unlines ls) ≡ ls
unfolding unlines lines
lines-unlines [] h = refl
lines-unlines (l ∷ ls) h = lines-append l (unlines ls) h.0 ∙ ap (λ r. l ∷ r) (lines-unlines ls h.1)
