-- ===== src/Backup/Paths/Order.antt =====
-- The component order of paths, and the components of a joined path.
use Prim.Native.Nat.{compare, Ordering}
use onix_core.Base.{ℕ, true, List, [], ◌∷◌, ◌++◌, ◌≡◌, refl, ap, ap₂, ◌∙◌, arith}
use onix_core.Base.Text.{Text, text_lt}
use onix_core.Backup.Paths.{
  split, compare_list, compare_bytes, compare_relative_path_bytes, join, IsFileName,
}
use onix_core.Backup.Paths.Split.{split_single, split-append}

module _ {ℓ} {A : Type ℓ} (cmp : A → A → Ordering) (same : (a : A) → cmp a a ≡ Ordering.eq) where
  -- A common start does not count.
  compare_list_start :
      (start xs ys : List A) → compare_list cmp (start ++ xs) (start ++ ys) ≡ compare_list cmp xs ys
  unfolding compare_list
  compare_list_start [] xs ys = refl
  compare_list_start (a ∷ start) xs ys = rw (same a, compare_list) (compare_list_start start xs ys)

  compare_list_prefix :
      (xs ys : List A) (y : A) → compare_list cmp xs (xs ++ (y ∷ ys)) ≡ Ordering.lt
  unfolding compare_list
  compare_list_prefix [] ys y = refl
  compare_list_prefix (a ∷ xs) ys y = rw (same a, compare_list) (compare_list_prefix xs ys y)

  compare_list_self : (xs : List A) → compare_list cmp xs xs ≡ Ordering.eq
  unfolding compare_list
  compare_list_self [] = refl
  compare_list_self (a ∷ xs) = rw (same a, compare_list) (compare_list_self xs)

compare_self : (n : ℕ) → compare n n ≡ Ordering.eq
compare_self n = ground arith

compare_bytes_self : (s : Text) → compare_bytes s s ≡ Ordering.eq
unfolding compare_bytes
compare_bytes_self s = compare_list_self compare compare_self s

text_lt-compare_bytes : (a b : Text) → text_lt a b ≡ true → compare_bytes a b ≡ Ordering.lt
unfolding text_lt compare_bytes compare_list
text_lt-compare_bytes [] [] h = cc
text_lt-compare_bytes [] (d ∷ b) h = refl
text_lt-compare_bytes (c ∷ a) [] h = cc
text_lt-compare_bytes (c ∷ a) (d ∷ b) h = ground (arith, text_lt-compare_bytes a b)

compare_list_head :
    (n m : Text) (s t : List Text)
    → compare_bytes n m ≡ Ordering.lt
    → compare_list compare_bytes (n ∷ s) (m ∷ t) ≡ Ordering.lt
unfolding compare_list
compare_list_head n m s t h = rw (h, compare_list) refl

-- One path before the other in component order.
abbrev pub Before : Text → Text → Type 0
Before a b = compare_relative_path_bytes a b ≡ Ordering.lt

pub Before-name :
    (start s t : List Text) (n m a b : Text)
    → text_lt n m ≡ true
    → split b'/' a ≡ start ++ (n ∷ s)
    → split b'/' b ≡ start ++ (m ∷ t)
    → Before a b
unfolding compare_relative_path_bytes
Before-name start s t n m a b h p q =
    ap₂ (compare_list compare_bytes) p q
    ∙ (compare_list_start compare_bytes compare_bytes_self start (n ∷ s) (m ∷ t)
        ∙ compare_list_head n m s t (text_lt-compare_bytes n m h))

pub Before-below :
    (t : List Text) (m a b : Text) → split b'/' b ≡ split b'/' a ++ (m ∷ t) → Before a b
unfolding compare_relative_path_bytes
Before-below t m a b q =
    ap (compare_list compare_bytes (split b'/' a)) q
    ∙ compare_list_prefix compare_bytes compare_bytes_self (split b'/' a) t m

-- The components of a directory; the root of the walk has none.
abbrev pub parts : Text → List Text
parts [] = []
parts (c ∷ s) = split b'/' (c ∷ s)

pub split-join :
    (directory name : Text)
    → IsFileName name
    → split b'/' (join directory name) ≡ parts directory ++ (name ∷ [])
unfolding join
split-join [] name f = split_single b'/' name f.flat
split-join (c ∷ s) name f =
    split-append b'/' (c ∷ s) name
    ∙ ap (λ r. split b'/' (c ∷ s) ++ r) (split_single b'/' name f.flat)

pub parts-join :
    (directory name : Text)
    → IsFileName name
    → parts (join directory name) ≡ split b'/' (join directory name)
unfolding join
parts-join [] [] f = absurd (ground (arith, f.not_empty))
parts-join [] (c ∷ name) f = refl
parts-join (c ∷ s) name f = refl
