-- ===== src/Backup/Paths.antt =====
-- Relative paths: `validate_relative_path`, `compare_relative_path_bytes` and `Path::join`.
pub mod Split
pub mod Order
use Prim.Native.Nat.{compare, Ordering}
use onix_core.Base.{
  ℕ, Bool, true, false, List, [], ◌∷◌, ◌++◌, ◌&&◌, ◌||◌, not, ◌≡◌, any, is_nil, nat_eq,
  if◌then◌else◌, ◌==◌, list_eq, ℕ-eq,
}
use onix_core.Base.Results.{Result, ok, err, ◌>>=◌, ◌>>◌, reject}
use onix_core.Base.Text.{Text, codes, starts_with}
use onix_core.Backup.Types.{Error, invalid_path, forbidden_component}

prepend : ℕ → List Text → List Text
prepend c [] = (c ∷ []) ∷ []
prepend c (p ∷ ps) = (c ∷ p) ∷ ps

-- `split` at one byte: one piece more than there are such bytes.
unfoldable pub split : ℕ → Text → List Text
unfolding prepend
split d [] = [] ∷ []
split d (c ∷ s) = let rest = split d s in if nat_eq c d then [] ∷ rest else prepend c rest

-- `Path::components` without the root: empty pieces are skipped, and so is a dot behind the start.
pub data Component : Type 0 where
  current parent : Component
  normal : Text → Component

piece : Text → List Component → List Component
piece p rest =
    if p == codes ".."
    then parent ∷ rest
    else if p == [] || p == codes "."
    then rest
    else normal p ∷ rest

pieces : List Text → List Component
unfolding piece
pieces [] = []
pieces (p ∷ ps) = piece p (pieces ps)

first_pieces : List Text → List Component
unfolding pieces
first_pieces [] = []
first_pieces (p ∷ ps) = if p == codes "." then current ∷ pieces ps else pieces (p ∷ ps)

unfoldable pub components : Text → List Component
unfolding split first_pieces
components path = first_pieces (split b'/' path)

unfoldable pub is_forbidden : Component → Bool
is_forbidden (normal p) = false
is_forbidden _ = true

unfoldable pub validate_relative_path : Text → Result Error (Unit {0})
unfolding components is_forbidden
validate_relative_path path = do
  reject (is_nil path || starts_with path (codes "/")) invalid_path
  reject (any is_forbidden (components path)) forbidden_component

-- `cmp` of two lists, by `cmp` of their members.
unfoldable pub compare_list {ℓ} : {A : Type ℓ} → (A → A → Ordering) → List A → List A → Ordering
compare_list cmp [] [] = Ordering.eq
compare_list cmp [] (y ∷ ys) = Ordering.lt
compare_list cmp (x ∷ xs) [] = Ordering.gt
compare_list cmp (x ∷ xs) (y ∷ ys) =
    let rest = compare_list cmp xs ys in
    elim (cmp x y) [ Ordering.lt ↦ Ordering.lt | Ordering.gt ↦ Ordering.gt | Ordering.eq ↦ rest ]

-- `cmp` of two byte slices.
unfoldable pub compare_bytes : Text → Text → Ordering
unfolding compare_list
compare_bytes = compare_list compare

unfoldable pub compare_relative_path_bytes : Text → Text → Ordering
unfolding split compare_list compare_bytes
compare_relative_path_bytes left right =
    compare_list compare_bytes (split b'/' left) (split b'/' right)

-- `relative_directory.join(name)`, where no slash ends the directory and none starts the name.
unfoldable pub join : Text → Text → Text
join [] name = name
join (c ∷ directory) name = (c ∷ directory) ++ (b'/' ∷ name)

-- A name that a directory can hold.
pub record IsFileName (name : Text) : Type 0 where
  pub not_empty : is_nil name ≡ false
  pub flat : any (λ c. nat_eq c b'/') name ≡ false
  pub not_dot : (name == codes ".") ≡ false
  pub not_dots : (name == codes "..") ≡ false
