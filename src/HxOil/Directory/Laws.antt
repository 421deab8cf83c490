-- ===== src/HxOil/Directory/Laws.antt =====
-- What the directory operations do to each name.
use onix_core.Base.{none, [], ◌∷◌, ◌≡◌, arith, ◌==◌, list_eq, ℕ-eq, if◌then◌else◌}
use onix_core.Base.Text.{Text}
use onix_core.HxOil.Types.{text_iff}
use onix_core.HxOil.Directory.{Directory, find, erase}

pub find-erase :
    (n name : Text) (dir : Directory)
    → find n (erase name dir) ≡ (if name == n then none else find n dir)
unfolding find erase
find-erase n name [] = ground arith
find-erase n name ((m, node) ∷ dir) =
    ground (arith, find-erase n name dir, text_iff m n, text_iff m name, text_iff name n)
