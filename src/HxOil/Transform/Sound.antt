-- ===== src/HxOil/Transform/Sound.antt =====
-- A transform plan gives each marked entry a new name that nothing in the directory has.
use onix_core.Base.{false, List, [], ◌∷◌, map, contains, ◌≡◌, list_eq, ℕ-eq}
use onix_core.Base.Text.{Text}
use onix_core.HxOil.Manifest.Names.{IsEntryName}
use onix_core.HxOil.Transform.{TransformItem}

abbrev pub sources : List TransformItem → List Text
sources = map (λ (i : TransformItem). i.from)

abbrev pub targets : List TransformItem → List Text
targets = map (λ (i : TransformItem). i.to)

-- A name that an entry may have, and that is neither in the lists nor produced before.
abbrev pub IsFree : List Text → List Text → List Text → Text → Type 0
IsFree unmarked marked_sources produced name =
    IsEntryName name
    × (contains unmarked name ≡ false)
    × (contains produced name ≡ false)
    × (contains marked_sources name ≡ false)

abbrev pub AreFree : List Text → List Text → List Text → List Text → Type 0
AreFree unmarked marked_sources produced [] = Unit
AreFree unmarked marked_sources produced (name ∷ names) =
    IsFree unmarked marked_sources produced name
    × AreFree unmarked marked_sources (name ∷ produced) names
