-- ===== src/HxOil/Transform/Run.antt =====
-- Executing a transform plan: every entry moves to its new name, and all others stay.
use onix_core.Base.{
  Bool, false, none, some, List, [], ◌∷◌, ◌||◌, ◌≡◌, refl, sym, ◌∙◌, All, arith, ◌==◌, list_eq,
  ℕ-eq, if◌then◌else◌, ==_refl,
}
use onix_core.Base.Results.{ok}
use onix_core.Base.Text.{Text}
use onix_core.HxOil.Types.{text_iff}
use onix_core.HxOil.Directory.{Directory, Node, find, erase, rename_entry}
use onix_core.HxOil.Directory.Laws.{find-erase}
use onix_core.HxOil.Transform.{TransformItem, execute_transform_plan}

-- No name of the one item is a name of the other.
abbrev pub AreApart : TransformItem → TransformItem → Type 0
AreApart i j =
    ((i.from == j.from) ≡ false)
    × ((i.from == j.to) ≡ false)
    × ((i.to == j.from) ≡ false)
    × ((i.to == j.to) ≡ false)

-- The items can run one after the other: each old name is there, no new name is, and no two of all
-- these names are equal.
abbrev pub IsRunnable : Directory → List TransformItem → Type 0
IsRunnable dir [] = Unit
IsRunnable dir (i ∷ is) =
    ((node : Node) × (find i.from dir ≡ some node))
    × (find i.to dir ≡ none)
    × ((i.from == i.to) ≡ false)
    × All (AreApart i) is
    × IsRunnable dir is

-- Whether the items speak of the name.
unfoldable pub mentions : Text → List TransformItem → Bool
mentions n [] = false
mentions n (i ∷ is) = i.from == n || i.to == n || mentions n is

module _ (dir : Directory) (i : TransformItem) (node : Node) where
  abbrev pub moved : Directory
  moved = (i.to, node) ∷ erase i.from dir

  rename_entry-moved :
      find i.from dir ≡ some node
      → find i.to dir ≡ none
      → (i.from == i.to) ≡ false
      → rename_entry i.from i.to dir ≡ ok moved
  unfolding rename_entry
  rename_entry-moved p q r = rw (p, rename_entry, r, q) refl

  find-moved :
      (n : Text)
      → find n moved ≡ (if i.to == n then some node else (if i.from == n then none else find n dir))
  unfolding find
  find-moved n = ground (arith, find-erase n i.from dir)

  IsRunnable-moved :
      (is : List TransformItem) → All (AreApart i) is → IsRunnable dir is → IsRunnable moved is
  IsRunnable-moved [] a r = tt
  IsRunnable-moved (j ∷ is) ((a, b, c, d), rest) (found, free, apart, others, r) = (
    (found.0, rw (find-moved j.from, c, a) found.1),
    rw (find-moved j.to, d, b) free,
    apart,
    others,
    IsRunnable-moved is rest r,
  )

unmentioned :
    (n : Text) (i : TransformItem) (is : List TransformItem)
    → mentions n (i ∷ is) ≡ false
    → ((i.from == n) ≡ false) × ((i.to == n) ≡ false) × (mentions n is ≡ false)
unfolding mentions
unmentioned n i is h = (ground arith, ground arith, ground arith)

-- No later item speaks of the names of an earlier one.
apart_from :
    (i : TransformItem) (is : List TransformItem)
    → All (AreApart i) is
    → (mentions i.from is ≡ false) × (mentions i.to is ≡ false)
unfolding mentions
apart_from i [] a = (refl, refl)
apart_from i (j ∷ is) ((a, b, c, d), rest) =
    let later = apart_from i is rest in
    (
      ground (
        arith,
        text_iff i.from j.from,
        text_iff j.from i.from,
        text_iff i.from j.to,
        text_iff j.to i.from,
      ),
      ground (
        arith,
        text_iff i.to j.from,
        text_iff j.from i.to,
        text_iff i.to j.to,
        text_iff j.to i.to,
      ),
    )

abbrev pub Done : Directory → List TransformItem → Directory → Type 0
Done dir is dir' =
    All (λ (i : TransformItem). (find i.to dir' ≡ find i.from dir) × (find i.from dir' ≡ none)) is
    × ((n : Text) → mentions n is ≡ false → find n dir' ≡ find n dir)

carry :
    (dir : Directory) (i : TransformItem) (node : Node) (is : List TransformItem) (dir' : Directory)
    → All (AreApart i) is
    → All
        (λ (j : TransformItem).
          (find j.to dir' ≡ find j.from ((i.to, node) ∷ erase i.from dir))
          × (find j.from dir' ≡ none))
        is
    → All (λ (j : TransformItem). (find j.to dir' ≡ find j.from dir) × (find j.from dir' ≡ none)) is
carry dir i node [] dir' a m = tt
carry dir i node (j ∷ is) dir' ((a, b, c, d), rest) ((moves, gone), ms) = (
  (moves ∙ (find-moved dir i node j.from ∙ rw (c, a) refl), gone),
  carry dir i node is dir' rest ms,
)

-- Where each old name is in the directory, no new name is, and all these names differ,
-- `execute_transform_plan` succeeds, finds under each new name what was under the old one, nothing
-- under the old one, and under every other name what was there before.
pub execute_transform_plan-Done :
    (dir : Directory) (is : List TransformItem)
    → IsRunnable dir is
    → (dir' : Directory) × (execute_transform_plan is dir ≡ ok dir') × Done dir is dir'
unfolding execute_transform_plan
execute_transform_plan-Done dir [] r = (dir, refl, (tt, λ n h. refl))
execute_transform_plan-Done dir (i ∷ is) ((node, there), free, apart, others, r) =
    let (dir', runs, (moves, stays)) =
      execute_transform_plan-Done (moved dir i node) is (IsRunnable-moved dir i node is others r) in
    let (from_apart, to_apart) = apart_from i is others in
    let back : (i.to == i.from) ≡ false =
      ground (arith, text_iff i.from i.to, text_iff i.to i.from) in
    (
      dir',
      rw (rename_entry-moved dir i node there free apart) runs,
      (
        (
          (
            stays i.to to_apart ∙ (find-moved dir i node i.to ∙ rw (==_refl i.to) (sym there)),
            stays i.from from_apart
                ∙ (find-moved dir i node i.from ∙ rw (back, ==_refl i.from) refl),
          ),
          carry dir i node is dir' others moves,
        ),
        λ n h.
            let (a, b, c) = unmentioned n i is h in
            stays n c ∙ (find-moved dir i node n ∙ rw (b, a) refl),
      ),
    )
