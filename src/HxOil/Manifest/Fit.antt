-- ===== src/HxOil/Manifest/Fit.antt =====
-- Manifest documents that their text keeps.
use onix_core.Base.{ℕ, ◌+◌, true, false, Option, none, some, List, [], ◌∷◌, ◌≡◌, any, list_eq, ℕ-eq}
use onix_core.Base.Text.{Text, codes, starts_with, strip_prefix}
use onix_core.Base.Text.Lines.{is_break}
use onix_core.HxOil.Manifest.{
  ManifestLine, blank, comment, entry, subdir_start, subdir_end, ManifestDocument,
}
use onix_core.HxOil.Manifest.Names.{IsEntryName}
use onix_core.HxOil.Manifest.Document.{subdir_marker, end_marker, scope_of}

-- One line.
abbrev pub IsUnbroken : Text → Type 0
IsUnbroken s = any is_break s ≡ false

-- A comment that is no marker.
pub record IsComment (text : Text) : Type 0 where
  pub hash_sign : starts_with text (codes "#") ≡ true
  pub no_start : strip_prefix text subdir_marker ≡ none
  pub no_end : strip_prefix text end_marker ≡ none
  pub whole : IsUnbroken text

-- The line may stand at line `n` in this block: an entry has the block for a scope and a name that a
-- manifest can hold, and a block starts outside every block and ends where it started.
abbrev pub Fit : ℕ → Option Text → ManifestLine → Type 0
Fit n current (blank m) = m ≡ n
Fit n current (comment text m) = (m ≡ n) × IsComment text
Fit n current (entry e) =
    (e.line_number ≡ n)
    × (e.scope ≡ scope_of current)
    × IsEntryName e.relative_path
    × IsUnbroken e.relative_path
Fit n current (subdir_start name m) = (m ≡ n) × (current ≡ none) × IsUnbroken name
Fit n current (subdir_end name m) = (m ≡ n) × (current ≡ some name) × IsUnbroken name

-- The block behind the line.
abbrev pub after : Option Text → ManifestLine → Option Text
after current (subdir_start name m) = some name
after current (subdir_end name m) = none
after current _ = current

-- The lines are numbered from `n`, each fits, and no block is left open.
abbrev pub Fits : ℕ → Option Text → List ManifestLine → Type 0
Fits n current [] = current ≡ none
Fits n current (l ∷ ls) = Fit n current l × Fits (n + 1) (after current l) ls

pub record IsDocument (document : ManifestDocument) : Type 0 where
  pub base_whole : IsUnbroken document.base
  pub lines_fit : Fits 3 none document.lines
