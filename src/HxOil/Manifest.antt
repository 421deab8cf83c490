-- ===== src/HxOil/Manifest.antt =====
-- The manifest document of `pkgs/hx-oil/src/lib.rs` and the validation of its entries.
pub mod Names
pub mod Document
pub mod Fit
pub mod Entries
pub mod Lines
pub mod RoundTrip
use onix_core.Base.{
  ℕ, Bool, true, false, List, [], ◌∷◌, not, ◌&&◌, ◌||◌, any, is_nil, ◌==◌, ◌!=◌, list_eq, ℕ-eq,
}
use onix_core.Base.Results.{Result, ok, err, ◌>>=◌, ◌>>◌, reject}
use onix_core.Base.Text.{Text, codes, starts_with, ends_with, trim}
use onix_core.HxOil.Types.{
  EntryKind, file, directory, kind_eq, EntryScope, scope_eq, ManifestEntry, Error, empty_entry,
  surrounding_whitespace, nested_path, dot_entry, comment_name, repeated_marker, duplicate_target,
  render_path, actual_relative_path,
}

pub data ManifestLine : Type 0 where
  blank : ℕ → ManifestLine
  comment : Text → ℕ → ManifestLine
  entry : ManifestEntry → ManifestLine
  subdir_start : Text → ℕ → ManifestLine
  subdir_end : Text → ℕ → ManifestLine

pub record ManifestDocument : Type 0 where
  pub base : Text
  pub lines : List ManifestLine

line_entries : List ManifestLine → List ManifestEntry
line_entries [] = []
line_entries (entry e ∷ lines) = e ∷ line_entries lines
line_entries (_ ∷ lines) = line_entries lines

unfoldable pub entries : ManifestDocument → List ManifestEntry
unfolding line_entries
entries document = line_entries document.lines

-- `!name.contains('/')`
unfoldable pub has_slash : Text → Bool
has_slash name = any (λ c. c == b'/') name

-- The early returns of `validate_entry_name`, in the source's order.
unfoldable pub validate_entry_name : Text → EntryKind → ℕ → Result Error (Unit {0})
validate_entry_name name kind line_number = do
  reject (is_nil name) (empty_entry line_number)
  reject (name != trim name) (surrounding_whitespace line_number)
  reject (has_slash name) (nested_path line_number)
  reject (name == codes "." || name == codes "..") (dot_entry line_number)
  reject (starts_with name (codes "#")) (comment_name line_number)
  reject (kind == directory && ends_with name (codes "/")) (repeated_marker line_number)

-- The members of `seen` with the same scope and name.
unfoldable pub same_target : ManifestEntry → ManifestEntry → Bool
same_target a b = a.scope == b.scope && a.relative_path == b.relative_path

-- The loop of `validate_document_entries`, with the entries seen.
unfoldable pub validate_entries : List ManifestEntry → List ManifestEntry → Result Error (Unit {0})
unfolding validate_entry_name same_target
validate_entries seen [] = ok tt
validate_entries seen (e ∷ others) = do
  validate_entry_name e.relative_path e.kind e.line_number
  reject (any (λ s. same_target s e) seen)
      (duplicate_target (render_path e.kind (actual_relative_path e.scope e.relative_path)))
  validate_entries (e ∷ seen) others

unfoldable pub validate_document_entries : ManifestDocument → Result Error (Unit {0})
unfolding entries validate_entries
validate_document_entries document = validate_entries [] (entries document)
