-- ===== src/HxOil/Manifest/Entries.antt =====
-- Reading back the line of an entry.
use mathlib.Core.List.{reverse, reverse-append, reverse-reverse}
use onix_core.Base.{
  ℕ, Bool, false, none, some, [], ◌∷◌, ◌++◌, ◌≡◌, refl, ap, ◌∙◌, any, all, is_nil, arith, ◌==◌,
  list_eq, ℕ-eq,
}
use onix_core.Base.Results.{ok}
use onix_core.Base.Text.{Text, codes, starts_with, strip_prefix, trim, is_whitespace}
use onix_core.Base.Text.Lines.{is_break, any-append}
use onix_core.Base.Text.Blank.{all-append, is_nil-trim, trimmed_not_blank}
use onix_core.HxOil.Types.{
  EntryKind, file, directory, render_path, EntryMark, unmarked, marked, delete_flagged, prefix,
  EntryScope, root, subdir, ManifestEntry,
}
use onix_core.HxOil.Manifest.{has_slash}
use onix_core.HxOil.Manifest.Names.{IsEntryName, any-reverse}
use onix_core.HxOil.Manifest.Document.{
  indent, render_manifest_entry, strip_first_slash, strip_slash, strip_indent, parse_mark,
  parse_path, parse_manifest_entry_line,
}
use onix_core.HxOil.Manifest.Fit.{IsUnbroken}

IsUnbroken-append : (a b : Text) → IsUnbroken a → IsUnbroken b → IsUnbroken (a ++ b)
IsUnbroken-append a b p q = any-append is_break a b ∙ ground arith

strip_slash-directory : (name : Text) → strip_slash (name ++ codes "/") ≡ some name
unfolding strip_slash
strip_slash-directory name = rw (reverse-append name (codes "/")) (ap some (reverse-reverse name))

strip_first_slash-none : (s : Text) → any (λ c. c == b'/') s ≡ false → strip_first_slash s ≡ none
unfolding ℕ-eq
strip_first_slash-none [] h = refl
strip_first_slash-none (c ∷ s) h = ground arith

strip_slash-file : (name : Text) → has_slash name ≡ false → strip_slash name ≡ none
unfolding strip_slash has_slash
strip_slash-file name h =
    strip_first_slash-none (reverse name) (any-reverse (λ c. c == b'/') name ∙ h)

parse_path-render_path :
    (name : Text) (kind : EntryKind)
    → IsEntryName name
    → parse_path (render_path kind name) ≡ (name, kind)
unfolding parse_path render_path
parse_path-render_path name file v = rw (parse_path, strip_slash-file name v.flat) refl
parse_path-render_path name directory v = rw (parse_path, strip_slash-directory name) refl

parse_mark-prefix :
    (mark : EntryMark) (rest : Text) → parse_mark (prefix mark ++ rest) ≡ (mark, rest)
unfolding parse_mark prefix strip_prefix
parse_mark-prefix unmarked rest = refl
parse_mark-prefix marked rest = refl
parse_mark-prefix delete_flagged rest = refl

strip_indent-indent :
    (n : ℕ) (scope : EntryScope) (rest : Text)
    → strip_indent n scope (indent scope ++ rest) ≡ ok rest
unfolding strip_indent
strip_indent-indent n root rest = refl
strip_indent-indent n (subdir path) rest = refl

pub parse_entry-render :
    (e : ManifestEntry)
    → IsEntryName e.relative_path
    → parse_manifest_entry_line e.line_number (render_manifest_entry e) e.scope ≡ ok e
unfolding parse_manifest_entry_line render_manifest_entry
parse_entry-render e v =
    rw
      (
        strip_indent-indent e.line_number e.scope
            (prefix e.mark ++ render_path e.kind e.relative_path),
        parse_mark-prefix e.mark (render_path e.kind e.relative_path),
        parse_path-render_path e.relative_path e.kind v,
      )
      refl

all-false-after : (p : ℕ → Bool) (xs ys : Text) → all p ys ≡ false → all p (xs ++ ys) ≡ false
all-false-after p xs ys h = all-append p xs ys ∙ ground arith

all-false-before : (p : ℕ → Bool) (xs ys : Text) → all p xs ≡ false → all p (xs ++ ys) ≡ false
all-false-before p xs ys h = all-append p xs ys ∙ ground arith

path_not_blank :
    (name : Text) (kind : EntryKind)
    → IsEntryName name
    → all is_whitespace (render_path kind name) ≡ false
unfolding render_path
path_not_blank name file v = trimmed_not_blank name v.not_empty v.trimmed
path_not_blank name directory v =
    all-false-before is_whitespace name (codes "/") (trimmed_not_blank name v.not_empty v.trimmed)

pub entry_not_blank :
    (e : ManifestEntry)
    → IsEntryName e.relative_path
    → is_nil (trim (render_manifest_entry e)) ≡ false
unfolding render_manifest_entry
entry_not_blank e v =
    is_nil-trim (render_manifest_entry e)
    ∙ all-false-after is_whitespace (indent e.scope)
        (prefix e.mark ++ render_path e.kind e.relative_path)
        (all-false-after is_whitespace (prefix e.mark) (render_path e.kind e.relative_path)
          (path_not_blank e.relative_path e.kind v))

indent-IsUnbroken : (scope : EntryScope) → IsUnbroken (indent scope)
unfolding is_break
indent-IsUnbroken root = refl
indent-IsUnbroken (subdir path) = refl

prefix-IsUnbroken : (mark : EntryMark) → IsUnbroken (prefix mark)
unfolding is_break prefix
prefix-IsUnbroken unmarked = refl
prefix-IsUnbroken marked = refl
prefix-IsUnbroken delete_flagged = refl

slash-IsUnbroken : IsUnbroken (codes "/")
unfolding is_break
slash-IsUnbroken = refl

path-IsUnbroken :
    (kind : EntryKind) (name : Text) → IsUnbroken name → IsUnbroken (render_path kind name)
unfolding render_path
path-IsUnbroken file name h = h
path-IsUnbroken directory name h = IsUnbroken-append name (codes "/") h slash-IsUnbroken

-- Marks and indents start with no number sign.
pub entry_no_marker :
    (scope : EntryScope) (mark : EntryMark) (path p : Text)
    → (strip_prefix (indent scope ++ (prefix mark ++ path)) (b'#' ∷ p) ≡ none)
      × (starts_with (indent scope ++ (prefix mark ++ path)) (codes "#") ≡ false)
unfolding strip_prefix starts_with prefix
entry_no_marker root unmarked path p = (refl, refl)
entry_no_marker root marked path p = (refl, refl)
entry_no_marker root delete_flagged path p = (refl, refl)
entry_no_marker (subdir name) mark path p = (refl, refl)

pub entry-IsUnbroken :
    (e : ManifestEntry) → IsUnbroken e.relative_path → IsUnbroken (render_manifest_entry e)
unfolding render_manifest_entry
entry-IsUnbroken e h = IsUnbroken-append (indent e.scope) _ (indent-IsUnbroken e.scope) (
    IsUnbroken-append (prefix e.mark) _ (prefix-IsUnbroken e.mark)
      (path-IsUnbroken e.kind e.relative_path h))
