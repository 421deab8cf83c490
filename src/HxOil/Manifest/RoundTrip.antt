-- ===== src/HxOil/Manifest/RoundTrip.antt =====
-- Reading back a manifest document that was rendered.
use onix_core.Base.{
  ℕ, ◌+◌, Option, none, List, [], ◌∷◌, ◌++◌, map, ◌≡◌, refl, ap, ◌∙◌, All, list_eq, ℕ-eq, ==_refl,
}
use onix_core.Base.Results.{ok}
use onix_core.Base.Text.{Text, strip_prefix}
use onix_core.Base.Text.Lines.{is_break, lines-unlines}
use onix_core.HxOil.Manifest.{ManifestLine, ManifestDocument}
use onix_core.HxOil.Manifest.Document.{
  root_header, notice, render_line, render_manifest_document, parse_lines, parse_body,
  parse_document_lines, parse_manifest_document,
}
use onix_core.HxOil.Manifest.Fit.{IsUnbroken, after, Fits, IsDocument}
use onix_core.HxOil.Manifest.Lines.{parse_line-render_line, render_line-IsUnbroken}

parse_lines-render :
    (n : ℕ) (current : Option Text) (ls : List ManifestLine)
    → Fits n current ls
    → parse_lines n current (map render_line ls) ≡ ok ls
unfolding parse_lines
parse_lines-render n current [] f = rw f refl
parse_lines-render n current (l ∷ ls) (f, fs) =
    rw (parse_line-render_line n current l f, parse_lines-render (n + 1) (after current l) ls fs)
      refl

rendered-IsUnbroken :
    (n : ℕ) (current : Option Text) (ls : List ManifestLine)
    → Fits n current ls
    → All IsUnbroken (map render_line ls)
rendered-IsUnbroken n current [] f = tt
rendered-IsUnbroken n current (l ∷ ls) (f, fs) =
    (render_line-IsUnbroken n current l f, rendered-IsUnbroken (n + 1) (after current l) ls fs)

header-IsUnbroken : (base : Text) → IsUnbroken base → IsUnbroken (root_header ++ base)
unfolding is_break
header-IsUnbroken base h = h

notice-IsUnbroken : IsUnbroken notice
unfolding is_break
notice-IsUnbroken = refl

parse_body-render :
    (ls : List ManifestLine) → Fits 3 none ls → parse_body (notice ∷ map render_line ls) ≡ ok ls
unfolding parse_body
parse_body-render ls f = rw (==_refl notice) (parse_lines-render 3 none ls f)

parse_document_lines-render :
    (document : ManifestDocument)
    → IsDocument document
    → parse_document_lines
        ((root_header ++ document.base) ∷ notice ∷ map render_line document.lines)
      ≡ ok document
unfolding parse_document_lines strip_prefix
parse_document_lines-render document d = rw (parse_body-render document.lines d.lines_fit) refl

-- A document is read back as it was from the text that it renders to, if its root and the names of
-- its blocks have no line break, its lines are numbered from 3, blocks open and close in turn, each
-- entry is in the scope of its block and has a name that a manifest can hold with no line break, and
-- a comment starts with a number sign and is no marker.
pub parse_manifest_document-render_manifest_document :
    (document : ManifestDocument)
    → IsDocument document
    → parse_manifest_document (render_manifest_document document) ≡ ok document
unfolding parse_manifest_document render_manifest_document
parse_manifest_document-render_manifest_document document d =
    ap parse_document_lines (
      lines-unlines ((root_header ++ document.base) ∷ notice ∷ map render_line document.lines) (
        header-IsUnbroken document.base d.base_whole,
        (notice-IsUnbroken, rendered-IsUnbroken 3 none document.lines d.lines_fit),
      ))
    ∙ parse_document_lines-render document d
