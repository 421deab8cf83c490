-- ===== src/HxOil/Manifest/Document.antt =====
-- The text of a manifest document: `render_manifest_document` and `parse_manifest_document`.
use mathlib.Core.List.{reverse}
use onix_core.Base.{
  ℕ, ◌+◌, Option, none, some, List, [], ◌∷◌, ◌++◌, map, is_nil, nat_eq, ◌==◌, ◌!=◌, list_eq, ℕ-eq,
  if◌then◌else◌,
}
use onix_core.Base.Results.{Result, ok, err, ◌>>=◌, ◌>>◌, reject, ok_or}
use onix_core.Base.Text.{Text, codes, starts_with, strip_prefix, trim, lines}
use onix_core.Base.Text.Lines.{unlines}
use onix_core.HxOil.Types.{
  EntryKind, file, directory, render_path, EntryMark, unmarked, marked, delete_flagged, prefix,
  EntryScope, root, subdir, ManifestEntry, Error, missing_root, nested_subdir, unexpected_end,
  mismatched_end, missing_indent, unterminated_subdir,
}
use onix_core.HxOil.Manifest.{
  ManifestLine, blank, comment, entry, subdir_start, subdir_end, ManifestDocument,
}

abbrev pub subdir_indent : Text
subdir_indent = codes "    "

abbrev pub root_header : Text
root_header = codes "# hx-oil root: "

abbrev pub notice : Text
notice = codes "# blank lines and comment lines are ignored"

abbrev pub subdir_marker : Text
subdir_marker = codes "# hx-oil subdir: "

abbrev pub end_marker : Text
end_marker = codes "# hx-oil end-subdir: "

abbrev pub indent : EntryScope → Text
indent root = []
indent (subdir path) = subdir_indent

unfoldable pub render_manifest_entry : ManifestEntry → Text
unfolding prefix render_path
render_manifest_entry e = indent e.scope ++ (prefix e.mark ++ render_path e.kind e.relative_path)

-- A line without its line feed.
unfoldable pub render_line : ManifestLine → Text
unfolding render_manifest_entry
render_line (blank n) = []
render_line (comment text n) = text
render_line (entry e) = render_manifest_entry e
render_line (subdir_start name n) = subdir_marker ++ name
render_line (subdir_end name n) = end_marker ++ name

unfoldable pub render_manifest_document : ManifestDocument → Text
unfolding unlines render_line
render_manifest_document document =
    unlines ((root_header ++ document.base) ∷ notice ∷ map render_line document.lines)

-- `str::strip_suffix` with a slash.
abbrev pub strip_first_slash : Text → Option Text
strip_first_slash [] = none
strip_first_slash (c ∷ s) = if nat_eq c b'/' then some (reverse s) else none

unfoldable pub strip_slash : Text → Option Text
strip_slash s = strip_first_slash (reverse s)

-- The payload behind the indent that the scope asks for.
unfoldable pub strip_indent : ℕ → EntryScope → Text → Result Error Text
unfolding strip_prefix
strip_indent n root line = ok line
strip_indent n (subdir path) line = ok_or (strip_prefix line subdir_indent) (missing_indent n)

unfoldable pub parse_mark : Text → EntryMark × Text
unfolding strip_prefix
parse_mark payload = elim (strip_prefix payload (codes "* ")) [
  | some rest ↦ (marked, rest)
  | none ↦ elim (strip_prefix payload (codes "D ")) [
    | some rest ↦ (delete_flagged, rest)
    | none ↦ elim (strip_prefix payload (codes "  ")) [
      | some rest ↦ (unmarked, rest)
      | none ↦ (unmarked, payload)
    ]
  ]
]

unfoldable pub parse_path : Text → Text × EntryKind
unfolding strip_slash
parse_path rest = elim (strip_slash rest) [ some path ↦ (path, directory) | none ↦ (rest, file) ]

unfoldable pub parse_manifest_entry_line : ℕ → Text → EntryScope → Result Error ManifestEntry
unfolding strip_indent parse_mark parse_path
parse_manifest_entry_line n line scope = do
  payload ← strip_indent n scope line
  let (mark, rest) = parse_mark payload
  let (path, kind) = parse_path rest
  ok (record { relative_path = path; kind = kind; line_number = n; mark = mark; scope = scope })

abbrev pub scope_of : Option Text → EntryScope
scope_of none = root
scope_of (some path) = subdir path

-- A line that starts a block, given what follows the marker.
abbrev start_block : ℕ → Option Text → Text → Result Error (ManifestLine × Option Text)
start_block n none name = ok (subdir_start name n, some name)
start_block n (some current) name = err nested_subdir

abbrev end_block : ℕ → Option Text → Text → Result Error (ManifestLine × Option Text)
end_block n none name = err (unexpected_end n)
end_block n (some current) name =
    reject (current != name) (mismatched_end n name) >> ok (subdir_end name n, none)

-- A line that is no marker.
unfoldable pub parse_plain_line : ℕ → Option Text → Text → Result Error ManifestLine
unfolding trim starts_with parse_manifest_entry_line
parse_plain_line n current line =
    if is_nil (trim line)
    then ok (blank n)
    else if starts_with line (codes "#")
    then ok (comment line n)
    else (parse_manifest_entry_line n line (scope_of current) >>= λ e. ok (entry e))

-- One round of the loop: the line, and the block after it.
unfoldable pub parse_line : ℕ → Option Text → Text → Result Error (ManifestLine × Option Text)
unfolding parse_plain_line
parse_line n current line = elim (strip_prefix line subdir_marker) [
  | some name ↦ start_block n current name
  | none ↦ elim (strip_prefix line end_marker) [
    | some name ↦ end_block n current name
    | none ↦ parse_plain_line n current line >>= λ l. ok (l, current)
  ]
]

abbrev close : Option Text → Result Error (List ManifestLine)
close none = ok []
close (some path) = err unterminated_subdir

unfoldable pub parse_lines : ℕ → Option Text → List Text → Result Error (List ManifestLine)
unfolding parse_line
parse_lines n current [] = close current
parse_lines n current (line ∷ others) = do
  first ← parse_line n current line
  rest ← parse_lines (n + 1) first.1 others
  ok (first.0 ∷ rest)

-- The second line may be the notice.
unfoldable pub parse_body : List Text → Result Error (List ManifestLine)
unfolding parse_lines
parse_body [] = ok []
parse_body (line ∷ others) =
    if line == notice then parse_lines 3 none others else parse_lines 2 none (line ∷ others)

unfoldable pub parse_document_lines : List Text → Result Error ManifestDocument
unfolding strip_prefix parse_body
parse_document_lines [] = err missing_root
parse_document_lines (header ∷ others) = do
  base ← ok_or (strip_prefix header root_header) missing_root
  body ← parse_body others
  ok (record { base = base; lines = body })

unfoldable pub parse_manifest_document : Text → Result Error ManifestDocument
unfolding lines parse_document_lines
parse_manifest_document text = parse_document_lines (lines text)
