-- ===== src/HxOil/Manifest/Lines.antt =====
-- Reading back one line of a manifest document.
use onix_core.Base.{
  ℕ, true, false, Option, none, some, [], ◌∷◌, ◌++◌, ◌≡◌, refl, sym, ◌∙◌, subst, is_nil, arith,
  list_eq, ℕ-eq, not-ne_of_eq,
}
use onix_core.Base.Results.{ok}
use onix_core.Base.Text.{Text, codes, starts_with, strip_prefix, trim, is_whitespace}
use onix_core.Base.Text.Lines.{is_break}
use onix_core.Base.Text.Blank.{is_nil-trim, strip_prefix-append}
use onix_core.HxOil.Types.{render_path, ManifestEntry}
use onix_core.HxOil.Manifest.{ManifestLine, blank, comment, entry, subdir_start, subdir_end}
use onix_core.HxOil.Manifest.Names.{IsEntryName}
use onix_core.HxOil.Manifest.Document.{
  subdir_marker, end_marker, render_manifest_entry, render_line, scope_of, parse_plain_line,
  parse_line,
}
use onix_core.HxOil.Manifest.Fit.{IsUnbroken, IsComment, Fit, after}
use onix_core.HxOil.Manifest.Entries.{
  parse_entry-render, entry_not_blank, entry_no_marker, entry-IsUnbroken,
}

parse_line-plain :
    (n : ℕ) (current : Option Text) (line : Text) (l : ManifestLine)
    → strip_prefix line subdir_marker ≡ none
    → strip_prefix line end_marker ≡ none
    → parse_plain_line n current line ≡ ok l
    → parse_line n current line ≡ ok (l, current)
unfolding parse_line
parse_line-plain n current line l a b h = rw (a, parse_line, b, h) refl

-- The entry's line, parsed in the block of the entry.
parse_plain_line-entry :
    (current : Option Text) (e : ManifestEntry)
    → e.scope ≡ scope_of current
    → IsEntryName e.relative_path
    → parse_plain_line e.line_number current (render_manifest_entry e) ≡ ok (entry e)
unfolding parse_plain_line render_manifest_entry
parse_plain_line-entry current e inside v =
    rw
      (
        entry_not_blank e v,
        (entry_no_marker e.scope e.mark (render_path e.kind e.relative_path) []).1,
        ← inside,
        parse_entry-render e v,
      )
      refl

parse_line-entry :
    (n : ℕ) (current : Option Text) (e : ManifestEntry)
    → e.line_number ≡ n
    → e.scope ≡ scope_of current
    → IsEntryName e.relative_path
    → parse_line n current (render_manifest_entry e) ≡ ok (entry e, current)
unfolding render_manifest_entry
parse_line-entry n current e at inside v =
    let marker_free = entry_no_marker e.scope e.mark (render_path e.kind e.relative_path) in
    parse_line-plain n current (render_manifest_entry e) (entry e) (marker_free _).0
      (marker_free _).0
      (subst (λ m. parse_plain_line m current (render_manifest_entry e) ≡ ok (entry e)) at
        (parse_plain_line-entry current e inside v))

hash_not_blank : (text : Text) → starts_with text (codes "#") ≡ true → is_nil (trim text) ≡ false
unfolding starts_with is_whitespace
hash_not_blank [] h = cc
hash_not_blank (c ∷ s) h = is_nil-trim (c ∷ s) ∙ ground arith

parse_line-comment :
    (n : ℕ) (current : Option Text) (text : Text)
    → IsComment text
    → parse_line n current text ≡ ok (comment text n, current)
unfolding parse_plain_line
parse_line-comment n current text c =
    parse_line-plain n current text (comment text n) c.no_start c.no_end
      (rw (hash_not_blank text c.hash_sign, c.hash_sign) refl)

parse_line-blank : (n : ℕ) (current : Option Text) → parse_line n current [] ≡ ok (blank n, current)
unfolding parse_line parse_plain_line trim strip_prefix
parse_line-blank n current = refl

parse_line-start :
    (n : ℕ) (name : Text)
    → parse_line n none (subdir_marker ++ name) ≡ ok (subdir_start name n, some name)
unfolding parse_line
parse_line-start n name = rw (strip_prefix-append subdir_marker name, parse_line) refl

parse_line-end :
    (n : ℕ) (name : Text)
    → parse_line n (some name) (end_marker ++ name) ≡ ok (subdir_end name n, none)
unfolding parse_line strip_prefix
parse_line-end n name = rw (not-ne_of_eq {a = name} refl) refl

-- The line that `l` renders to, parsed where `l` fits.
pub parse_line-render_line :
    (n : ℕ) (current : Option Text) (l : ManifestLine)
    → Fit n current l
    → parse_line n current (render_line l) ≡ ok (l, after current l)
unfolding render_line
parse_line-render_line n current (blank m) at =
    subst (λ k. parse_line n current [] ≡ ok (blank k, current)) (sym at)
      (parse_line-blank n current)
parse_line-render_line n current (comment text m) (at, c) =
    subst (λ k. parse_line n current text ≡ ok (comment text k, current)) (sym at)
      (parse_line-comment n current text c)
parse_line-render_line n current (entry e) (at, inside, v, w) =
    parse_line-entry n current e at inside v
parse_line-render_line n current (subdir_start name m) (at, closed, w) = rw (closed) (
    subst (λ k. parse_line n none (subdir_marker ++ name) ≡ ok (subdir_start name k, some name))
      (sym at) (parse_line-start n name))
parse_line-render_line n current (subdir_end name m) (at, opened, w) = rw (opened) (
    subst (λ k. parse_line n (some name) (end_marker ++ name) ≡ ok (subdir_end name k, none))
      (sym at) (parse_line-end n name))

pub render_line-IsUnbroken :
    (n : ℕ) (current : Option Text) (l : ManifestLine)
    → Fit n current l
    → IsUnbroken (render_line l)
unfolding render_line is_break
render_line-IsUnbroken n current (blank m) f = refl
render_line-IsUnbroken n current (comment text m) f = f.1.whole
render_line-IsUnbroken n current (entry e) (at, inside, v, w) = entry-IsUnbroken e w
render_line-IsUnbroken n current (subdir_start name m) (at, closed, w) = w
render_line-IsUnbroken n current (subdir_end name m) (at, opened, w) = w
