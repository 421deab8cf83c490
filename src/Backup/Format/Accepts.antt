-- ===== src/Backup/Format/Accepts.antt =====
-- Ascending records make a manifest that the format check accepts.
use onix_core.Base.{
  true, false, Option, none, some, List, [], ◌∷◌, map, ◌≡◌, refl, ap, ◌∙◌, All, any, arith, list_eq,
  ℕ-eq,
}
use onix_core.Base.Results.{Result, ok, ◌>>=◌, >>=-eq-ok}
use onix_core.Base.Text.{Text}
use onix_core.Base.Text.Lines.{is_break, lines-unlines}
use onix_core.Backup.Types.{ManifestRecord, ManifestStats, Error}
use onix_core.Backup.Paths.Order.{Before}
use onix_core.Backup.Records.{render_record}
use onix_core.Backup.Records.RoundTrip.{
  IsRecord, IsAscii, parse_record-render_record, render_record-IsAscii,
}
use onix_core.Backup.Walk.{add_record, manifest_header, render_manifest}
use onix_core.Backup.Format.{
  is_utf8, out_of_order, check_records, check_lines, validate_manifest_format,
}

-- Each record's path comes before the paths of all later ones.
abbrev pub Ascending : List ManifestRecord → Type 0
Ascending [] = Unit
Ascending (r ∷ rs) = All (λ q. Before r.relative_path q.relative_path) rs × Ascending rs

-- The statistics of records that are counted one by one.
unfoldable pub count_all : ManifestStats → List ManifestRecord → Result Error ManifestStats
count_all stats [] = ok stats
count_all stats (r ∷ rs) = add_record stats r.size >>= λ counted. count_all counted rs

ascii-is_utf8 : (s : Text) → All IsAscii s → is_utf8 s ≡ true
unfolding is_utf8
ascii-is_utf8 [] h = refl
ascii-is_utf8 (c ∷ s) h = ground (arith, ascii-is_utf8 s h.1)

ascii_unbroken : (s : Text) → All IsAscii s → any is_break s ≡ false
unfolding is_break
ascii_unbroken [] h = refl
ascii_unbroken (c ∷ s) h = ground (arith, ascii_unbroken s h.1)

-- Whether a path may follow the one before.
abbrev Follows : Option Text → List ManifestRecord → Type 0
Follows previous [] = Unit
Follows previous (r ∷ rs) = out_of_order previous r.relative_path ≡ false

Before-out_of_order : (a b : Text) → Before a b → out_of_order (some a) b ≡ false
unfolding out_of_order
Before-out_of_order a b h = rw (h, out_of_order) refl

follow :
    (r : ManifestRecord) (rs : List ManifestRecord)
    → Ascending (r ∷ rs)
    → Follows (some r.relative_path) rs
follow r [] h = tt
follow r (q ∷ rs) h = Before-out_of_order r.relative_path q.relative_path h.0.0

none-Follows : (rs : List ManifestRecord) → Follows none rs
unfolding out_of_order
none-Follows [] = tt
none-Follows (r ∷ rs) = refl

check_records-render :
    (previous : Option Text) (stats counted : ManifestStats) (rs : List ManifestRecord)
    → All IsRecord rs
    → Ascending rs
    → Follows previous rs
    → count_all stats rs ≡ ok counted
    → check_records previous stats (map render_record rs) ≡ ok counted
unfolding check_records count_all
check_records-render previous stats counted [] v a f h = h
check_records-render previous stats counted (r ∷ rs) v a f h =
    let (next, added, h') = >>=-eq-ok (add_record stats r.size) _ h in
    rw
      (
        ascii-is_utf8 (render_record r) (render_record-IsAscii r v.0),
        parse_record-render_record r v.0,
        f,
        added,
      )
      (check_records-render (some r.relative_path) next counted rs v.1 a.1 (follow r rs a) h')

rendered_unbroken :
    (rs : List ManifestRecord)
    → All IsRecord rs
    → All (λ l. any is_break l ≡ false) (map render_record rs)
rendered_unbroken [] v = tt
rendered_unbroken (r ∷ rs) v =
    (ascii_unbroken (render_record r) (render_record-IsAscii r v.0), rendered_unbroken rs v.1)

check_lines-render :
    (rs : List ManifestRecord) (counted : ManifestStats)
    → All IsRecord rs
    → Ascending rs
    → count_all (record { records = 0; bytes = 0 }) rs ≡ ok counted
    → check_lines (manifest_header ∷ map render_record rs) ≡ ok counted
unfolding check_lines is_utf8 list_eq ℕ-eq
check_lines-render rs counted v a h = check_records-render none _ counted rs v a (none-Follows rs) h

header_unbroken : any is_break manifest_header ≡ false
unfolding is_break
header_unbroken = refl

-- A manifest of ascending records passes the format check with the statistics of its records.
pub validate_manifest_format-render_manifest :
    (rs : List ManifestRecord) (counted : ManifestStats)
    → All IsRecord rs
    → Ascending rs
    → count_all (record { records = 0; bytes = 0 }) rs ≡ ok counted
    → validate_manifest_format (render_manifest rs) ≡ ok counted
unfolding validate_manifest_format render_manifest
validate_manifest_format-render_manifest rs counted v a h =
    ap check_lines (
      lines-unlines (manifest_header ∷ map render_record rs)
        (header_unbroken, rendered_unbroken rs v))
    ∙ check_lines-render rs counted v a h
