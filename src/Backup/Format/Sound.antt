-- ===== src/Backup/Format/Sound.antt =====
-- What a manifest must be like for the format check to accept it.
use onix_core.Base.{
  false, Option, none, some, List, [], ◌∷◌, ◌≡◌, ap, ◌∙◌, All, not, arith, eq_of_not-ne, ◌!=◌,
  list_eq, ℕ-eq,
}
use onix_core.Base.Results.{ok, ◌>>=◌, >>=-eq-ok, reject-then}
use onix_core.Base.Text.{Text, lines}
use onix_core.Backup.Types.{ManifestRecord, ManifestStats}
use onix_core.Backup.Paths.Order.{Before}
use onix_core.Backup.Records.{parse_record}
use onix_core.Backup.Records.RoundTrip.{IsRecord}
use onix_core.Backup.Records.Bounds.{parse_record-IsRecord}
use onix_core.Backup.Walk.{add_record, manifest_header}
use onix_core.Backup.Format.{
  is_utf8, out_of_order, check_records, check_lines, validate_manifest_format,
}
use onix_core.Backup.Format.Accepts.{count_all}

-- The records that the lines hold.
abbrev pub Reads : List Text → List ManifestRecord → Type 0
Reads [] [] = Unit
Reads (line ∷ ls) (r ∷ rs) = (parse_record line ≡ ok r) × Reads ls rs
Reads _ _ = ⊥

-- Each path comes before the next one.
abbrev pub Chained : Option Text → List ManifestRecord → Type 0
Chained previous [] = Unit
Chained none (r ∷ rs) = Chained (some r.relative_path) rs
Chained (some previous) (r ∷ rs) =
    Before previous r.relative_path × Chained (some r.relative_path) rs

out_of_order-Before :
    (previous path : Text) → out_of_order (some previous) path ≡ false → Before previous path
unfolding out_of_order
out_of_order-Before previous path h = ground arith

chain :
    (previous : Option Text) (r : ManifestRecord) (rs : List ManifestRecord)
    → out_of_order previous r.relative_path ≡ false
    → Chained (some r.relative_path) rs
    → Chained previous (r ∷ rs)
chain none r rs h c = c
chain (some previous) r rs h c = (out_of_order-Before previous r.relative_path h, c)

abbrev pub Sound : Option Text → ManifestStats → List Text → ManifestStats → Type 0
Sound previous stats ls counted =
    (rs : List ManifestRecord) × Reads ls rs
    × All IsRecord rs
    × Chained previous rs
    × (count_all stats rs ≡ ok counted)

check_records-Sound :
    (previous : Option Text) (stats counted : ManifestStats) (ls : List Text)
    → check_records previous stats ls ≡ ok counted
    → Sound previous stats ls counted
unfolding check_records count_all
check_records-Sound previous stats counted [] h = ([], tt, tt, tt, h)
check_records-Sound previous stats counted (line ∷ ls) h =
    let (utf8, h₁) = reject-then (not (is_utf8 line)) _ _ h in
    let (r, parsed, h₂) = >>=-eq-ok (parse_record line) _ h₁ in
    let (ordered, h₃) = reject-then (out_of_order previous r.relative_path) _ _ h₂ in
    let (next, added, h₄) = >>=-eq-ok (add_record stats r.size) _ h₃ in
    let (rs, reads, good, chained, counts) =
      check_records-Sound (some r.relative_path) next counted ls h₄ in
    (
      r ∷ rs,
      (parsed, reads),
      (parse_record-IsRecord line r parsed, good),
      chain previous r rs ordered chained,
      ap (λ m. m >>= λ n. count_all n rs) added ∙ counts,
    )

check_lines-Sound :
    (ls : List Text) (counted : ManifestStats)
    → check_lines ls ≡ ok counted
    → (others : List Text) × (ls ≡ manifest_header ∷ others)
      × Sound none (record { records = 0; bytes = 0 }) others counted
unfolding check_lines
check_lines-Sound [] counted h = cc
check_lines-Sound (header ∷ others) counted h =
    let (utf8, h₁) = reject-then (not (is_utf8 header)) _ _ h in
    let (same, h₂) = reject-then (header != manifest_header) _ _ h₁ in
    (others, ap (λ l. l ∷ others) (eq_of_not-ne same), check_records-Sound none _ counted others h₂)

-- A file that `validate_manifest_format` accepts has the header line, then lines that each hold a
-- well-formed record, in strictly ascending order of their paths, and the statistics that it returns
-- count exactly those records and their bytes.
pub validate_manifest_format_sound :
    (content : Text) (counted : ManifestStats)
    → validate_manifest_format content ≡ ok counted
    → (others : List Text) × (lines content ≡ manifest_header ∷ others)
      × ((rs : List ManifestRecord) × Reads others rs
          × All IsRecord rs
          × Chained none rs
          × (count_all (record { records = 0; bytes = 0 }) rs ≡ ok counted))
unfolding validate_manifest_format
validate_manifest_format_sound content counted h = check_lines-Sound (lines content) counted h
