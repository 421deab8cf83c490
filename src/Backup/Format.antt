-- ===== src/Backup/Format.antt =====
-- `validate_manifest_format`: the lines of a manifest file, read as UTF-8.
pub mod Accepts
pub mod Sound
use onix_core.Base.{
  ℕ, Bool, true, false, Option, none, some, List, [], ◌∷◌, not, ◌&&◌, leb, ltb, nat_eq, ◌==◌, ◌!=◌,
  list_eq, ℕ-eq, if◌then◌else◌,
}
use onix_core.Base.Results.{Result, ok, err, ◌>>=◌, ◌>>◌, reject}
use onix_core.Base.Text.{Text, lines}
use onix_core.Backup.Types.{
  ManifestStats, Error, empty_manifest, not_utf8, invalid_header, path_order,
}
use Prim.Native.Nat.{Ordering}
use onix_core.Backup.Paths.{compare_relative_path_bytes}
use onix_core.Backup.Records.{parse_record}
use onix_core.Backup.Walk.{add_record, manifest_header}

-- The ranges of the bytes that follow a first byte, or none where it starts no character.
unfoldable pub continuation : ℕ → Option (List (ℕ × ℕ))
continuation c =
    let tail : ℕ × ℕ = (0x80, 0xbf) in
    if ltb c 0x80
    then some []
    else if leb 0xc2 c && leb c 0xdf
    then some (tail ∷ [])
    else if nat_eq c 0xe0
    then some ((0xa0, 0xbf) ∷ tail ∷ [])
    else if nat_eq c 0xed
    then some ((0x80, 0x9f) ∷ tail ∷ [])
    else if leb 0xe1 c && leb c 0xef
    then some (tail ∷ tail ∷ [])
    else if nat_eq c 0xf0
    then some ((0x90, 0xbf) ∷ tail ∷ tail ∷ [])
    else if leb 0xf1 c && leb c 0xf3
    then some (tail ∷ tail ∷ tail ∷ [])
    else if nat_eq c 0xf4
    then some ((0x80, 0x8f) ∷ tail ∷ tail ∷ [])
    else none

-- Whether the bytes are UTF-8, where bytes in the given ranges are still wanted.
unfoldable pub is_utf8_from : List (ℕ × ℕ) → Text → Bool
unfolding continuation
is_utf8_from [] [] = true
is_utf8_from (r ∷ rs) [] = false
is_utf8_from ((low, high) ∷ rs) (c ∷ s) = leb low c && leb c high && is_utf8_from rs s
is_utf8_from [] (c ∷ s) = elim (continuation c) [ none ↦ false | some rs ↦ is_utf8_from rs s ]

unfoldable pub is_utf8 : Text → Bool
unfolding is_utf8_from
is_utf8 s = is_utf8_from [] s

-- The paths are there and do not ascend.
unfoldable pub out_of_order : Option Text → Text → Bool
out_of_order none path = false
out_of_order (some previous) path = elim (compare_relative_path_bytes previous path) [
  | Ordering.lt ↦ false
  | Ordering.eq ↦ true
  | Ordering.gt ↦ true
]

-- The loop over the lines behind the header.
unfoldable pub check_records : Option Text → ManifestStats → List Text → Result Error ManifestStats
unfolding out_of_order add_record
check_records previous stats [] = ok stats
check_records previous stats (line ∷ others) = do
  reject (not (is_utf8 line)) not_utf8
  r ← parse_record line
  reject (out_of_order previous r.relative_path) path_order
  counted ← add_record stats r.size
  check_records (some r.relative_path) counted others

unfoldable pub check_lines : List Text → Result Error ManifestStats
unfolding check_records
check_lines [] = err empty_manifest
check_lines (header ∷ others) = do
  reject (not (is_utf8 header)) not_utf8
  reject (header != manifest_header) invalid_header
  check_records none (record { records = 0; bytes = 0 }) others

unfoldable pub validate_manifest_format : Text → Result Error ManifestStats
unfolding lines check_lines
validate_manifest_format content = check_lines (lines content)
