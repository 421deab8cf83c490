-- ===== src/Backup/Records.antt =====
-- `write_record`, `parse_record` and what they rest on.
pub mod RoundTrip
pub mod Bounds
use Prim.Native.Nat.{◌/◌}
use onix_core.Base.{
  ℕ, Bool, true, false, Option, List, [], ◌∷◌, ◌++◌, ◌&&◌, ◌||◌, not, all, length, leb, nat_eq,
  ◌==◌, ◌!=◌, list_eq, ℕ-eq, if◌then◌else◌,
}
use onix_core.Base.Results.{Result, ok, err, ◌>>=◌, ◌>>◌, reject, ok_or}
use onix_core.Base.Text.{Text, codes, is_ascii_digit}
use onix_core.Backup.Types.{
  EntryKind, directory, file, symlink, marker, ManifestRecord, Error, unsupported_kind,
  wrong_field_count, directory_hash, invalid_hash, invalid_size, invalid_mode, mode_above_mask,
  invalid_uid, invalid_gid,
}
use onix_core.Backup.Hex.{hex_encode, hex_decode}
use onix_core.Backup.Numbers.{decimal, octal, format, parse}
use onix_core.Backup.Paths.{split, validate_relative_path}

abbrev pub max_u64 : ℕ
max_u64 = 18_446_744_073_709_551_615

abbrev pub max_u32 : ℕ
max_u32 = 4_294_967_295

abbrev pub hash_placeholder : Text
hash_placeholder = codes "-"

-- The line that `write_record` writes, without its line feed.
unfoldable pub render_record : ManifestRecord → Text
render_record r =
    marker r.kind
    ++ (b' '
        ∷ (r.hash
            ++ (b' '
                ∷ (format decimal r.size
                    ++ (b' '
                        ∷ (format octal r.mode
                            ++ (b' '
                                ∷ (format decimal r.uid
                                    ++ (b' '
                                        ∷ (format decimal r.gid
                                            ++ (b' ' ∷ hex_encode r.relative_path)))))))))))

unfoldable pub parse_kind : Text → Result Error EntryKind
parse_kind text =
    if text == codes "D"
    then ok directory
    else if text == codes "F"
    then ok file
    else if text == codes "L"
    then ok symlink
    else err (unsupported_kind text)

unfoldable pub valid_blake3_hex : Text → Bool
unfolding is_ascii_digit
valid_blake3_hex value =
    nat_eq (length value) 64 && all (λ c. is_ascii_digit c || (leb b'a' c && leb c b'f')) value

-- The match on the kind and the hash.
unfoldable pub validate_hash : EntryKind → Text → Result Error (Unit {0})
validate_hash directory hash = reject (hash != hash_placeholder) directory_hash
validate_hash file hash = reject (not (valid_blake3_hex hash)) invalid_hash
validate_hash symlink hash = reject (not (valid_blake3_hex hash)) invalid_hash

-- The permission bits are the lowest twelve.
unfoldable pub mode_exceeds_mask : ℕ → Bool
mode_exceeds_mask mode = not (nat_eq (mode / 4096) 0)

unfoldable pub parse_fields : List Text → Result Error ManifestRecord
unfolding validate_hash mode_exceeds_mask
parse_fields (f0 ∷ f1 ∷ f2 ∷ f3 ∷ f4 ∷ f5 ∷ f6 ∷ []) = do
  kind ← parse_kind f0
  validate_hash kind f1
  size ← ok_or (parse decimal max_u64 f2) invalid_size
  mode ← ok_or (parse octal max_u32 f3) invalid_mode
  reject (mode_exceeds_mask mode) mode_above_mask
  uid ← ok_or (parse decimal max_u32 f4) invalid_uid
  gid ← ok_or (parse decimal max_u32 f5) invalid_gid
  relative_path ← hex_decode f6
  validate_relative_path relative_path
  ok (record {
    kind = kind;
    hash = f1;
    size = size;
    mode = mode;
    uid = uid;
    gid = gid;
    relative_path = relative_path;
  })
parse_fields _ = err wrong_field_count

unfoldable pub parse_record : Text → Result Error ManifestRecord
unfolding split parse_fields
parse_record line = parse_fields (split b' ' line)
