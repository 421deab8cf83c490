-- ===== src/Backup/Tests.antt =====
-- Runs of the backup manifest on a small tree, and its theorems on them.
use mathlib.Core.List.{head-eq_of_cons-eq}
use onix_core.Base.{
  ℕ, Bool, true, false, none, some, List, [], ◌∷◌, ◌≡◌, ◌≢◌, refl, ap, subst, ◌↔◌, All, arith,
  list_eq, ℕ-eq,
}
use onix_core.Base.Results.{ok_same, ok, err}
use onix_core.Base.Text.{Text, codes, text_lt, starts_with, is_ascii_digit, lines}
use onix_core.Backup.Types.{
  ManifestRecord, ManifestStats, directory, marker, io, Operation, rename, remove,
}
use onix_core.Backup.Hex.{hex_encode, hex_decode, hex_decode-hex_encode}
use onix_core.Backup.Numbers.{format, parse}
use onix_core.Backup.Paths.{IsFileName, join, validate_relative_path, compare_relative_path_bytes}
use onix_core.Backup.Records.{
  hash_placeholder, render_record, parse_kind, valid_blake3_hex, validate_hash, parse_record,
}
use onix_core.Backup.Records.RoundTrip.{IsRecord, parse_record-render_record}
use onix_core.Backup.Records.Bounds.{parse_record-IsRecord}
use onix_core.Backup.Walk.{
  Metadata, Node, directory_node, file_node, symlink_node, Entries, nil, cons, manifest_header,
}
use onix_core.Backup.Walk.Trees.{IsMetadata, AreEntries}
use onix_core.Backup.Walk.Sound.{IsHexHash}
use onix_core.Backup.Commands.{
  Disk, System, Directory, validate_root, write_manifest, create_manifest_atomic, verify_manifest,
}
use onix_core.Backup.Compare.Exact.{full, full-IsReader, files_equal_sound, files_equal_iff}
use onix_core.Backup.Compare.{files_equal}
use onix_core.Backup.Commands.Create.{
  IsComplete, create_manifest_atomic-err, create_manifest_atomic-IsComplete,
}
use onix_core.Backup.Commands.Verify.{
  calm, verify_manifest-disk, verify_manifest-ok, verify_manifest-create_manifest_atomic,
}
use onix_core.Backup.Format.{is_utf8, validate_manifest_format}
use onix_core.Backup.Format.Accepts.{count_all}
use onix_core.Backup.Format.Sound.{Reads, Chained, validate_manifest_format_sound}

abbrev digest : Text
digest = codes "aaaaaaaaaaaaaaaaaaaaaaaaaaaaaaaaaaaaaaaaaaaaaaaaaaaaaaaaaaaaaaaa"

abbrev metadata : Metadata
metadata = record {
  dev = 1;
  ino = 2;
  len = 3;
  mode = 33188;
  uid = 1000;
  gid = 100;
  mtime = 5;
  mtime_nsec = 6;
  ctime = 7;
  ctime_nsec = 8;
}

-- Listed out of order, as `read_dir` may do.
abbrev entries : Entries
entries = cons (codes "b") (file_node metadata metadata (codes "abc")) (
    cons (codes "a")
      (directory_node metadata (cons (codes "x") (symlink_node metadata (codes "../b")) nil)) nil)

abbrev root : Node
root = directory_node metadata entries

abbrev system : System
system = record {
  hash = λ s. digest;
  fails = λ o. false;
  partial = [];
  expected_reader = full;
  actual_reader = full;
}

abbrev is_rename : Operation → Bool
is_rename rename = true
is_rename _ = false

abbrev manifest_text : Text
manifest_text =
    codes
      "RADICLE_BACKUP_B3_V1\nD - 0 644 1000 100 61\nL aaaaaaaaaaaaaaaaaaaaaaaaaaaaaaaaaaaaaaaaaaaaaaaaaaaaaaaaaaaaaaaa 4 644 1000 100 612f78\nF aaaaaaaaaaaaaaaaaaaaaaaaaaaaaaaaaaaaaaaaaaaaaaaaaaaaaaaaaaaaaaaa 3 644 1000 100 62\n"

abbrev before : Disk
before = record { manifest = none; temporary = none }

abbrev after : Disk
after = record { manifest = some manifest_text; temporary = none }

abbrev stats : ManifestStats
stats = record { records = 3; bytes = 7 }

created : create_manifest_atomic system (some root) before ≡ (ok stats, after)
unfolding create_manifest_atomic text_lt validate_relative_path join starts_with list_eq ℕ-eq
    render_record marker format hex_encode
created = refl

verified : verify_manifest system (some root) after ≡ (ok stats, after)
unfolding verify_manifest is_utf8 list_eq ℕ-eq parse_record parse_kind parse hex_decode
    validate_relative_path valid_blake3_hex compare_relative_path_bytes text_lt join render_record
    marker format hex_encode
verified = refl

-- The rename fails: the old manifest stays, the temporary file too.
abbrev stuck : System
stuck = record {
  hash = system.hash;
  fails = λ o. is_rename o;
  partial = [];
  expected_reader = full;
  actual_reader = full;
}

left_over :
    create_manifest_atomic stuck (some root) before
    ≡ (err (io rename), record { manifest = none; temporary = some manifest_text })
unfolding create_manifest_atomic text_lt validate_relative_path join starts_with list_eq ℕ-eq
    render_record marker format hex_encode
left_over = refl

hex_hash : IsHexHash system.hash
unfolding valid_blake3_hex is_ascii_digit
hex_hash s = refl

b_apart : codes "b" ≢ codes "a"
b_apart e = let heads : ◌≡◌ {A = ℕ} 98 97 = head-eq_of_cons-eq e in absurd (omega (arith, heads))

entries_fine : AreEntries entries
unfolding list_eq ℕ-eq
entries_fine =
    let m : IsMetadata metadata = record {
      len_fits = omega arith;
      uid_fits = omega arith;
      gid_fits = omega arith;
    } in
    let b : IsFileName (codes "b") = record {
      not_empty = refl;
      flat = refl;
      not_dot = refl;
      not_dots = refl;
    } in
    let a : IsFileName (codes "a") = record {
      not_empty = refl;
      flat = refl;
      not_dot = refl;
      not_dots = refl;
    } in
    let x : IsFileName (codes "x") = record {
      not_empty = refl;
      flat = refl;
      not_dot = refl;
      not_dots = refl;
    } in
    (
      b,
      (omega arith, tt),
      (b_apart, tt),
      m,
      (a, (omega arith, tt), tt, (m, (x, (omega arith, tt), tt, (m, omega arith), tt)), tt),
    )

root_fine : (found : Directory) → validate_root (some root) ≡ ok found → AreEntries found.1
unfolding validate_root
root_fine found h =
    let same : ◌≡◌ {A = Directory} (metadata, entries) found = ok_same _ _ h in
    subst (λ (f : Directory). AreEntries f.1) same entries_fine

create_ok : (create_manifest_atomic system (some root) before).0 ≡ ok stats
create_ok = ap (λ r. r.0) created

verify_manifest-create_manifest_atomic_example :
    (verify_manifest
      (calm system full)
      (some root)
      (create_manifest_atomic system (some root) before).1).0
    ≡ ok stats
verify_manifest-create_manifest_atomic_example =
    verify_manifest-create_manifest_atomic system full (some root) before stats hex_hash
      full-IsReader root_fine create_ok

verify_manifest-ok_example :
    (found : Directory) × (content : Text) × (validate_root (some root) ≡ ok found)
    × (after.manifest ≡ some content)
    × (validate_manifest_format content ≡ ok stats)
    × ((written_stats : ManifestStats) × (write_manifest system found
          ≡ ok (content, written_stats)))
verify_manifest-ok_example =
    verify_manifest-ok system (some root) after stats full-IsReader full-IsReader
      (ap (λ r. r.0) verified)

verify_manifest-disk_example :
    ((verify_manifest system (some root) after).1.manifest ≡ after.manifest)
    × (system.fails remove ≡ false → (verify_manifest system (some root) after).1 ≡ after)
verify_manifest-disk_example = verify_manifest-disk system (some root) after

create_manifest_atomic-err_example :
    ((create_manifest_atomic stuck (some root) before).1.manifest ≡ before.manifest)
    × (stuck.fails remove ≡ false
        → stuck.fails rename ≡ false
        → (create_manifest_atomic stuck (some root) before).1 ≡ before)
create_manifest_atomic-err_example =
    create_manifest_atomic-err stuck (some root) before (io rename) (ap (λ r. r.0) left_over)

create_manifest_atomic-IsComplete_example :
    (m : Metadata) × (listed : Entries) × (some root ≡ some (directory_node m listed))
    × IsComplete listed stats (create_manifest_atomic system (some root) before).1
create_manifest_atomic-IsComplete_example =
    create_manifest_atomic-IsComplete system (some root) before stats hex_hash root_fine create_ok

files_equal_sound_example :
    (b : Bool) × (files_equal full full (codes "ab") (codes "ac") ≡ some b)
    × (b ≡ true → codes "ab" ≡ codes "ac")
files_equal_sound_example =
    files_equal_sound full full full-IsReader full-IsReader (codes "ab") (codes "ac")

files_equal_iff_example :
    (files_equal full full (codes "ab") (codes "ab") ≡ some true) ↔ (codes "ab" ≡ codes "ab")
files_equal_iff_example = files_equal_iff full full-IsReader (codes "ab") (codes "ab")

abbrev line : ManifestRecord
line = record {
  kind = directory;
  hash = hash_placeholder;
  size = 0;
  mode = 420;
  uid = 1000;
  gid = 100;
  relative_path = codes "a";
}

line_fine : IsRecord line
unfolding validate_hash validate_relative_path starts_with list_eq ℕ-eq
line_fine = record {
  hashed = refl;
  size_fits = omega arith;
  mode_fits = omega arith;
  uid_fits = omega arith;
  gid_fits = omega arith;
  path_bytes = (omega arith, tt);
  path_valid = refl;
}

parse_record-render_record_example : parse_record (render_record line) ≡ ok line
parse_record-render_record_example = parse_record-render_record line line_fine

parse_record-IsRecord_example : IsRecord line
parse_record-IsRecord_example =
    parse_record-IsRecord (render_record line) line (parse_record-render_record line line_fine)

accepted : validate_manifest_format manifest_text ≡ ok stats
unfolding validate_manifest_format is_utf8 list_eq ℕ-eq parse_record parse_kind parse hex_decode
    validate_relative_path valid_blake3_hex compare_relative_path_bytes starts_with
accepted = refl

validate_manifest_format_sound_example :
    (others : List Text) × (lines manifest_text ≡ manifest_header ∷ others)
    × ((rs : List ManifestRecord) × Reads others rs
        × All IsRecord rs
        × Chained none rs
        × (count_all (record { records = 0; bytes = 0 }) rs ≡ ok stats))
validate_manifest_format_sound_example = validate_manifest_format_sound manifest_text stats accepted

hex_decode-hex_encode_example : hex_decode (hex_encode (codes "a/b")) ≡ ok (codes "a/b")
hex_decode-hex_encode_example =
    hex_decode-hex_encode (codes "a/b") (omega arith, (omega arith, (omega arith, tt)))
