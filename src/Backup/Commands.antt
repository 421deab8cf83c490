-- ===== src/Backup/Commands.antt =====
-- `create_manifest_atomic` and `verify_manifest` on the manifest and the temporary file beside it.
-- Neither lies under the root. The calls of the operating system are parameters: which of them
-- fail, and what a failed write leaves in the temporary file.
pub mod Create
pub mod Verify
use onix_core.Base.{ℕ, Bool, true, false, Option, none, some, [], not, ◌||◌, if◌then◌else◌}
use onix_core.Base.Results.{Result, ok, err, ◌>>=◌, ◌>>◌, reject, ok_or}
use onix_core.Base.Text.{Text}
use onix_core.Backup.Types.{
  ManifestStats, Error, not_a_directory, mismatch, io, out_of_rounds, Operation, inspect_root,
  open_temporary, write, flush, sync, rename, remove, open_manifest, read,
}
use onix_core.Backup.Walk.{Metadata, Entries, Node, directory_node, walk_directory, render_manifest}
use onix_core.Backup.Format.{validate_manifest_format}
use onix_core.Backup.Compare.{Reader, files_equal}

pub record Disk : Type 0 where
  pub manifest : Option Text
  pub temporary : Option Text

pub record System : Type 0 where
  pub hash : Text → Text
  pub fails : Operation → Bool
  pub partial : Text
  pub expected_reader : Reader
  pub actual_reader : Reader

abbrev pub Directory : Type 0
Directory = Metadata × Entries

unfoldable pub validate_root : Option Node → Result Error Directory
validate_root none = err (io inspect_root)
validate_root (some (directory_node m entries)) = ok (m, entries)
validate_root (some _) = err not_a_directory

abbrev pub is_there : Option Text → Bool
is_there none = false
is_there (some s) = true

module _ (system : System) where
  -- The text that is written and its statistics.
  unfoldable pub write_manifest : Directory → Result Error (Text × ManifestStats)
  unfolding walk_directory render_manifest
  write_manifest (m, entries) = do
    reject (system.fails write) (io write)
    walked ← walk_directory system.hash m.dev [] entries (record { records = 0; bytes = 0 })
    reject (system.fails flush) (io flush)
    reject (system.fails sync) (io sync)
    ok (render_manifest walked.0, walked.1)

  -- `let _ = fs::remove_file(…)` on a temporary file with these bytes.
  unfoldable pub remove_temporary : Text → Disk → Disk
  remove_temporary content disk = record {
    manifest = disk.manifest;
    temporary = if system.fails remove then some content else none;
  }

  unfoldable pub finish_create :
      Result Error (Text × ManifestStats) → Disk → Result Error ManifestStats × Disk
  unfolding remove_temporary
  finish_create (err e) disk = (err e, remove_temporary system.partial disk)
  finish_create (ok (content, stats)) disk =
      if system.fails rename
      then (err (io rename), record { manifest = disk.manifest; temporary = some content })
      else (ok stats, record { manifest = some content; temporary = none })

  -- `create_new`: the open fails where the file is there.
  unfoldable pub create_manifest_atomic : Option Node → Disk → Result Error ManifestStats × Disk
  unfolding validate_root write_manifest finish_create
  create_manifest_atomic root disk = elim (validate_root root) [
    | err e ↦ (err e, disk)
    | ok found ↦
        if is_there disk.temporary || system.fails open_temporary
        then (err (io open_temporary), disk)
        else finish_create (write_manifest found) disk
  ]

  unfoldable pub compared : ManifestStats → Text → Text → Result Error ManifestStats
  unfolding files_equal
  compared expected_stats expected actual = do
    reject (system.fails read) (io read)
    equal ←
        ok_or (files_equal system.expected_reader system.actual_reader expected actual)
          out_of_rounds
    reject (not equal) mismatch
    ok expected_stats

  unfoldable pub finish_verify :
      ManifestStats
      → Text
      → Result Error (Text × ManifestStats)
      → Disk
      → Result Error ManifestStats × Disk
  unfolding remove_temporary compared
  finish_verify expected_stats expected (err e) disk = (err e, remove_temporary system.partial disk)
  finish_verify expected_stats expected (ok (actual, stats)) disk =
      (compared expected_stats expected actual, remove_temporary actual disk)

  -- What comes before the temporary file is opened.
  unfoldable pub checked_root :
      Option Node → Disk → Result Error (Directory × (Text × ManifestStats))
  unfolding validate_root validate_manifest_format
  checked_root root disk = do
    found ← validate_root root
    reject (system.fails open_manifest) (io open_manifest)
    expected ← ok_or disk.manifest (io open_manifest)
    expected_stats ← validate_manifest_format expected
    ok (found, (expected, expected_stats))

  unfoldable pub verify_manifest : Option Node → Disk → Result Error ManifestStats × Disk
  unfolding checked_root write_manifest finish_verify
  verify_manifest root disk = elim (checked_root root disk) [
    | err e ↦ (err e, disk)
    | ok (found, (expected, expected_stats)) ↦
        if is_there disk.temporary || system.fails open_temporary
        then (err (io open_temporary), disk)
        else finish_verify expected_stats expected (write_manifest found) disk
  ]
