-- ===== src/Backup/Walk.antt =====
-- `walk_directory`, `record_for_path` and `write_manifest` over a file tree. The tree keeps the
-- entries of a directory in the order in which `read_dir` gives them.
pub mod Totals
pub mod Trees
pub mod Emits
pub mod Sound
pub mod Whole
use Prim.Native.Nat.{◌+◌, ◌%◌}
use onix_core.Base.{
  ℕ, Bool, true, false, List, [], ◌∷◌, ◌++◌, map, ◌||◌, not, ltb, nat_eq, length, ◌==◌, ◌!=◌, ℕ-eq,
  if◌then◌else◌,
}
use onix_core.Base.Results.{Result, ok, err, ◌>>=◌, ◌>>◌, reject}
use onix_core.Base.Sort.{sort}
use onix_core.Base.Text.{Text, codes, text_lt}
use onix_core.Base.Text.Lines.{unlines}
use onix_core.Backup.Types.{
  directory, file, symlink, ManifestRecord, ManifestStats, Error, record_overflow, byte_overflow,
  crosses_filesystem, changed_while_hashing, unsupported_entry,
}
use onix_core.Backup.Paths.{validate_relative_path, join}
use onix_core.Backup.Records.{max_u64, hash_placeholder, render_record}

-- Of the times only equality matters, so a natural number stands for each.
pub record Metadata : Type 0 where
  pub dev : ℕ
  pub ino : ℕ
  pub len : ℕ
  pub mode : ℕ
  pub uid : ℕ
  pub gid : ℕ
  pub mtime : ℕ
  pub mtime_nsec : ℕ
  pub ctime : ℕ
  pub ctime_nsec : ℕ

-- A file has its metadata before and after it is hashed.
mutual
  pub data Node : Type 0 where
    directory_node : Metadata → Entries → Node
    file_node : Metadata → Metadata → Text → Node
    symlink_node : Metadata → Text → Node
    other_node : Metadata → Node

  pub data Entries : Type 0 where
    nil : Entries
    cons : Text → Node → Entries → Entries

abbrev pub metadata_of : Node → Metadata
metadata_of (directory_node m entries) = m
metadata_of (file_node before after content) = before
metadata_of (symlink_node m target) = m
metadata_of (other_node m) = m

unfoldable pub file_identity_changed : Metadata → Metadata → Bool
file_identity_changed before after =
    before.dev != after.dev
    || before.ino != after.ino
    || before.len != after.len
    || before.mtime != after.mtime
    || before.mtime_nsec != after.mtime_nsec
    || before.ctime != after.ctime
    || before.ctime_nsec != after.ctime_nsec

-- The two checked additions.
unfoldable pub add_record : ManifestStats → ℕ → Result Error ManifestStats
add_record stats size = do
  reject (ltb max_u64 (stats.records + 1)) record_overflow
  reject (ltb max_u64 (stats.bytes + size)) byte_overflow
  ok (record { records = stats.records + 1; bytes = stats.bytes + size })

-- A part of the walk: from the statistics so far, the records that it writes and the statistics.
abbrev pub Walk : Type 0
Walk = ManifestStats → Result Error (List ManifestRecord × ManifestStats)

-- The parts one after the other.
unfoldable pub walk_all : List (Text × Walk) → Walk
walk_all [] stats = ok ([], stats)
walk_all ((name, walk) ∷ others) stats = do
  first ← walk stats
  rest ← walk_all others first.1
  ok (first.0 ++ rest.0, rest.1)

-- `entries.sort_by` on the names' bytes.
unfoldable pub sort_entries : List (Text × Walk) → List (Text × Walk)
unfolding sort
sort_entries = sort (λ a b. text_lt a.0 b.0)

unfoldable pub no_entries : Walk
no_entries stats = ok ([], stats)

module _ (hash : Text → Text) where
  unfoldable pub record_for_path : Text → Node → Result Error ManifestRecord
  unfolding file_identity_changed
  record_for_path path (directory_node m entries) = ok (record {
    kind = directory;
    hash = hash_placeholder;
    size = 0;
    mode = m.mode % 4096;
    uid = m.uid;
    gid = m.gid;
    relative_path = path;
  })
  record_for_path path (file_node before after content) = do
    reject (file_identity_changed before after) (changed_while_hashing path)
    ok (record {
      kind = file;
      hash = hash content;
      size = before.len;
      mode = before.mode % 4096;
      uid = before.uid;
      gid = before.gid;
      relative_path = path;
    })
  record_for_path path (symlink_node m target) = ok (record {
    kind = symlink;
    hash = hash target;
    size = length target;
    mode = m.mode % 4096;
    uid = m.uid;
    gid = m.gid;
    relative_path = path;
  })
  record_for_path path (other_node m) = err (unsupported_entry path)

  -- One round of the loop over a directory's entries; `below` walks the entry if it is a directory.
  unfoldable pub visit : ℕ → Text → Node → Walk → Walk
  unfolding record_for_path add_record
  visit root_device path node below stats = do
    validate_relative_path path
    reject ((metadata_of node).dev != root_device) (crosses_filesystem path)
    r ← record_for_path path node
    counted ← add_record stats r.size
    rest ← below counted
    ok (r ∷ rest.0, rest.1)

  module _ (root_device : ℕ) where
    unfoldable mutual
      unfolding visit walk_all sort_entries no_entries

      pub walk_node : Text → Node → Walk
      walk_node path (directory_node m entries) =
          visit root_device path (directory_node m entries)
            (walk_all (sort_entries (walk_entries path entries)))
      walk_node path (file_node before after content) =
          visit root_device path (file_node before after content) no_entries
      walk_node path (symlink_node m target) =
          visit root_device path (symlink_node m target) no_entries
      walk_node path (other_node m) = visit root_device path (other_node m) no_entries

      pub walk_entries : Text → Entries → List (Text × Walk)
      walk_entries relative_directory nil = []
      walk_entries relative_directory (cons name node entries) =
          (name, walk_node (join relative_directory name) node)
          ∷ walk_entries relative_directory entries

    unfoldable pub walk_directory : Text → Entries → Walk
    unfolding walk_entries
    walk_directory relative_directory entries =
        walk_all (sort_entries (walk_entries relative_directory entries))

abbrev pub manifest_header : Text
manifest_header = codes "RADICLE_BACKUP_B3_V1"

-- What the writer holds in the end.
unfoldable pub render_manifest : List ManifestRecord → Text
unfolding unlines
render_manifest records = unlines (manifest_header ∷ map render_record records)
