-- ===== src/Backup/Walk/Trees.antt =====
-- File trees as an operating system gives them: names that a directory can hold, no two the same in
-- one directory, and numbers that fit their fields.
use Prim.Native.Nat.{◌≤◌}
use onix_core.Base.{List, [], ◌∷◌, ◌≢◌, All, length}
use onix_core.Base.Text.{Text}
use onix_core.Backup.Hex.{IsByte}
use onix_core.Backup.Paths.{IsFileName}
use onix_core.Backup.Records.{max_u64, max_u32}
use onix_core.Backup.Walk.{
  Metadata, Node, directory_node, file_node, symlink_node, other_node, Entries, nil, cons,
}

abbrev pub names : Entries → List Text
names nil = []
names (cons name node entries) = name ∷ names entries

pub record IsMetadata (m : Metadata) : Type 0 where
  pub len_fits : m.len ≤ max_u64
  pub uid_fits : m.uid ≤ max_u32
  pub gid_fits : m.gid ≤ max_u32

abbrev mutual
  pub IsTree : Node → Type 0
  IsTree (directory_node m entries) = IsMetadata m × AreEntries entries
  IsTree (file_node before after content) = IsMetadata before
  IsTree (symlink_node m target) = IsMetadata m × (length target ≤ max_u64)
  IsTree (other_node m) = Unit

  pub AreEntries : Entries → Type 0
  AreEntries nil = Unit
  AreEntries (cons name node entries) =
      IsFileName name
      × All IsByte name
      × All (λ other. name ≢ other) (names entries)
      × IsTree node
      × AreEntries entries
