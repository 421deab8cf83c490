-- ===== src/HxOil/Sidecar.antt =====
-- `upgrade_sidecar`: ids for the entries of a sidecar that was written before entries had any.
pub mod Upgraded
use onix_core.Base.{ℕ, ◌+◌, Bool, true, false, List, [], ◌∷◌, leb, nat_eq, if◌then◌else◌}
use onix_core.Base.Text.{Text}
use onix_core.HxOil.Types.{SnapshotEntry, SubdirState}
use onix_core.HxOil.Snapshot.{word, increment, with_id}

pub record Sidecar : Type 0 where
  pub version : ℕ
  pub base : Text
  pub manifest_path : Text
  pub created_at : ℕ
  pub next_entry_id : ℕ
  pub entries : List SnapshotEntry
  pub subdirs : List SubdirState

abbrev pub sidecar_version : ℕ
sidecar_version = 2

-- `max`, and `saturating_add(1)` on u64.
abbrev pub larger : ℕ → ℕ → ℕ
larger a b = if leb a b then b else a

abbrev pub saturating_next : ℕ → ℕ
saturating_next n = if leb word (n + 1) then n else n + 1

-- The first two loops.
unfoldable pub above_entries : ℕ → List SnapshotEntry → ℕ
above_entries next [] = next
above_entries next (e ∷ es) = above_entries (larger next (saturating_next e.id)) es

unfoldable pub above_subdirs : ℕ → List SubdirState → ℕ
unfolding above_entries
above_subdirs next [] = next
above_subdirs next (state ∷ states) = above_subdirs (above_entries next state.entries) states

-- The last two loops, with the next free id.
unfoldable pub number_entries : ℕ → List SnapshotEntry → List SnapshotEntry × ℕ
number_entries next [] = ([], next)
number_entries next (e ∷ es) =
    let fresh = number_entries (increment next) es in
    let kept = number_entries next es in
    if nat_eq e.id 0 then (with_id next e.index e ∷ fresh.0, fresh.1) else (e ∷ kept.0, kept.1)

unfoldable pub number_subdirs : ℕ → List SubdirState → List SubdirState × ℕ
unfolding number_entries
number_subdirs next [] = ([], next)
number_subdirs next (state ∷ states) =
    let numbered = number_entries next state.entries in
    let rest = number_subdirs numbered.1 states in
    (record { relative_path = state.relative_path; entries = numbered.0 } ∷ rest.0, rest.1)

unfoldable pub upgrade_sidecar : Sidecar → Sidecar
unfolding above_subdirs number_subdirs
upgrade_sidecar sidecar =
    let start =
      above_subdirs (above_entries (larger sidecar.next_entry_id 1) sidecar.entries)
        sidecar.subdirs in
    let numbered = number_entries start sidecar.entries in
    let inserted = number_subdirs numbered.1 sidecar.subdirs in
    record {
      version = sidecar_version;
      base = sidecar.base;
      manifest_path = sidecar.manifest_path;
      created_at = sidecar.created_at;
      next_entry_id = inserted.1;
      entries = numbered.0;
      subdirs = inserted.0;
    }
