-- ===== src/HxOil/Plan.antt =====
-- `build_plan` and `plan_hunk` of `pkgs/hx-oil/src/lib.rs`: the operations that turn a snapshot into
-- the edited entries.
pub mod Align
pub mod Sound
use onix_core.Base.{
  ℕ, zero, suc, ◌+◌, ◌-◌, Bool, true, false, Option, none, some, List, [], ◌∷◌, ◌++◌, map, not,
  ◌&&◌, ltb, leb, length, take, drop, ◌==◌, ◌!=◌, list_eq, ℕ-eq, if◌then◌else◌,
}
use onix_core.Base.Results.{Result, ok, err, ◌>>=◌, ◌>>◌, reject}
use onix_core.Base.Slices.{slice}
use onix_core.Base.Text.{Text}
use onix_core.HxOil.Types.{
  EntryKind, kind_eq, SnapshotEntry, ManifestEntry, Operation, create, rename, delete, Plan, Error,
  unsupported_reordering, unsupported_kind_change, ambiguous_edit_hunk, render_path,
}

-- The key of `exact_positions`: a name with its kind.
unfoldable pub same_key : SnapshotEntry → ManifestEntry → Bool
same_key o e = o.relative_path == e.relative_path && o.kind == e.kind

-- `exact_positions.get`: a later insertion of a key replaces an earlier one, so the last index.
unfoldable pub exact_position : ℕ → List SnapshotEntry → ManifestEntry → Option ℕ
exact_position index [] e = none
exact_position index (o ∷ original) e = elim (exact_position (suc index) original e) [
  | some later ↦ some later
  | none ↦ if same_key o e then some index else none
]

-- `last_original_index` is set and the new index is not above it.
unfoldable pub out_of_order : Option ℕ → ℕ → Bool
out_of_order none index = false
out_of_order (some previous) index = not (ltb previous index)

-- The loop that fills `exact_matches`.
unfoldable pub exact_matches :
    List SnapshotEntry → ℕ → Option ℕ → List ManifestEntry → Result Error (List (ℕ × ℕ))
exact_matches original edited_index last [] = ok []
exact_matches original edited_index last (entry ∷ edited) = elim (exact_position 0 original entry) [
  | none ↦ exact_matches original (suc edited_index) last edited
  | some original_index ↦ do
    reject (out_of_order last original_index) unsupported_reordering
    rest ← exact_matches original (suc edited_index) (some original_index) edited
    ok ((original_index, edited_index) ∷ rest)
]

unfoldable pub create_entry : ManifestEntry → Operation
create_entry entry = create entry.relative_path entry.kind

unfoldable pub delete_entry : SnapshotEntry → Operation
delete_entry entry = delete entry.relative_path entry.kind

-- The operations that a hunk adds.
unfoldable pub plan_hunk : List SnapshotEntry → List ManifestEntry → Result Error (List Operation)
plan_hunk [] [] = ok []
plan_hunk [] (e ∷ es) = ok (map create_entry (e ∷ es))
plan_hunk (o ∷ os) [] = ok (map delete_entry (o ∷ os))
plan_hunk (o ∷ []) (e ∷ []) = do
  reject (o.kind != e.kind) (
      unsupported_kind_change (render_path o.kind o.relative_path)
        (render_path e.kind e.relative_path))
  ok (rename o.relative_path e.relative_path o.kind ∷ [])
plan_hunk os es = err (ambiguous_edit_hunk (length os) (length es))

-- The loop over the matches and the pair of lengths that is chained behind them.
unfoldable pub plan_hunks :
    List SnapshotEntry → List ManifestEntry → ℕ → ℕ → List (ℕ × ℕ) → Result Error (List Operation)
plan_hunks original edited original_start edited_start [] =
    plan_hunk (slice original_start (length original) original)
      (slice edited_start (length edited) edited)
plan_hunks original edited original_start edited_start ((original_index, edited_index) ∷ matches) =
    do
      operations ←
          plan_hunk (slice original_start original_index original)
            (slice edited_start edited_index edited)
      rest ← plan_hunks original edited (suc original_index) (suc edited_index) matches
      ok (operations ++ rest)

unfoldable pub build_plan : Text → List SnapshotEntry → List ManifestEntry → Result Error Plan
build_plan base original edited = do
  matches ← exact_matches original 0 none edited
  operations ← plan_hunks original edited 0 0 matches
  ok (record { base = base; operations = operations; final_entries = edited })
