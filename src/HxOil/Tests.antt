-- ===== src/HxOil/Tests.antt =====
-- A small directory whose listing is edited: a name is renamed, one is kept, one is deleted and one
-- is created.
mod Documents
mod Sidecars
mod Transforms
use onix_core.Base.{List, [], ◌∷◌, ◌≡◌, refl, list_eq, ℕ-eq, ℕ, arith, contains, All}
use onix_core.Base.Results.{ok, err}
use onix_core.Base.Text.{Text, codes, trim, starts_with, ends_with}
use onix_core.HxOil.Types.{
  EntryKind, file, directory, unmarked, root, SnapshotEntry, ManifestEntry, rename, delete, Plan,
  kind_eq, unsupported_reordering, nested_path, scope_eq,
}
use onix_core.HxOil.Manifest.{
  ManifestDocument, entry, blank, entries, validate_document_entries, has_slash,
}
use onix_core.HxOil.Manifest.Names.{IsEntryName, DistinctTargets, validate_document_entries_iff}
use onix_core.HxOil.Plan.{
  build_plan, exact_matches, exact_position, plan_hunks, plan_hunk, same_key, out_of_order,
  delete_entry,
}
use onix_core.HxOil.Plan.Align.{Align}
use onix_core.HxOil.Plan.Sound.{build_plan-Align}
use onix_core.HxOil.Directory.{Directory, file_node, full_directory, find}
use onix_core.HxOil.Apply.{
  current_paths, validate_apply_targets, execute_plan, validate_deletes, validate_targets,
}
use onix_core.HxOil.Apply.Trace.{DistinctSnapshot, DistinctEdited, snapshot_kind, edited_kind}
use onix_core.HxOil.Apply.Phases.{kind_in}
use onix_core.HxOil.Apply.Exact.{IsSnapshotOf, execute_plan-build_plan}

abbrev seen : ℕ → Text → EntryKind → SnapshotEntry
seen index name kind = record {
  id = 1;
  index = index;
  relative_path = name;
  kind = kind;
  mtime_ns = 0;
  size = 0;
}

abbrev listed : Text → EntryKind → ManifestEntry
listed name kind = record {
  relative_path = name;
  kind = kind;
  line_number = 3;
  mark = unmarked;
  scope = root;
}

abbrev original : List SnapshotEntry
original =
    seen 0 (codes "docs") directory
    ∷ seen 1 (codes "a") file
    ∷ seen 2 (codes "b") file
    ∷ seen 3 (codes "c") file
    ∷ []

abbrev edited : List ManifestEntry
edited = listed (codes "docs") directory ∷ listed (codes "z") file ∷ listed (codes "b") file ∷ []

abbrev disk : Directory
disk =
    (codes "docs", full_directory)
    ∷ (codes "a", file_node)
    ∷ (codes "b", file_node)
    ∷ (codes "c", file_node)
    ∷ []

abbrev plan : Plan
plan = record {
  base = codes "/home";
  operations = rename (codes "a") (codes "z") file ∷ delete (codes "c") file ∷ [];
  final_entries = edited;
}

build_plan_sample : build_plan (codes "/home") original edited ≡ ok plan
unfolding build_plan exact_matches exact_position plan_hunks plan_hunk same_key list_eq ℕ-eq kind_eq
    out_of_order delete_entry
build_plan_sample = refl

validate_apply_targets_sample : validate_apply_targets disk plan ≡ ok tt
unfolding validate_apply_targets validate_deletes validate_targets list_eq ℕ-eq contains
    current_paths
validate_apply_targets_sample = refl

build_plan-Align_example : Align original edited plan.operations
build_plan-Align_example = build_plan-Align (codes "/home") original edited plan build_plan_sample

original-DistinctSnapshot : DistinctSnapshot original
unfolding snapshot_kind list_eq ℕ-eq
original-DistinctSnapshot = (refl, (refl, (refl, (refl, tt))))

edited-DistinctEdited : DistinctEdited edited
unfolding edited_kind list_eq ℕ-eq
edited-DistinctEdited = (refl, (refl, (refl, tt)))

disk-IsSnapshotOf : IsSnapshotOf original disk
unfolding snapshot_kind find
disk-IsSnapshotOf n = ground arith

execute_plan-build_plan_example :
    (dir : Directory) × (execute_plan disk plan ≡ ok dir)
    × ((n : Text) → kind_in n dir ≡ edited_kind n edited)
execute_plan-build_plan_example =
    execute_plan-build_plan (codes "/home") original edited plan disk original-DistinctSnapshot
      disk-IsSnapshotOf edited-DistinctEdited build_plan_sample validate_apply_targets_sample

-- Two names in exchanged order are refused.
build_plan_swapped :
    build_plan
      (codes "/home")
      (seen 0 (codes "a") file ∷ seen 1 (codes "b") file ∷ [])
      (listed (codes "b") file ∷ listed (codes "a") file ∷ [])
    ≡ err unsupported_reordering
unfolding build_plan exact_matches exact_position plan_hunks plan_hunk same_key list_eq ℕ-eq kind_eq
    out_of_order delete_entry
build_plan_swapped = refl

abbrev document : ManifestDocument
document = record {
  base = codes "/home";
  lines =
      entry (listed (codes "docs") directory) ∷ blank 4 ∷ entry (listed (codes "a b") file) ∷ [];
}

document_sample : validate_document_entries document ≡ ok tt
unfolding validate_document_entries kind_eq list_eq trim ℕ-eq has_slash starts_with ends_with
    scope_eq
document_sample = refl

validate_document_entries_iff_example :
    All (λ e. IsEntryName e.relative_path) (entries document)
    × DistinctTargets [] (entries document)
validate_document_entries_iff_example = (validate_document_entries_iff document).0 document_sample

document_nested :
    validate_document_entries
      (record { base = codes "/home"; lines = entry (listed (codes "a/b") file) ∷ [] })
    ≡ err (nested_path 3)
unfolding validate_document_entries kind_eq list_eq trim ℕ-eq has_slash
document_nested = refl
