-- ===== src/HxOil/Plans.antt =====
-- `build_apply_plans` and `validate_visible_subdir_roots`: a manifest document's entries by scope, and
-- one plan for each.
pub mod Groups
pub mod Scopes
use onix_core.Base.{
  ℕ, Bool, true, false, Option, none, some, List, [], ◌∷◌, ◌++◌, map, not, ◌&&◌, ◌||◌, any, filter,
  is_nil, nat_eq, if◌then◌else◌, ◌==◌, ◌!=◌, list_eq, ℕ-eq,
}
use onix_core.Base.Results.{Result, ok, err, ◌>>=◌, ◌>>◌, reject, ok_or}
use onix_core.Base.Text.{Text, text_lt}
use onix_core.HxOil.Types.{
  EntryKind, file, directory, kind_eq, EntryMark, delete_flagged, mark_eq, EntryScope, root, subdir,
  scope_eq, absolute_root, join, SnapshotEntry, SubdirState, ManifestEntry, Operation, delete, Plan,
  Error, missing_subdir_metadata, unsafe_subtree,
}
use onix_core.HxOil.Manifest.{
  ManifestLine, blank, comment, entry, subdir_start, subdir_end, ManifestDocument, entries,
}
use onix_core.HxOil.Plan.{build_plan}

line_subdirs : List ManifestLine → List Text
line_subdirs [] = []
line_subdirs (subdir_start name n ∷ ls) = name ∷ line_subdirs ls
line_subdirs (_ ∷ ls) = line_subdirs ls

unfoldable pub visible_subdirs : ManifestDocument → List Text
unfolding line_subdirs
visible_subdirs document = line_subdirs document.lines

unfoldable pub is_root_directory : Text → ManifestEntry → Bool
is_root_directory name e = e.scope == root && e.kind == directory && e.relative_path == name

all_roots : List ManifestEntry → List Text → Result Error (Unit {0})
unfolding is_root_directory
all_roots es [] = ok tt
all_roots es (name ∷ names) = do
  reject (not (any (is_root_directory name) es)) (unsafe_subtree name)
  all_roots es names

unfoldable pub validate_visible_subdir_roots : ManifestDocument → Result Error (Unit {0})
unfolding all_roots
validate_visible_subdir_roots document = all_roots (entries document) (visible_subdirs document)

-- The entries of a scope, for the scopes in their order: `BTreeMap<EntryScope, Vec<ManifestEntry>>`.
abbrev pub Groups : Type 0
Groups = List (EntryScope × List ManifestEntry)

unfoldable pub scope_lt : EntryScope → EntryScope → Bool
scope_lt root root = false
scope_lt root (subdir b) = true
scope_lt (subdir a) root = false
scope_lt (subdir a) (subdir b) = text_lt a b

-- `grouped.entry(scope).or_default().push(entry)`
unfoldable pub push_entry : EntryScope → ManifestEntry → Groups → Groups
unfolding scope_lt
push_entry scope e [] = (scope, e ∷ []) ∷ []
push_entry scope e ((other, es) ∷ groups) =
    let rest = push_entry scope e groups in
    if scope == other
    then (other, es ++ (e ∷ [])) ∷ groups
    else if scope_lt scope other
    then (scope, e ∷ []) ∷ (other, es) ∷ groups
    else (other, es) ∷ rest

unfoldable pub group_entries : Groups → List ManifestEntry → Groups
unfolding push_entry
group_entries groups [] = groups
group_entries groups (e ∷ es) =
    group_entries (if e.mark != delete_flagged then push_entry e.scope e groups else groups) es

-- `iter().find(|state| state.relative_path == *path)`
unfoldable pub find_subdir : Text → List SubdirState → Option SubdirState
find_subdir path [] = none
find_subdir path (state ∷ states) =
    let rest = find_subdir path states in if state.relative_path == path then some state else rest

-- The root, the entries and the inserted directories that the sidecar holds.
pub record Snapshots : Type 0 where
  pub base : Text
  pub entries : List SnapshotEntry
  pub subdirs : List SubdirState

unfoldable pub original_entries : Snapshots → EntryScope → Result Error (List SnapshotEntry)
unfolding find_subdir
original_entries sidecar root = ok sidecar.entries
original_entries sidecar (subdir path) = do
  state ← ok_or (find_subdir path sidecar.subdirs) missing_subdir_metadata
  ok state.entries

unfoldable pub scope_plans : Snapshots → Groups → Result Error (List (Text × Plan))
unfolding original_entries absolute_root build_plan
scope_plans sidecar [] = ok []
scope_plans sidecar ((scope, edited) ∷ groups) = do
  original ← original_entries sidecar scope
  plan ← build_plan (absolute_root scope sidecar.base) original edited
  rest ← scope_plans sidecar groups
  ok ((absolute_root scope sidecar.base, plan) ∷ rest)

-- The plan that deletes every entry of an inserted directory.
abbrev pub delete_operation : SnapshotEntry → Operation
delete_operation e = delete e.relative_path e.kind

unfoldable pub emptied_plan : Text → SubdirState → Text × Plan
unfolding join
emptied_plan base state = (
  join base state.relative_path,
  record {
    base = join base state.relative_path;
    operations = map delete_operation state.entries;
    final_entries = [];
  },
)

unfoldable pub is_emptied : ManifestDocument → SubdirState → Bool
is_emptied document state =
    any (λ name. name == state.relative_path) (visible_subdirs document)
    && not (any (λ e. e.scope == subdir state.relative_path) (entries document))
    && not (is_nil state.entries)

unfoldable pub build_apply_plans : Snapshots → ManifestDocument → Result Error (List (Text × Plan))
unfolding group_entries scope_plans is_emptied emptied_plan
build_apply_plans sidecar document = do
  plans ← scope_plans sidecar (group_entries [] (entries document))
  ok (plans ++ map (emptied_plan sidecar.base) (filter (is_emptied document) sidecar.subdirs))
