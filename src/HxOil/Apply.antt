-- ===== src/HxOil/Apply.antt =====
-- `validate_apply_targets` and `execute_plan` of `pkgs/hx-oil/src/lib.rs`.
pub mod Trace
pub mod Phases
pub mod Exact
use onix_core.Base.{
  Bool, true, false, Option, none, some, List, [], ◌∷◌, map, not, ◌&&◌, contains, ◌==◌, list_eq,
  ℕ-eq, if◌then◌else◌,
}
use onix_core.Base.Results.{Result, ok, err, ◌>>=◌, ◌>>◌, reject}
use onix_core.Base.Text.{Text}
use onix_core.HxOil.Types.{
  EntryKind, file, directory, Operation, create, rename, delete, Plan, Error, directory_not_empty,
  target_already_exists, rename_target_already_exists,
}
use onix_core.HxOil.Directory.{
  Node, Directory, find, remove_file, remove_dir, rename_entry, create_new, create_dir,
  is_directory_empty,
}

-- `current_paths`, the names in the snapshot of the directory.
unfoldable pub current_paths : Directory → List Text
current_paths dir = map (λ (name, _). name) dir

-- `delete_paths`.
unfoldable pub delete_paths : List Operation → List Text
delete_paths [] = []
delete_paths (delete path kind ∷ operations) = path ∷ delete_paths operations
delete_paths (create path kind ∷ operations) = delete_paths operations
delete_paths (rename from to kind ∷ operations) = delete_paths operations

-- The loop that refuses to delete a directory that is not empty.
unfoldable pub validate_deletes : Directory → List Operation → Result Error (Unit {0})
validate_deletes dir [] = ok tt
validate_deletes dir (delete path directory ∷ operations) = do
  empty ← is_directory_empty path dir
  reject (not empty) (directory_not_empty path)
  validate_deletes dir operations
validate_deletes dir (delete path file ∷ operations) = validate_deletes dir operations
validate_deletes dir (create path kind ∷ operations) = validate_deletes dir operations
validate_deletes dir (rename from to kind ∷ operations) = validate_deletes dir operations

-- The loop that refuses a target which is there and is not deleted.
unfoldable pub validate_targets : List Text → List Text → List Operation → Result Error (Unit {0})
validate_targets current deleted [] = ok tt
validate_targets current deleted (create path kind ∷ operations) = do
  reject (contains current path && not (contains deleted path)) (target_already_exists path)
  validate_targets current deleted operations
validate_targets current deleted (rename from to kind ∷ operations) = do
  reject (not (from == to) && (contains current to && not (contains deleted to)))
      (rename_target_already_exists to)
  validate_targets current deleted operations
validate_targets current deleted (delete path kind ∷ operations) =
    validate_targets current deleted operations

unfoldable pub validate_apply_targets : Directory → Plan → Result Error (Unit {0})
validate_apply_targets dir plan = do
  validate_deletes dir plan.operations
  validate_targets (current_paths dir) (delete_paths plan.operations) plan.operations

unfoldable pub delete_one : Text → EntryKind → Directory → Result Error Directory
delete_one path file dir = remove_file path dir
delete_one path directory dir = remove_dir path dir

unfoldable pub create_one : Text → EntryKind → Directory → Result Error Directory
create_one path file dir = create_new path dir
create_one path directory dir = create_dir path dir

-- The three loops of `execute_plan`, each over all operations.
unfoldable pub run_deletes : List Operation → Directory → Result Error Directory
run_deletes [] dir = ok dir
run_deletes (delete path kind ∷ operations) dir = do
  dir' ← delete_one path kind dir
  run_deletes operations dir'
run_deletes (create path kind ∷ operations) dir = run_deletes operations dir
run_deletes (rename from to kind ∷ operations) dir = run_deletes operations dir

unfoldable pub run_renames : List Operation → Directory → Result Error Directory
run_renames [] dir = ok dir
run_renames (rename from to kind ∷ operations) dir = do
  dir' ← rename_entry from to dir
  run_renames operations dir'
run_renames (create path kind ∷ operations) dir = run_renames operations dir
run_renames (delete path kind ∷ operations) dir = run_renames operations dir

unfoldable pub run_creates : List Operation → Directory → Result Error Directory
run_creates [] dir = ok dir
run_creates (create path kind ∷ operations) dir = do
  dir' ← create_one path kind dir
  run_creates operations dir'
run_creates (rename from to kind ∷ operations) dir = run_creates operations dir
run_creates (delete path kind ∷ operations) dir = run_creates operations dir

unfoldable pub execute_plan : Directory → Plan → Result Error Directory
execute_plan dir plan = do
  deleted ← run_deletes plan.operations dir
  renamed ← run_renames plan.operations deleted
  run_creates plan.operations renamed
