-- ===== src/HxOil/Directory.antt =====
-- One directory, as hx-oil sees it through `std::fs`: its entries by name. A subdirectory shows only
-- whether it is empty.
pub mod Laws
use onix_core.Base.{
  Bool, true, false, Option, none, some, List, [], ◌∷◌, not, ◌==◌, list_eq, ℕ-eq, if◌then◌else◌,
}
use onix_core.Base.Results.{Result, ok, err}
use onix_core.Base.Text.{Text}
use onix_core.HxOil.Types.{
  EntryKind, file, directory, Error, failed_to_delete, failed_to_rename, failed_to_create,
  failed_to_read,
}

pub data Node : Type 0 where
  file_node empty_directory full_directory : Node

abbrev pub node_kind : Node → EntryKind
node_kind file_node = file
node_kind empty_directory = directory
node_kind full_directory = directory

abbrev pub Directory : Type 0
Directory = List (Text × Node)

unfoldable pub find : Text → Directory → Option Node
find name [] = none
find name ((n, node) ∷ dir) = if n == name then some node else find name dir

unfoldable pub erase : Text → Directory → Directory
erase name [] = []
erase name ((n, node) ∷ dir) =
    let rest = erase name dir in if n == name then rest else (n, node) ∷ rest

remove_file_node : Option Node → Text → Directory → Result Error Directory
remove_file_node (some file_node) name dir = ok (erase name dir)
remove_file_node _ name dir = err (failed_to_delete name)

-- `fs::remove_file`: fails on an absent name and on a directory.
unfoldable pub remove_file : Text → Directory → Result Error Directory
unfolding remove_file_node
remove_file name dir = remove_file_node (find name dir) name dir

remove_dir_node : Option Node → Text → Directory → Result Error Directory
remove_dir_node (some empty_directory) name dir = ok (erase name dir)
remove_dir_node _ name dir = err (failed_to_delete name)

-- `fs::remove_dir`: fails on an absent name, on a file and on a directory that is not empty.
unfoldable pub remove_dir : Text → Directory → Result Error Directory
unfolding remove_dir_node
remove_dir name dir = remove_dir_node (find name dir) name dir

-- A rename replaces a file by a file and an empty directory by a directory.
abbrev replaceable : Node → Node → Bool
replaceable file_node file_node = true
replaceable file_node _ = false
replaceable _ empty_directory = true
replaceable _ _ = false

rename_onto : Option Node → Text → Text → Node → Directory → Result Error Directory
rename_onto none from to node dir = ok ((to, node) ∷ erase from dir)
rename_onto (some old) from to node dir =
    if replaceable node old
    then ok ((to, node) ∷ erase to (erase from dir))
    else err (failed_to_rename from to)

rename_node : Option Node → Text → Text → Directory → Result Error Directory
rename_node none from to dir = err (failed_to_rename from to)
rename_node (some node) from to dir =
    if from == to then ok dir else rename_onto (find to dir) from to node dir

-- `fs::rename` within the directory: fails on an absent source and on an old target that it cannot
-- replace; nothing changes where both names are one.
unfoldable pub rename_entry : Text → Text → Directory → Result Error Directory
unfolding rename_node rename_onto
rename_entry from to dir = rename_node (find from dir) from to dir

create_node : Option Node → Text → Node → Directory → Result Error Directory
create_node none name node dir = ok ((name, node) ∷ dir)
create_node (some old) name node dir = err (failed_to_create name)

-- `OpenOptions::create_new` and `fs::create_dir`: fail on a name that is there.
unfoldable pub create_new : Text → Directory → Result Error Directory
unfolding create_node
create_new name dir = create_node (find name dir) name file_node dir

unfoldable pub create_dir : Text → Directory → Result Error Directory
unfolding create_node
create_dir name dir = create_node (find name dir) name empty_directory dir

empty_node : Option Node → Text → Result Error Bool
empty_node (some empty_directory) name = ok true
empty_node (some full_directory) name = ok false
empty_node _ name = err (failed_to_read name)

-- `is_directory_empty`: fails where the name is no directory.
unfoldable pub is_directory_empty : Text → Directory → Result Error Bool
unfolding empty_node
is_directory_empty name dir = empty_node (find name dir) name
