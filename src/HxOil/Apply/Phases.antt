-- ===== src/HxOil/Apply/Phases.antt =====
-- Each of the three loops of `execute_plan` of `pkgs/hx-oil/src/lib.rs` completes where its
-- operations fit the directory, and what it does to each name.
use onix_core.Base.{
  false, Option, none, some, List, [], ◌∷◌, ◌≡◌, refl, arith, ◌==◌, list_eq, ℕ-eq, if◌then◌else◌,
}
use onix_core.Base.Results.{ok}
use onix_core.Base.Text.{Text}
use onix_core.HxOil.Types.{EntryKind, file, directory, Operation, create, rename, delete, text_iff}
use onix_core.HxOil.Directory.{
  Node, file_node, empty_directory, node_kind, Directory, find, erase, remove_file, remove_dir,
  rename_entry, create_new, create_dir,
}
use onix_core.HxOil.Directory.Laws.{find-erase}
use onix_core.HxOil.Apply.{delete_one, create_one, run_deletes, run_renames, run_creates}
use onix_core.HxOil.Apply.Trace.{is_deleted, is_moved, moved_kind, created_kind, or_else}

abbrev pub kind_of : Option Node → Option EntryKind
kind_of none = none
kind_of (some node) = some (node_kind node)

abbrev pub kind_in : Text → Directory → Option EntryKind
kind_in n dir = kind_of (find n dir)

-- What a deletion may remove.
abbrev pub removable : EntryKind → Node
removable file = file_node
removable directory = empty_directory

-- Every deletion finds what it may remove, and no name is deleted twice.
abbrev pub CanDelete : Directory → List Operation → Type 0
CanDelete dir [] = Unit
CanDelete dir (delete p k ∷ ops) =
    (find p dir ≡ some (removable k)) × (is_deleted p ops ≡ false) × CanDelete dir ops
CanDelete dir (create p k ∷ ops) = CanDelete dir ops
CanDelete dir (rename f t k ∷ ops) = CanDelete dir ops

CanDelete-erase :
    (q : Text) (dir : Directory) (ops : List Operation)
    → is_deleted q ops ≡ false
    → CanDelete dir ops
    → CanDelete (erase q dir) ops
unfolding is_deleted
CanDelete-erase q dir [] h c = tt
CanDelete-erase q dir (delete p k ∷ ops) h c = (
  ground (arith, find-erase p q dir, text_iff p q, text_iff q p),
  c.1,
  CanDelete-erase q dir ops (ground arith) c.2,
)
CanDelete-erase q dir (create p k ∷ ops) h c = CanDelete-erase q dir ops h c
CanDelete-erase q dir (rename f t k ∷ ops) h c = CanDelete-erase q dir ops h c

delete_one_lem :
    (p : Text) (k : EntryKind) (dir : Directory)
    → find p dir ≡ some (removable k)
    → delete_one p k dir ≡ ok (erase p dir)
unfolding delete_one remove_file remove_dir
delete_one_lem p file dir h = rw h
delete_one_lem p directory dir h = rw h

pub run_deletes_lem :
    (ops : List Operation) (dir : Directory)
    → CanDelete dir ops
    → (dir' : Directory) × (run_deletes ops dir ≡ ok dir')
      × ((n : Text) → find n dir' ≡ (if is_deleted n ops then none else find n dir))
unfolding run_deletes is_deleted
run_deletes_lem [] dir c = (dir, refl, λ n. refl)
run_deletes_lem (delete p k ∷ ops) dir c =
    let (dir', ran, effect) =
      run_deletes_lem ops (erase p dir) (CanDelete-erase p dir ops c.1 c.2) in
    (dir', rw (delete_one_lem p k dir c.0) ran, λ n. ground (arith, effect n, find-erase n p dir))
run_deletes_lem (create p k ∷ ops) dir c = run_deletes_lem ops dir c
run_deletes_lem (rename f t k ∷ ops) dir c = run_deletes_lem ops dir c

-- Every rename finds its source, of its kind, and no target; no source and no target comes twice.
abbrev pub CanRename : Directory → List Operation → Type 0
CanRename dir [] = Unit
CanRename dir (rename f t k ∷ ops) =
    (kind_in f dir ≡ some k)
    × (find t dir ≡ none)
    × (is_moved f ops ≡ false)
    × (moved_kind t ops ≡ none)
    × CanRename dir ops
CanRename dir (create p k ∷ ops) = CanRename dir ops
CanRename dir (delete p k ∷ ops) = CanRename dir ops

abbrev moved : Text → Text → Node → Directory → Directory
moved f t node dir = (t, node) ∷ erase f dir

find-moved :
    (n f t : Text) (node : Node) (dir : Directory)
    → find n (moved f t node dir)
      ≡ (if t == n then some node else (if f == n then none else find n dir))
unfolding find
find-moved n f t node dir = ground (arith, find-erase n f dir)

CanRename-moved :
    (f t : Text) (node : Node) (dir : Directory) (ops : List Operation)
    → find t dir ≡ none
    → is_moved f ops ≡ false
    → moved_kind t ops ≡ none
    → CanRename dir ops
    → CanRename (moved f t node dir) ops
unfolding is_moved moved_kind
CanRename-moved f t node dir [] free once single c = tt
CanRename-moved f t node dir (rename g u k ∷ ops) free once single c = (
  ground (arith, find-moved g f t node dir, text_iff t g, text_iff f g, text_iff g f, c.0),
  ground (arith, find-moved u f t node dir, text_iff t u, text_iff u t, c.1),
  c.2,
  c.3,
  CanRename-moved f t node dir ops free (ground arith) (ground arith) c.4,
)
CanRename-moved f t node dir (create p k ∷ ops) free once single c =
    CanRename-moved f t node dir ops free once single c
CanRename-moved f t node dir (delete p k ∷ ops) free once single c =
    CanRename-moved f t node dir ops free once single c

some_node :
    (o : Option Node) (k : EntryKind)
    → kind_of o ≡ some k
    → (node : Node) × (o ≡ some node) × (node_kind node ≡ k)
some_node none k h = cc
some_node (some node) k h = (node, refl, ground arith)

rename_entry_lem :
    (f t : Text) (node : Node) (dir : Directory)
    → find f dir ≡ some node
    → find t dir ≡ none
    → rename_entry f t dir ≡ ok (moved f t node dir)
unfolding rename_entry
rename_entry_lem f t node dir h k = ground (arith, text_iff f t)

-- A free name is no source.
unmoved_of_free :
    (t : Text) (dir : Directory) (ops : List Operation)
    → find t dir ≡ none
    → CanRename dir ops
    → is_moved t ops ≡ false
unfolding is_moved
unmoved_of_free t dir [] free c = refl
unmoved_of_free t dir (rename g u k ∷ ops) free c =
    ground (arith, unmoved_of_free t dir ops free c.4, text_iff g t, c.0)
unmoved_of_free t dir (create p k ∷ ops) free c = unmoved_of_free t dir ops free c
unmoved_of_free t dir (delete p k ∷ ops) free c = unmoved_of_free t dir ops free c

pub run_renames_lem :
    (ops : List Operation) (dir : Directory)
    → CanRename dir ops
    → (dir' : Directory) × (run_renames ops dir ≡ ok dir')
      × ((n : Text)
          → kind_in n dir'
            ≡ or_else (moved_kind n ops) (if is_moved n ops then none else kind_in n dir))
unfolding run_renames is_moved moved_kind
run_renames_lem [] dir c = (dir, refl, λ n. refl)
run_renames_lem (rename f t k ∷ ops) dir c =
    let (node, found, kind) = some_node (find f dir) k c.0 in
    let (dir', ran, effect) =
      run_renames_lem ops (moved f t node dir) (CanRename-moved f t node dir ops c.1 c.2 c.3 c.4) in
    (
      dir',
      rw (rename_entry_lem f t node dir found c.1) ran,
      λ n. ground (
        arith,
        effect n,
        find-moved n f t node dir,
        kind,
        text_iff t n,
        c.3,
        unmoved_of_free t dir ops c.1 c.4,
      ),
    )
run_renames_lem (create p k ∷ ops) dir c = run_renames_lem ops dir c
run_renames_lem (delete p k ∷ ops) dir c = run_renames_lem ops dir c

-- Every creation finds its name free, and no name is created twice.
abbrev pub CanCreate : Directory → List Operation → Type 0
CanCreate dir [] = Unit
CanCreate dir (create p k ∷ ops) =
    (find p dir ≡ none) × (created_kind p ops ≡ none) × CanCreate dir ops
CanCreate dir (rename f t k ∷ ops) = CanCreate dir ops
CanCreate dir (delete p k ∷ ops) = CanCreate dir ops

-- What a creation makes.
abbrev fresh : EntryKind → Node
fresh file = file_node
fresh directory = empty_directory

create_one_lem :
    (p : Text) (k : EntryKind) (dir : Directory)
    → find p dir ≡ none
    → create_one p k dir ≡ ok ((p, fresh k) ∷ dir)
unfolding create_one create_new create_dir
create_one_lem p file dir h = rw h
create_one_lem p directory dir h = rw h

kind-fresh : (k : EntryKind) → node_kind (fresh k) ≡ k
kind-fresh file = refl
kind-fresh directory = refl

CanCreate-cons :
    (q : Text) (node : Node) (dir : Directory) (ops : List Operation)
    → created_kind q ops ≡ none
    → CanCreate dir ops
    → CanCreate ((q, node) ∷ dir) ops
unfolding created_kind find
CanCreate-cons q node dir [] single c = tt
CanCreate-cons q node dir (create p k ∷ ops) single c = (
  ground (arith, text_iff q p, text_iff p q, c.0),
  c.1,
  CanCreate-cons q node dir ops (ground arith) c.2,
)
CanCreate-cons q node dir (rename f t k ∷ ops) single c = CanCreate-cons q node dir ops single c
CanCreate-cons q node dir (delete p k ∷ ops) single c = CanCreate-cons q node dir ops single c

pub run_creates_lem :
    (ops : List Operation) (dir : Directory)
    → CanCreate dir ops
    → (dir' : Directory) × (run_creates ops dir ≡ ok dir')
      × ((n : Text) → kind_in n dir' ≡ or_else (created_kind n ops) (kind_in n dir))
unfolding run_creates created_kind find
run_creates_lem [] dir c = (dir, refl, λ n. refl)
run_creates_lem (create p k ∷ ops) dir c =
    let (dir', ran, effect) =
      run_creates_lem ops ((p, fresh k) ∷ dir) (CanCreate-cons p (fresh k) dir ops c.1 c.2) in
    (
      dir',
      rw (create_one_lem p k dir c.0) ran,
      λ n. ground (arith, effect n, kind-fresh k, text_iff p n, c.1),
    )
run_creates_lem (rename f t k ∷ ops) dir c = run_creates_lem ops dir c
run_creates_lem (delete p k ∷ ops) dir c = run_creates_lem ops dir c
