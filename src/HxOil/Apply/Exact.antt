-- ===== src/HxOil/Apply/Exact.antt =====
-- Applying a validated plan to a directory that still is its snapshot: `build_plan`,
-- `validate_apply_targets` and `execute_plan` of `pkgs/hx-oil/src/lib.rs` together.
use onix_core.Base.{
  Bool, false, Option, none, some, List, [], ◌∷◌, All, not, ◌&&◌, ◌≡◌, refl, ◌∙◌, ◌⊎◌, inl, inr,
  arith, Bool-cases, ◌==◌, contains, list_eq, ℕ-eq, if◌then◌else◌,
}
use onix_core.Base.Results.{ok, >>=-eq-ok}
use onix_core.Base.Text.{Text}
use onix_core.HxOil.Types.{
  EntryKind, file, directory, SnapshotEntry, ManifestEntry, Operation, create, rename, delete, Plan,
  text_iff,
}
use onix_core.HxOil.Plan.{build_plan}
use onix_core.HxOil.Plan.Align.{Align, done, keep, created, deleted, renamed}
use onix_core.HxOil.Plan.Sound.{build_plan-Align}
use onix_core.HxOil.Directory.{
  Node, file_node, empty_directory, full_directory, Directory, find, is_directory_empty,
}
use onix_core.HxOil.Apply.{
  current_paths, delete_paths, validate_deletes, validate_targets, validate_apply_targets,
  execute_plan,
}
use onix_core.HxOil.Apply.Trace.{
  snapshot_kind, edited_kind, DistinctSnapshot, DistinctEdited, is_deleted, is_moved, moved_kind,
  or_else, Align-absent, Align-unwanted, Align-kind,
}
use onix_core.HxOil.Apply.Phases.{
  kind_of, kind_in, removable, CanDelete, CanRename, CanCreate, run_deletes_lem, run_renames_lem,
  run_creates_lem,
}

contains-current_paths :
    (n : Text) (dir : Directory) → contains (current_paths dir) n ≡ false → find n dir ≡ none
unfolding contains current_paths find
contains-current_paths n [] h = refl
contains-current_paths n ((m, node) ∷ dir) h = ground (arith, contains-current_paths n dir)

contains-delete_paths :
    (n : Text) (ops : List Operation) → contains (delete_paths ops) n ≡ is_deleted n ops
unfolding contains delete_paths is_deleted
contains-delete_paths n [] = refl
contains-delete_paths n (delete p k ∷ ops) = ground (arith, contains-delete_paths n ops)
contains-delete_paths n (create p k ∷ ops) = contains-delete_paths n ops
contains-delete_paths n (rename f t k ∷ ops) = contains-delete_paths n ops

file_of_kind : (o : Option Node) → kind_of o ≡ some file → o ≡ some file_node
file_of_kind none h = cc
file_of_kind (some file_node) h = refl
file_of_kind (some empty_directory) h = cc
file_of_kind (some full_directory) h = cc

-- A name behind the head of a snapshot, for a property that holds of every name in the snapshot.
behind :
    (n : Text) (o : SnapshotEntry) (os : List SnapshotEntry) {d d' d'' : Bool}
    → snapshot_kind o.relative_path os ≡ none
    → (snapshot_kind n (o ∷ os) ≡ none) ⊎ (d ≡ d')
    → ((o.relative_path == n) ≡ false → d' ≡ d'')
    → (snapshot_kind n os ≡ none) ⊎ (d ≡ d'')
unfolding snapshot_kind
behind n o os once h f = elim (Bool-cases (o.relative_path == n)) [
  | inl same ↦ inl (ground (arith, text_iff o.relative_path n))
  | inr other ↦ elim h [ inl absent ↦ inl (ground arith) | inr e ↦ inr (e ∙ f other) ]
]

behind_edited :
    (n : Text) (e : ManifestEntry) (es : List ManifestEntry) {d d' d'' : Option EntryKind}
    → edited_kind e.relative_path es ≡ none
    → (edited_kind n (e ∷ es) ≡ none) ⊎ (d ≡ d')
    → ((e.relative_path == n) ≡ false → d' ≡ d'')
    → (edited_kind n es ≡ none) ⊎ (d ≡ d'')
unfolding edited_kind
behind_edited n e es once h f = elim (Bool-cases (e.relative_path == n)) [
  | inl same ↦ inl (ground (arith, text_iff e.relative_path n))
  | inr other ↦ elim h [ inl absent ↦ inl (ground arith) | inr same ↦ inr (same ∙ f other) ]
]

-- The head of a snapshot is in it.
head_known :
    (o : SnapshotEntry) (os : List SnapshotEntry) {d d' : Bool}
    → (snapshot_kind o.relative_path (o ∷ os) ≡ none) ⊎ (d ≡ d')
    → d ≡ d'
unfolding snapshot_kind
head_known o os h = ground (arith, text_iff o.relative_path o.relative_path)

head_wanted :
    (e : ManifestEntry) (es : List ManifestEntry) {d d' : Option EntryKind}
    → (edited_kind e.relative_path (e ∷ es) ≡ none) ⊎ (d ≡ d')
    → d ≡ d'
unfolding edited_kind
head_wanted e es h = ground (arith, text_iff e.relative_path e.relative_path)

none_of_kind : (o : Option Node) → kind_of o ≡ none → o ≡ none
none_of_kind none h = refl
none_of_kind (some node) h = cc

module _ (dir : Directory) where
  abbrev InDirectory : List SnapshotEntry → Type 0
  InDirectory = All (λ o. kind_in o.relative_path dir ≡ some o.kind)

  deletable :
      (p : Text) (k : EntryKind) (ops : List Operation)
      → kind_in p dir ≡ some k
      → validate_deletes dir (delete p k ∷ ops) ≡ ok tt
      → (find p dir ≡ some (removable k)) × (validate_deletes dir ops ≡ ok tt)
  unfolding validate_deletes is_directory_empty
  deletable p file ops h v = (file_of_kind (find p dir) h, v)
  deletable p directory ops h v = (ground arith, ground arith)

  can_delete :
      {os : List SnapshotEntry} {es : List ManifestEntry} {ops : List Operation}
      → Align os es ops
      → DistinctSnapshot os
      → InDirectory os
      → validate_deletes dir ops ≡ ok tt
      → CanDelete dir ops
  unfolding validate_deletes
  can_delete done ds i v = tt
  can_delete (keep p q a) ds i v = can_delete a ds.1 i.1 v
  can_delete (created a) ds i v = can_delete a ds i v
  can_delete (deleted {o} {ops} a) ds i v =
      let (found, rest) = deletable o.relative_path o.kind ops i.0 v in
      (found, (Align-absent o.relative_path a ds.0).0, can_delete a ds.1 i.1 rest)
  can_delete (renamed p q a) ds i v = can_delete a ds.1 i.1 v

  -- The directory after the deletions of a whole script.
  module _ (all_ops : List Operation) (dir₁ : Directory)
      (effect : (n : Text)
        → find n dir₁ ≡ (if is_deleted n all_ops then none else find n dir)) where
    free :
        (n : Text)
        → (contains (current_paths dir) n && not (contains (delete_paths all_ops) n)) ≡ false
        → find n dir₁ ≡ none
    free n h =
        ground (arith, effect n, contains-current_paths n dir, contains-delete_paths n all_ops)

    can_rename :
        {os : List SnapshotEntry} {es : List ManifestEntry} {ops : List Operation}
        → Align os es ops
        → DistinctSnapshot os
        → DistinctEdited es
        → InDirectory os
        → ((n : Text) → (snapshot_kind n os ≡ none) ⊎ (is_deleted n all_ops ≡ is_deleted n ops))
        → validate_targets (current_paths dir) (delete_paths all_ops) ops ≡ ok tt
        → CanRename dir₁ ops
    unfolding validate_targets is_deleted
    can_rename done ds de i h v = tt
    can_rename (keep {o} {os} p q a) ds de i h v =
        can_rename a ds.1 de.1 i.1 (λ n. behind n o os ds.0 (h n) (λ _. refl)) v
    can_rename (created a) ds de i h v = can_rename a ds de.1 i h (ground arith)
    can_rename (deleted {o} {os} a) ds de i h v =
        can_rename a ds.1 de i.1 (λ n. behind n o os ds.0 (h n) (λ other. ground arith)) v
    can_rename (renamed {o} {e} {os} {ops} p q a) ds de i h v = (
      ground (
        arith,
        effect o.relative_path,
        head_known o os (h o.relative_path),
        (Align-absent o.relative_path a ds.0).0,
        i.0,
      ),
      free e.relative_path (ground (arith, text_iff o.relative_path e.relative_path)),
      (Align-absent o.relative_path a ds.0).1,
      (Align-unwanted e.relative_path a de.0).1,
      can_rename a ds.1 de.1 i.1 (λ n. behind n o os ds.0 (h n) (λ _. refl)) (ground arith),
    )

    module _ (dir₂ : Directory)
        (effect' : (n : Text)
          → kind_in n dir₂
            ≡ or_else
                (moved_kind n all_ops)
                (if is_moved n all_ops then none else kind_in n dir₁)) where
      can_create :
          {os : List SnapshotEntry} {es : List ManifestEntry} {ops : List Operation}
          → Align os es ops
          → DistinctEdited es
          → ((n : Text) → (edited_kind n es ≡ none) ⊎ (moved_kind n all_ops ≡ moved_kind n ops))
          → validate_targets (current_paths dir) (delete_paths all_ops) ops ≡ ok tt
          → CanCreate dir₂ ops
      unfolding validate_targets moved_kind
      can_create done de h v = tt
      can_create (keep {e} {es} p q a) de h v =
          can_create a de.1 (λ n. behind_edited n e es de.0 (h n) (λ _. refl)) v
      can_create (created {e} {es} a) de h v = (
        none_of_kind (find e.relative_path dir₂) (
            ground (
              arith,
              effect' e.relative_path,
              head_wanted e es (h e.relative_path),
              (Align-unwanted e.relative_path a de.0).1,
              free e.relative_path (ground arith),
            )),
        (Align-unwanted e.relative_path a de.0).0,
        can_create a de.1 (λ n. behind_edited n e es de.0 (h n) (λ _. refl)) (ground arith),
      )
      can_create (deleted a) de h v = can_create a de h v
      can_create (renamed {e} {es} p q a) de h v =
          can_create a de.1 (λ n. behind_edited n e es de.0 (h n) (λ other. ground arith))
            (ground arith)

-- The directory still is what the snapshot recorded, name by name and kind by kind.
abbrev pub IsSnapshotOf : List SnapshotEntry → Directory → Type 0
IsSnapshotOf original dir = (n : Text) → kind_in n dir ≡ snapshot_kind n original

listed_in :
    (original : List SnapshotEntry) (dir : Directory)
    → DistinctSnapshot original
    → ((n : Text) → (snapshot_kind n original ≡ none) ⊎ (kind_in n dir ≡ snapshot_kind n original))
    → InDirectory dir original
unfolding snapshot_kind
listed_in [] dir ds h = tt
listed_in (o ∷ os) dir ds h = (
  ground (arith, h o.relative_path, text_iff o.relative_path o.relative_path),
  listed_in os dir ds.1 (λ n. elim (Bool-cases (o.relative_path == n)) [
    | inl same ↦ inl (ground (arith, text_iff o.relative_path n, ds.0))
    | inr other ↦ elim (h n) [ inl absent ↦ inl (ground arith) | inr e ↦ inr (ground arith) ]
  ]),
)

-- In a directory that still is its snapshot, a plan that `build_plan` returns for edited entries
-- with distinct names and that passes `validate_apply_targets` is executed to its end, and the
-- directory then has exactly the edited entries, each of its kind.
pub execute_plan-build_plan :
    (base : Text) (original : List SnapshotEntry) (edited : List ManifestEntry) (plan : Plan)
    (dir : Directory)
    → DistinctSnapshot original
    → IsSnapshotOf original dir
    → DistinctEdited edited
    → build_plan base original edited ≡ ok plan
    → validate_apply_targets dir plan ≡ ok tt
    → (dir' : Directory) × (execute_plan dir plan ≡ ok dir')
      × ((n : Text) → kind_in n dir' ≡ edited_kind n edited)
unfolding validate_apply_targets execute_plan
execute_plan-build_plan base original edited plan dir ds here de built valid =
    let a = build_plan-Align base original edited plan built in
    let ops = plan.operations in
    let i = listed_in original dir ds (λ n. inr (here n)) in
    let (u, deletes, targets) = >>=-eq-ok (validate_deletes dir ops) _ valid in
    let (dir₁, ran₁, effect₁) = run_deletes_lem ops dir (can_delete dir a ds i deletes) in
    let (dir₂, ran₂, effect₂) =
      run_renames_lem ops dir₁
        (can_rename dir ops dir₁ effect₁ a ds de i (λ n. inr refl) targets) in
    let (dir₃, ran₃, effect₃) =
      run_creates_lem ops dir₂
        (can_create dir ops dir₁ effect₁ dir₂ effect₂ a de (λ n. inr refl) targets) in
    (
      dir₃,
      rw (ran₁, ran₂) ran₃,
      λ n. ground (arith, effect₃ n, effect₂ n, effect₁ n, here n, Align-kind n a ds de),
    )
