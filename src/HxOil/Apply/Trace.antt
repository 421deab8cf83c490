-- ===== src/HxOil/Apply/Trace.antt =====
-- What an edit script does to one name.
use onix_core.Base.{
  Bool, false, Option, none, some, List, [], ◌∷◌, ◌≡◌, refl, arith, ◌||◌, ◌==◌, list_eq, ℕ-eq,
  if◌then◌else◌,
}
use onix_core.Base.Text.{Text}
use onix_core.HxOil.Types.{
  EntryKind, SnapshotEntry, ManifestEntry, Operation, create, rename, delete, text_iff,
}
use onix_core.HxOil.Plan.Align.{Align, done, keep, created, deleted, renamed}

unfoldable pub snapshot_kind : Text → List SnapshotEntry → Option EntryKind
snapshot_kind n [] = none
snapshot_kind n (o ∷ os) = if o.relative_path == n then some o.kind else snapshot_kind n os

unfoldable pub edited_kind : Text → List ManifestEntry → Option EntryKind
edited_kind n [] = none
edited_kind n (e ∷ es) = if e.relative_path == n then some e.kind else edited_kind n es

abbrev pub DistinctSnapshot : List SnapshotEntry → Type 0
DistinctSnapshot [] = Unit
DistinctSnapshot (o ∷ os) = (snapshot_kind o.relative_path os ≡ none) × DistinctSnapshot os

abbrev pub DistinctEdited : List ManifestEntry → Type 0
DistinctEdited [] = Unit
DistinctEdited (e ∷ es) = (edited_kind e.relative_path es ≡ none) × DistinctEdited es

unfoldable pub is_deleted : Text → List Operation → Bool
is_deleted n [] = false
is_deleted n (delete p k ∷ ops) = p == n || is_deleted n ops
is_deleted n (create p k ∷ ops) = is_deleted n ops
is_deleted n (rename f t k ∷ ops) = is_deleted n ops

unfoldable pub is_moved : Text → List Operation → Bool
is_moved n [] = false
is_moved n (rename f t k ∷ ops) = f == n || is_moved n ops
is_moved n (create p k ∷ ops) = is_moved n ops
is_moved n (delete p k ∷ ops) = is_moved n ops

unfoldable pub moved_kind : Text → List Operation → Option EntryKind
moved_kind n [] = none
moved_kind n (rename f t k ∷ ops) = if t == n then some k else moved_kind n ops
moved_kind n (create p k ∷ ops) = moved_kind n ops
moved_kind n (delete p k ∷ ops) = moved_kind n ops

unfoldable pub created_kind : Text → List Operation → Option EntryKind
created_kind n [] = none
created_kind n (create p k ∷ ops) = if p == n then some k else created_kind n ops
created_kind n (rename f t k ∷ ops) = created_kind n ops
created_kind n (delete p k ∷ ops) = created_kind n ops

abbrev pub or_else : Option EntryKind → Option EntryKind → Option EntryKind
or_else (some k) later = some k
or_else none later = later

module _ (n : Text) where
  -- A name that the snapshot lacks is neither deleted nor renamed away.
  pub Align-absent :
      {os : List SnapshotEntry} {es : List ManifestEntry} {ops : List Operation}
      → Align os es ops
      → snapshot_kind n os ≡ none
      → (is_deleted n ops ≡ false) × (is_moved n ops ≡ false)
  unfolding snapshot_kind is_deleted is_moved
  Align-absent done h = (refl, refl)
  Align-absent (keep p q a) h = Align-absent a (ground arith)
  Align-absent (created a) h = Align-absent a h
  Align-absent (deleted a) h = ground (arith, Align-absent a)
  Align-absent (renamed p q a) h = ground (arith, Align-absent a)

  -- A name that the edited entries lack is neither created nor renamed to.
  pub Align-unwanted :
      {os : List SnapshotEntry} {es : List ManifestEntry} {ops : List Operation}
      → Align os es ops
      → edited_kind n es ≡ none
      → (created_kind n ops ≡ none) × (moved_kind n ops ≡ none)
  unfolding edited_kind created_kind moved_kind
  Align-unwanted done h = (refl, refl)
  Align-unwanted (keep p q a) h = Align-unwanted a (ground arith)
  Align-unwanted (created a) h = ground (arith, Align-unwanted a)
  Align-unwanted (deleted a) h = Align-unwanted a h
  Align-unwanted (renamed p q a) h = ground (arith, Align-unwanted a)

  -- The script leads from the snapshot to the edited entries.
  pub Align-kind :
      {os : List SnapshotEntry} {es : List ManifestEntry} {ops : List Operation}
      → Align os es ops
      → DistinctSnapshot os
      → DistinctEdited es
      → or_else (created_kind n ops) (
          or_else (moved_kind n ops) (
            if is_moved n ops
            then none
            else (if is_deleted n ops then none else snapshot_kind n os)))
        ≡ edited_kind n es
  unfolding snapshot_kind edited_kind is_deleted is_moved created_kind moved_kind
  Align-kind done ds de = refl
  Align-kind (keep {o} {e} p q a) ds de = ground (
    arith,
    Align-kind a ds.1 de.1,
    Align-absent a,
    Align-unwanted a,
    text_iff o.relative_path n,
    text_iff e.relative_path n,
  )
  Align-kind (created {e} a) ds de =
      ground
        (arith, Align-kind a ds de.1, Align-absent a, Align-unwanted a, text_iff e.relative_path n)
  Align-kind (deleted {o} a) ds de =
      ground
        (arith, Align-kind a ds.1 de, Align-absent a, Align-unwanted a, text_iff o.relative_path n)
  Align-kind (renamed {o} {e} p q a) ds de = ground (
    arith,
    Align-kind a ds.1 de.1,
    Align-absent a,
    Align-unwanted a,
    text_iff o.relative_path n,
    text_iff e.relative_path n,
  )
