-- ===== src/HxOil/Plan/Align.antt =====
-- What a plan has to be: an edit script that aligns the snapshot with the edited entries in order.
use onix_core.Base.{List, [], ◌∷◌, ◌++◌, ◌≡◌, ◌≢◌}
use onix_core.HxOil.Types.{SnapshotEntry, ManifestEntry, Operation, create, rename, delete}

-- Every snapshot entry is kept, renamed or deleted and every edited entry is kept, the target of a
-- rename or created. What is kept agrees in name and kind, and a rename keeps the kind and changes
-- the name.
pub data Align : List SnapshotEntry → List ManifestEntry → List Operation → Type 0 where
  done : Align [] [] []
  keep :
      {o : SnapshotEntry} {e : ManifestEntry} {os : List SnapshotEntry} {es : List ManifestEntry}
      {ops : List Operation}
      → o.relative_path ≡ e.relative_path
      → o.kind ≡ e.kind
      → Align os es ops
      → Align (o ∷ os) (e ∷ es) ops
  created :
      {e : ManifestEntry} {os : List SnapshotEntry} {es : List ManifestEntry} {ops : List Operation}
      → Align os es ops
      → Align os (e ∷ es) (create e.relative_path e.kind ∷ ops)
  deleted :
      {o : SnapshotEntry} {os : List SnapshotEntry} {es : List ManifestEntry} {ops : List Operation}
      → Align os es ops
      → Align (o ∷ os) es (delete o.relative_path o.kind ∷ ops)
  renamed :
      {o : SnapshotEntry} {e : ManifestEntry} {os : List SnapshotEntry} {es : List ManifestEntry}
      {ops : List Operation}
      → o.relative_path ≢ e.relative_path
      → o.kind ≡ e.kind
      → Align os es ops
      → Align (o ∷ os) (e ∷ es) (rename o.relative_path e.relative_path o.kind ∷ ops)

pub Align-append :
    {os us : List SnapshotEntry} {es fs : List ManifestEntry} {ops qs : List Operation}
    → Align os es ops
    → Align us fs qs
    → Align (os ++ us) (es ++ fs) (ops ++ qs)
Align-append done b = b
Align-append (keep p q a) b = keep p q (Align-append a b)
Align-append (created a) b = created (Align-append a b)
Align-append (deleted a) b = deleted (Align-append a b)
Align-append (renamed p q a) b = renamed p q (Align-append a b)
