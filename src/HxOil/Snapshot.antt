-- ===== src/HxOil/Snapshot.antt =====
-- `collect_snapshot_with_ids`: from the entries that `read_dir` gives to a snapshot with ids.
pub mod Ids
pub mod Sorted
use Prim.Native.Nat.{◌%◌}
use onix_core.Base.{
  ℕ, ◌+◌, Bool, true, false, Option, none, some, List, [], ◌∷◌, ◌&&◌, ◌||◌, nat_eq, ltb, leb,
  if◌then◌else◌, ◌==◌, list_eq, ℕ-eq,
}
use onix_core.Base.Results.{Result, ok, err, ◌>>=◌}
use onix_core.Base.Sort.{sort}
use onix_core.Base.Text.{Text, text_lt}
use onix_core.HxOil.Types.{
  EntryKind, file, directory, kind_eq, SnapshotEntry, Error, non_utf8_entry,
}

-- What the system says of an entry; a name that is not UTF-8 is none.
pub record Listed : Type 0 where
  pub name : Option Text
  pub kind : EntryKind
  pub mtime_ns : ℕ
  pub size : ℕ

unfoldable pub listed_entry : Listed → Result Error SnapshotEntry
listed_entry listed = elim listed.name [
  | none ↦ err non_utf8_entry
  | some name ↦ ok (record {
    id = 0;
    index = 0;
    relative_path = name;
    kind = listed.kind;
    mtime_ns = listed.mtime_ns;
    size = listed.size;
  })
]

unfoldable pub listed_entries : List Listed → Result Error (List SnapshotEntry)
unfolding listed_entry
listed_entries [] = ok []
listed_entries (listed ∷ others) = do
  e ← listed_entry listed
  rest ← listed_entries others
  ok (e ∷ rest)

unfoldable pub kind_sort_key : EntryKind → ℕ
kind_sort_key directory = 0
kind_sort_key file = 1

-- The comparison of `sort_by`: directories first, then by name.
unfoldable pub entry_lt : SnapshotEntry → SnapshotEntry → Bool
unfolding kind_sort_key
entry_lt a b =
    ltb (kind_sort_key a.kind) (kind_sort_key b.kind)
    || (nat_eq (kind_sort_key a.kind) (kind_sort_key b.kind)
        && text_lt a.relative_path b.relative_path)

abbrev pub same_entry : SnapshotEntry → SnapshotEntry → Bool
same_entry a b = a.relative_path == b.relative_path && a.kind == b.kind

-- The id that `previous_ids` has for the entry: of equal keys the last one counts.
unfoldable pub previous_id : List SnapshotEntry → SnapshotEntry → Option ℕ
previous_id [] e = none
previous_id (p ∷ ps) e =
    let later = previous_id ps e in
    elim later [ some id ↦ some id | none ↦ if same_entry p e then some p.id else none ]

unfoldable pub max_id : List SnapshotEntry → ℕ
max_id [] = 0
max_id (p ∷ ps) = let rest = max_id ps in if leb p.id rest then rest else p.id

-- `n + 1` on u64.
abbrev pub word : ℕ
word = 18_446_744_073_709_551_616

abbrev pub increment : ℕ → ℕ
increment n = (n + 1) % word

unfoldable pub first_id : List SnapshotEntry → ℕ → ℕ
unfolding max_id
first_id previous next_id =
    let next = if nat_eq next_id 0 then 1 else next_id in
    if leb next (max_id previous) then increment (max_id previous) else next

abbrev pub with_id : ℕ → ℕ → SnapshotEntry → SnapshotEntry
with_id id index e = record {
  id = id;
  index = index;
  relative_path = e.relative_path;
  kind = e.kind;
  mtime_ns = e.mtime_ns;
  size = e.size;
}

-- The last loop: each entry's index and id, with the next free id.
unfoldable pub assign_ids : List SnapshotEntry → ℕ → ℕ → List SnapshotEntry → List SnapshotEntry × ℕ
unfolding previous_id
assign_ids previous index next [] = ([], next)
assign_ids previous index next (e ∷ es) =
    let fresh = assign_ids previous (index + 1) (increment next) es in
    let known = assign_ids previous (index + 1) next es in
    elim (previous_id previous e) [
      | some id ↦ (with_id id index e ∷ known.0, known.1)
      | none ↦ (with_id next index e ∷ fresh.0, fresh.1)
    ]

unfoldable pub collect_snapshot_with_ids :
    List Listed → List SnapshotEntry → ℕ → Result Error (List SnapshotEntry × ℕ)
unfolding listed_entries sort entry_lt first_id assign_ids
collect_snapshot_with_ids listing previous next_id = do
  entries ← listed_entries listing
  ok (assign_ids previous 0 (first_id previous next_id) (sort entry_lt entries))
