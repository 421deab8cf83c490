-- ===== src/HxOil/Snapshot/Sorted.antt =====
-- A collected snapshot: sorted, each entry with an id of its own, known entries with the old one.
use Prim.Native.Nat.{◌<◌}
use onix_core.Base.{
  ℕ, ◌+◌, true, false, some, List, [], ◌∷◌, ◌≡◌, ◌≢◌, inl, inr, refl, sym, ap, ◌∙◌, subst, All,
  arith, length, ltb, Bool-cases, Option-cases,
}
use onix_core.Base.Results.{ok_same, ok, >>=-eq-ok}
use onix_core.Base.Sort.{insert, sort}
use onix_core.Base.Sort.Distinct.{All-map}
use onix_core.Base.Sort.Rising
use onix_core.Base.Text.{text_lt}
use onix_core.Base.Text.Order.{text_lt-IsStrict, text_lt_total}
use onix_core.HxOil.Types.{SnapshotEntry}
use onix_core.HxOil.Snapshot.{
  Listed, listed_entry, listed_entries, kind_sort_key, entry_lt, same_entry, previous_id, max_id,
  word, increment, first_id, assign_ids, collect_snapshot_with_ids,
}
use onix_core.HxOil.Snapshot.Ids.{
  DistinctIds, DistinctEntries, same_entry_iff, Assigned, assign_ids-All, assign_ids-known,
  assign_ids-fresh, assign_ids-Assigned, assign_ids-DistinctIds,
}

-- A directory holds a name once.
abbrev pub DistinctNames : List Listed → Type 0
DistinctNames [] = Unit
DistinctNames (l ∷ ls) = All (λ (other : Listed). l.name ≢ other.name) ls × DistinctNames ls

entry_lt_trans :
    (a b c : SnapshotEntry) → entry_lt a b ≡ true → entry_lt b c ≡ true → entry_lt a c ≡ true
unfolding entry_lt
entry_lt_trans a b c h k =
    ground (arith, text_lt-IsStrict.trans a.relative_path b.relative_path c.relative_path)

entry_lt-same : (a b : SnapshotEntry) → entry_lt a b ≡ true → same_entry a b ≡ false
unfolding entry_lt
entry_lt-same a b h = elim (Bool-cases (same_entry a b)) [
  | inr other ↦ other
  | inl same ↦
      let (path, kind) = (same_entry_iff a b).0 same in
      let keys : kind_sort_key a.kind ≡ kind_sort_key b.kind = ap kind_sort_key kind in
      let below : text_lt a.relative_path b.relative_path ≡ true = ground arith in
      absurd (
        text_lt-IsStrict.irrefl b.relative_path
          (subst (λ p. text_lt p b.relative_path ≡ true) path below))
]

entry_lt_total :
    (a b : SnapshotEntry) → a.relative_path ≢ b.relative_path → Rising.Comparable entry_lt a b
unfolding entry_lt
entry_lt_total a b h = elim (text_lt_total a.relative_path b.relative_path h) [
  | inl before ↦ elim (Bool-cases (ltb (kind_sort_key b.kind) (kind_sort_key a.kind))) [
    | inl p ↦ inr (ground arith)
    | inr p ↦ inl (ground arith)
  ]
  | inr behind ↦ elim (Bool-cases (ltb (kind_sort_key a.kind) (kind_sort_key b.kind))) [
    | inl p ↦ inl (ground arith)
    | inr p ↦ inr (ground arith)
  ]
]

listed_name :
    (l : Listed) (e : SnapshotEntry) → listed_entry l ≡ ok e → l.name ≡ some e.relative_path
unfolding listed_entry
listed_name l e = elim (Option-cases l.name) [
  | inl unnamed ↦ rw (unnamed) (λ h. absurd (ground arith))
  | inr (name, named) ↦
      rw (named) (λ h. ap (λ (k : SnapshotEntry). some k.relative_path) (ok_same _ _ h))
]

-- The names of the entries are those of the listing, so none of them is the listed name `l`.
listed_apart :
    (l : Listed) (e : SnapshotEntry) (ls : List Listed) (es : List SnapshotEntry)
    → listed_entry l ≡ ok e
    → listed_entries ls ≡ ok es
    → All (λ (other : Listed). l.name ≢ other.name) ls
    → All (Rising.Comparable entry_lt e) es
unfolding listed_entries
listed_apart l e [] es at h a =
    let same : [] ≡ es = ok_same _ _ h in subst (All (Rising.Comparable entry_lt e)) same tt
listed_apart l e (l' ∷ ls) es at h a =
    let (e', at', h') = >>=-eq-ok (listed_entry l') _ h in
    let (rest, walked, made) = >>=-eq-ok (listed_entries ls) _ h' in
    let apart : e.relative_path ≢ e'.relative_path =
      λ same. a.0 (listed_name l e at ∙ (ap some same ∙ sym (listed_name l' e' at'))) in
    subst (All (Rising.Comparable entry_lt e)) (ok_same _ _ made)
      (entry_lt_total e e' apart, listed_apart l e ls rest at walked a.1)

listed_entries-PairwiseComparable :
    (ls : List Listed) (es : List SnapshotEntry)
    → DistinctNames ls
    → listed_entries ls ≡ ok es
    → Rising.PairwiseComparable entry_lt es × (length es ≡ length ls)
unfolding listed_entries
listed_entries-PairwiseComparable [] es d h =
    let same : [] ≡ es = ok_same _ _ h in
    subst (λ es. Rising.PairwiseComparable entry_lt es × (length es ≡ 0)) same (tt, refl)
listed_entries-PairwiseComparable (l ∷ ls) es d h =
    let (e, at, h') = >>=-eq-ok (listed_entry l) _ h in
    let (rest, walked, made) = >>=-eq-ok (listed_entries ls) _ h' in
    let (comparable, sizes) = listed_entries-PairwiseComparable ls rest d.1 walked in
    subst (λ es. Rising.PairwiseComparable entry_lt es × (length es ≡ length (l ∷ ls)))
      (ok_same _ _ made)
      ((listed_apart l e ls rest at walked d.0, comparable), omega (arith, sizes))

length-insert :
    (e : SnapshotEntry) (es : List SnapshotEntry) → length (insert entry_lt e es) ≡ length es + 1
unfolding insert
length-insert e [] = omega arith
length-insert e (x ∷ es) = elim (Bool-cases (entry_lt x e)) [
  | inl before ↦ rw before (omega (arith, length-insert e es))
  | inr behind ↦ rw behind (omega arith)
]

length-sort : (es : List SnapshotEntry) → length (sort entry_lt es) ≡ length es
unfolding sort
length-sort [] = refl
length-sort (e ∷ es) = omega (arith, length-insert e (sort entry_lt es), length-sort es)

Rising-DistinctEntries : (es : List SnapshotEntry) → Rising.Rising entry_lt es → DistinctEntries es
Rising-DistinctEntries [] r = tt
Rising-DistinctEntries (e ∷ es) r =
    (All-map (λ x h. entry_lt-same e x h) es r.0, Rising-DistinctEntries es r.1)

module _ (previous : List SnapshotEntry) where
  assign_ids-Rising :
      (index next : ℕ) (es : List SnapshotEntry)
      → Rising.Rising entry_lt es
      → Rising.Rising entry_lt (assign_ids previous index next es).0
  unfolding assign_ids entry_lt
  assign_ids-Rising index next [] r = tt
  assign_ids-Rising index next (e ∷ es) r = elim (Option-cases (previous_id previous e)) [
    | inr (id, known) ↦ rw (assign_ids-known previous index next id e es known) (
      assign_ids-All previous (λ x. entry_lt e x ≡ true) (λ _ _ _ h. h) (index + 1) next es r.0,
      assign_ids-Rising (index + 1) next es r.1,
    )
    | inl unknown ↦ rw (assign_ids-fresh previous index next e es unknown) (
      assign_ids-All previous (λ x. entry_lt e x ≡ true) (λ _ _ _ h. h) (index + 1) (increment next)
          es r.0,
      assign_ids-Rising (index + 1) (increment next) es r.1,
    )
  ]

  first_id-above :
      (next_id bound : ℕ)
      → max_id previous + 1 < bound
      → next_id < bound
      → 1 < bound
      → bound < word
      → (max_id previous < first_id previous next_id) × (first_id previous next_id < bound)
  unfolding first_id
  first_id-above next_id bound m n o w = ground arith

  -- From a listing that holds each name once, `collect_snapshot_with_ids` makes a snapshot with the
  -- directories first, by name, in which no two entries have the same id, where the previous ids
  -- differ and u64 has room for the new ones. An entry that was there before keeps its id, all other
  -- ids are new, and every id is below the next free one.
  pub collect_snapshot_with_ids_sound :
      (listing : List Listed) (next_id next bound : ℕ) (entries : List SnapshotEntry)
      → DistinctNames listing
      → DistinctIds previous
      → max_id previous + 1 < bound
      → next_id < bound
      → 1 < bound
      → bound + length listing < word
      → collect_snapshot_with_ids listing previous next_id ≡ ok (entries, next)
      → Rising.Rising entry_lt entries
        × DistinctIds entries
        × Assigned previous (first_id previous next_id) (entries, next)
  unfolding collect_snapshot_with_ids
  collect_snapshot_with_ids_sound listing next_id next bound entries d ids m n o w h =
      let (es, listed, made) = >>=-eq-ok (listed_entries listing) _ h in
      let (comparable, sizes) = listed_entries-PairwiseComparable listing es d listed in
      let rising = Rising.sort-Rising entry_lt entry_lt_trans es comparable in
      let (above, below) = first_id-above next_id bound m n o (omega arith) in
      let size = length-sort es in
      let room : first_id previous next_id + length (sort entry_lt es) < word = omega arith in
      subst
        (λ r.
          Rising.Rising entry_lt r.0
          × DistinctIds r.0
          × Assigned previous (first_id previous next_id) r)
        (ok_same _ _ made)
        (
          assign_ids-Rising 0 (first_id previous next_id) (sort entry_lt es) rising,
          assign_ids-DistinctIds previous 0 (first_id previous next_id) (sort entry_lt es) ids
              (Rising-DistinctEntries (sort entry_lt es) rising) above room,
          assign_ids-Assigned previous 0 (first_id previous next_id) (sort entry_lt es) above room,
        )
