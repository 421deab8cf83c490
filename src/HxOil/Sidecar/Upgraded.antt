-- ===== src/HxOil/Sidecar/Upgraded.antt =====
-- What the ids of an upgraded sidecar are.
use Prim.Native.Nat.{◌≤◌, ◌<◌}
use onix_core.Base.{ℕ, ◌+◌, List, [], ◌∷◌, ◌≡◌, All, arith, length, nat_eq, Bool-cases, inl, inr}
use onix_core.Base.Sort.Distinct.{All-map}
use onix_core.HxOil.Types.{SnapshotEntry, SubdirState}
use onix_core.HxOil.Snapshot.{word, increment}
use onix_core.HxOil.Sidecar.{
  Sidecar, larger, saturating_next, above_entries, above_subdirs, number_entries, number_subdirs,
  upgrade_sidecar,
}

-- Every id is one and below the given number.
abbrev pub HaveIds : ℕ → List SnapshotEntry → Type 0
HaveIds next es = All (λ (e : SnapshotEntry). (1 ≤ e.id) × (e.id < next)) es

abbrev pub Fit : ℕ → List SnapshotEntry → Type 0
Fit next es = All (λ (e : SnapshotEntry). e.id < next) es

-- How many entries there are in the inserted directories.
unfoldable pub count : List SubdirState → ℕ
count [] = 0
count (state ∷ states) = length state.entries + count states

above_entries-Fit :
    (next : ℕ) (es : List SnapshotEntry)
    → Fit word es
    → (next ≤ above_entries next es)
      × ((bound : ℕ) → above_entries next es ≤ bound → bound + 1 < word → Fit bound es)
unfolding above_entries
above_entries-Fit next [] f = (omega arith, λ bound h w. tt)
above_entries-Fit next (e ∷ es) f =
    let (grows, fits) = above_entries-Fit (larger next (saturating_next e.id)) es f.1 in
    (ground (arith, grows), λ bound h w. (ground (arith, grows), fits bound h w))

number_entries-HaveIds :
    (next : ℕ) (es : List SnapshotEntry)
    → 1 ≤ next
    → Fit next es
    → next + length es < word
    → HaveIds (number_entries next es).1 (number_entries next es).0
      × (next ≤ (number_entries next es).1)
      × ((number_entries next es).1 ≤ next + length es)
unfolding number_entries
number_entries-HaveIds next [] o f w = (tt, omega arith, omega arith)
number_entries-HaveIds next (e ∷ es) o f w = elim (Bool-cases (nat_eq e.id 0)) [
  | inl missing ↦
      let same : increment next ≡ next + 1 = omega arith in
      let wider =
        All-map {Q = λ (d : SnapshotEntry). d.id < increment next} (λ d h. omega arith) es f.1 in
      let (ids, grows, bounded) =
        number_entries-HaveIds (increment next) es (omega arith) wider (omega arith) in
      rw (missing, number_entries) (((o, omega arith), ids), omega arith, omega arith)
  | inr there ↦
      let (ids, grows, bounded) = number_entries-HaveIds next es o f.1 (omega arith) in
      rw (there, number_entries) (((ground arith, omega arith), ids), omega arith, omega arith)
]

abbrev pub FitAll : ℕ → List SubdirState → Type 0
FitAll next states = All (λ (s : SubdirState). Fit next s.entries) states

above_subdirs-FitAll :
    (next : ℕ) (states : List SubdirState)
    → FitAll word states
    → (next ≤ above_subdirs next states)
      × ((bound : ℕ) → above_subdirs next states ≤ bound → bound + 1 < word → FitAll bound states)
unfolding above_subdirs
above_subdirs-FitAll next [] f = (omega arith, λ bound h w. tt)
above_subdirs-FitAll next (s ∷ states) f =
    let (grows, fits) = above_entries-Fit next s.entries f.0 in
    let (grows', fits') = above_subdirs-FitAll (above_entries next s.entries) states f.1 in
    (
      omega (arith, grows, grows'),
      λ bound h w. (fits bound (omega (arith, grows', h)) w, fits' bound h w),
    )

wider_bound : (a b : ℕ) (es : List SnapshotEntry) → a ≤ b → Fit a es → Fit b es
wider_bound a b es h f = All-map {Q = λ (d : SnapshotEntry). d.id < b} (λ d k. omega arith) es f

ids_more : (a b : ℕ) (es : List SnapshotEntry) → a ≤ b → HaveIds a es → HaveIds b es
ids_more a b es h f =
    All-map {Q = λ (d : SnapshotEntry). (1 ≤ d.id) × (d.id < b)}
      (λ d (k : (1 ≤ d.id) × (d.id < a)). (k.0, omega (arith, k.1))) es f

number_subdirs-HaveIds :
    (next : ℕ) (states : List SubdirState)
    → 1 ≤ next
    → FitAll next states
    → next + count states < word
    → All
        (λ (s : SubdirState). HaveIds (number_subdirs next states).1 s.entries)
        (number_subdirs next states).0
      × (next ≤ (number_subdirs next states).1)
unfolding number_subdirs count
number_subdirs-HaveIds next [] o f w = (tt, omega arith)
number_subdirs-HaveIds next (s ∷ states) o f w =
    let (ids, grows, bounded) = number_entries-HaveIds next s.entries o f.0 (omega arith) in
    let middle = (number_entries next s.entries).1 in
    let wider =
      All-map {Q = λ (t : SubdirState). Fit middle t.entries}
        (λ t h. wider_bound next middle t.entries grows h) states f.1 in
    let (rest, grows') =
      number_subdirs-HaveIds middle states (omega (arith, grows)) wider (omega (arith, bounded)) in
    (
      (
        ids_more middle (number_subdirs middle states).1 (number_entries next s.entries).0 grows'
            ids,
        rest,
      ),
      omega (arith, grows, grows'),
    )

-- The first free id that `upgrade_sidecar` starts from.
unfoldable pub start_id : Sidecar → ℕ
start_id sidecar =
    above_subdirs (above_entries (larger sidecar.next_entry_id 1) sidecar.entries) sidecar.subdirs

-- Where u64 has room for an id of each entry above the ones in use, `upgrade_sidecar` leaves no entry
-- of the root or of an inserted directory without an id, and every id is below the next free one.
pub upgrade_sidecar-HaveIds :
    (sidecar : Sidecar)
    → Fit word sidecar.entries
    → FitAll word sidecar.subdirs
    → start_id sidecar + 1 + length sidecar.entries + count sidecar.subdirs < word
    → HaveIds (upgrade_sidecar sidecar).next_entry_id (upgrade_sidecar sidecar).entries
      × All
          (λ (s : SubdirState). HaveIds (upgrade_sidecar sidecar).next_entry_id s.entries)
          (upgrade_sidecar sidecar).subdirs
unfolding upgrade_sidecar start_id
upgrade_sidecar-HaveIds sidecar f g w =
    let first = larger sidecar.next_entry_id 1 in
    let (grows, fits) = above_entries-Fit first sidecar.entries f in
    let (grows', fits') =
      above_subdirs-FitAll (above_entries first sidecar.entries) sidecar.subdirs g in
    let start = above_subdirs (above_entries first sidecar.entries) sidecar.subdirs in
    let one : 1 ≤ start = ground (arith, grows, grows') in
    let (ids, more, bounded) =
      number_entries-HaveIds start sidecar.entries one (fits start grows' (omega arith))
        (omega arith) in
    let middle = (number_entries start sidecar.entries).1 in
    let wider =
      All-map {Q = λ (t : SubdirState). Fit middle t.entries}
        (λ t h. wider_bound start middle t.entries more h) sidecar.subdirs
        (fits' start (omega arith) (omega arith)) in
    let (rest, more') =
      number_subdirs-HaveIds middle sidecar.subdirs (omega (arith, one, more)) wider
        (omega (arith, bounded, w)) in
    (
      ids_more middle (number_subdirs middle sidecar.subdirs).1
          (number_entries start sidecar.entries).0 more' ids,
      rest,
    )
