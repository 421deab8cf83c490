-- ===== src/HxOil/Plan/Sound.antt =====
-- A plan that `build_plan` returns aligns the snapshot with the edited entries.
use onix_core.Base.{
  ℕ, suc, ◌+◌, ◌≤◌, true, false, Option, none, some, List, [], ◌∷◌, ◌++◌, map, length, drop, All,
  All-append, ◌≡◌, ◌≢◌, refl, sym, ◌∙◌, subst, inl, inr, arith, Option-cases, ◌!=◌, eq_of_not-ne,
}
use onix_core.Base.Results.{ok, >>=-eq-ok, reject-then}
use onix_core.Base.Slices.{
  get_elem?, slice, slice-split, slice_all, slice-suc, slice_empty, drop-get_elem?, drop-nil,
  All-slice,
}
use onix_core.Base.Text.{Text}
use onix_core.HxOil.Types.{SnapshotEntry, ManifestEntry, Operation, Plan, text_iff, kind_eq}
use onix_core.HxOil.Plan.{
  same_key, exact_position, out_of_order, exact_matches, create_entry, delete_entry, plan_hunk,
  plan_hunks, build_plan,
}
use onix_core.HxOil.Plan.Align.{Align, done, keep, created, deleted, renamed, Align-append}

-- No entry of the snapshot has the edited entry's name and kind.
abbrev Unmatched : List SnapshotEntry → ManifestEntry → Type 0
Unmatched original e = All (λ o. same_key o e ≡ false) original

exact_position-none :
    (i : ℕ) (original : List SnapshotEntry) (e : ManifestEntry)
    → exact_position i original e ≡ none
    → Unmatched original e
unfolding exact_position
exact_position-none i [] e h = tt
exact_position-none i (o ∷ original) e h =
    (ground arith, exact_position-none (suc i) original e (ground arith))

exact_position-some :
    (i : ℕ) (original : List SnapshotEntry) (e : ManifestEntry) (j : ℕ)
    → exact_position i original e ≡ some j
    → (m : ℕ) × (o : SnapshotEntry) × (j ≡ i + m)
      × (get_elem? original m ≡ some o)
      × (same_key o e ≡ true)
unfolding exact_position
exact_position-some i [] e j h = absurd (cc)
exact_position-some i (o ∷ original) e j h =
    elim (Option-cases (exact_position (suc i) original e)) [
      | inl absent ↦ (0, o, ground (arith, absent), refl, ground (arith, absent))
      | inr (later, found) ↦
          let (m, o', at, got, same) = exact_position-some (suc i) original e later found in
          (suc m, o', ground (arith, found, at), got, same)
    ]

create-Align : (es : List ManifestEntry) → Align [] es (map create_entry es)
unfolding create_entry
create-Align [] = done
create-Align (e ∷ es) = created (create-Align es)

delete-Align : (os : List SnapshotEntry) → Align os [] (map delete_entry os)
unfolding delete_entry
delete-Align [] = done
delete-Align (o ∷ os) = deleted (delete-Align os)

kept_key :
    (o : SnapshotEntry) (e : ManifestEntry)
    → same_key o e ≡ true
    → (o.relative_path ≡ e.relative_path) × (o.kind ≡ e.kind)
unfolding same_key
kept_key o e h =
    ground (arith, text_iff o.relative_path e.relative_path, kind_eq.beq_iff o.kind e.kind)

other_name :
    (o : SnapshotEntry) (e : ManifestEntry)
    → same_key o e ≡ false
    → o.kind ≡ e.kind
    → o.relative_path ≢ e.relative_path
unfolding same_key
other_name o e h k p =
    ground (arith, text_iff o.relative_path e.relative_path, kind_eq.beq_iff o.kind e.kind)

plan_hunk-Align :
    (os : List SnapshotEntry) (es : List ManifestEntry) (ops : List Operation)
    → All (Unmatched os) es
    → plan_hunk os es ≡ ok ops
    → Align os es ops
unfolding plan_hunk
plan_hunk-Align [] [] ops u h = subst (Align [] []) (ground arith) done
plan_hunk-Align [] (e ∷ es) ops u h =
    subst (Align [] (e ∷ es)) (ground arith) (create-Align (e ∷ es))
plan_hunk-Align (o ∷ os) [] ops u h =
    subst (Align (o ∷ os) []) (ground arith) (delete-Align (o ∷ os))
plan_hunk-Align (o ∷ []) (e ∷ []) ops u h =
    let (same, made) = reject-then (o.kind != e.kind) _ _ h in
    let kind : o.kind ≡ e.kind = eq_of_not-ne same in
    subst (Align (o ∷ []) (e ∷ [])) (ground arith) (renamed (other_name o e u.0.0 kind) kind done)
plan_hunk-Align (o ∷ o' ∷ os) (e ∷ es) ops u h = cc
plan_hunk-Align (o ∷ []) (e ∷ e' ∷ es) ops u h = cc

module _ (original : List SnapshotEntry) (edited : List ManifestEntry) where
  -- The matches ascend in both lists, pair equal keys, and leave no match between them.
  abbrev IsMatching : ℕ → ℕ → List (ℕ × ℕ) → Type 0
  IsMatching os es [] = All (Unmatched original) (slice es (length edited) edited)
  IsMatching os es ((oi, ei) ∷ ms) =
      (os ≤ oi)
      × (es ≤ ei)
      × ((o : SnapshotEntry) × (e : ManifestEntry) × (get_elem? original oi ≡ some o)
          × (get_elem? edited ei ≡ some e)
          × (same_key o e ≡ true))
      × All (Unmatched original) (slice es ei edited)
      × IsMatching (suc oi) (suc ei) ms

  hunk-Unmatched :
      (a b : ℕ) (es : List ManifestEntry)
      → All (Unmatched original) es
      → All (Unmatched (slice a b original)) es
  hunk-Unmatched a b [] h = tt
  hunk-Unmatched a b (e ∷ es) h =
      (All-slice (λ o. same_key o e ≡ false) a b original h.0, hunk-Unmatched a b es h.1)

  plan_hunks-Align :
      (os es : ℕ) (ms : List (ℕ × ℕ)) (ops : List Operation)
      → IsMatching os es ms
      → plan_hunks original edited os es ms ≡ ok ops
      → Align (drop os original) (drop es edited) ops
  unfolding plan_hunks
  plan_hunks-Align os es [] ops m h =
      let whole =
        plan_hunk-Align (slice os (length original) original) (slice es (length edited) edited) ops
          (hunk-Unmatched os (length original) _ m) h in
      rw
        (
          ← slice_all os (length original) original (omega arith),
          ← slice_all es (length edited) edited (omega arith),
        )
        whole
  plan_hunks-Align os es ((oi, ei) ∷ ms) ops (at, at', (o, e, got, got', same), u, m) h =
      let (first, h₁, h') = >>=-eq-ok (plan_hunk (slice os oi original) (slice es ei edited)) _ h in
      let (rest, h₂, made) = >>=-eq-ok (plan_hunks original edited (suc oi) (suc ei) ms) _ h' in
      let joined : first ++ rest ≡ ops = ground arith in
      let (path, kind) = kept_key o e same in
      let hunk =
        plan_hunk-Align (slice os oi original) (slice es ei edited) first (hunk-Unmatched os oi _ u)
          h₁ in
      let later = plan_hunks-Align (suc oi) (suc ei) ms rest m h₂ in
      rw (slice-split os oi original at got, slice-split es ei edited at' got', ← joined)
        (Align-append hunk (keep path kind later))

  -- The first index of the snapshot that a match may have.
  abbrev start_of : Option ℕ → ℕ
  start_of none = 0
  start_of (some previous) = suc previous

  in_order : (last : Option ℕ) (index : ℕ) → out_of_order last index ≡ false → start_of last ≤ index
  unfolding out_of_order
  in_order none index h = omega arith
  in_order (some previous) index h = ground arith

  exact_matches-IsMatching :
      (suffix : List ManifestEntry) (es k : ℕ) (last : Option ℕ) (ms : List (ℕ × ℕ))
      → drop k edited ≡ suffix
      → es ≤ k
      → All (Unmatched original) (slice es k edited)
      → exact_matches original k last suffix ≡ ok ms
      → IsMatching (start_of last) es ms
  unfolding exact_matches
  exact_matches-IsMatching [] es k last ms at le u h =
      let none_left : [] ≡ ms = ground arith in
      let same =
        slice_all es k edited (drop-nil k edited at)
        ∙ sym (slice_all es (length edited) edited (omega arith)) in
      subst (IsMatching (start_of last) es) none_left (subst (All (Unmatched original)) same u)
  exact_matches-IsMatching (e ∷ suffix) es k last ms at le u h =
      let (here, next) = drop-get_elem? k edited at in
      elim (Option-cases (exact_position 0 original e)) [
        | inl absent ↦
            exact_matches-IsMatching suffix es (suc k) last ms next (omega arith)
              (rw (slice-suc es k edited le here) (
                All-append (Unmatched original) (slice es k edited) (e ∷ []) u
                  (exact_position-none 0 original e absent, tt)))
              (rw (absent, exact_matches) at h)
        | inr (oi, found) ↦
            let (m, o, is_m, got, same) = exact_position-some 0 original e oi found in
            let (ordered, h₁) =
              reject-then (out_of_order last oi) _ _ (rw (found, exact_matches) at h) in
            let (rest, h₂, made) =
              >>=-eq-ok (exact_matches original (suc k) (some oi) suffix) _ h₁ in
            let same_m : oi ≡ m = omega arith in
            let listed : (oi, k) ∷ rest ≡ ms = ground arith in
            subst (IsMatching (start_of last) es) listed (
              in_order last oi ordered,
              le,
              (o, e, rw same_m got, here, same),
              u,
              exact_matches-IsMatching suffix (suc k) (suc k) (some oi) rest next (omega arith)
                  (rw (slice_empty (suc k) edited) tt) h₂,
            )
      ]

-- Whenever `build_plan` returns a plan, its operations align the snapshot with the edited entries:
-- in order, every snapshot entry is kept, renamed or deleted, every edited entry is kept, renamed
-- to or created, kept pairs agree in name and kind, and a rename changes the name and keeps the
-- kind.
pub build_plan-Align :
    (base : Text) (original : List SnapshotEntry) (edited : List ManifestEntry) (plan : Plan)
    → build_plan base original edited ≡ ok plan
    → Align original edited plan.operations
unfolding build_plan
build_plan-Align base original edited plan h =
    let (ms, h₁, h') = >>=-eq-ok (exact_matches original 0 none edited) _ h in
    let (ops, h₂, made) = >>=-eq-ok (plan_hunks original edited 0 0 ms) _ h' in
    let same : ops ≡ plan.operations = ground arith in
    subst (Align original edited) same (
      plan_hunks-Align original edited 0 0 ms ops
        (exact_matches-IsMatching original edited edited 0 0 none ms refl (omega arith) tt h₁) h₂)
