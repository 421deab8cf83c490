-- ===== src/HxOil/Snapshot/Ids.antt =====
-- The ids of a snapshot: known entries keep theirs, and no two entries have the same.
use Prim.Native.Nat.{◌≤◌, ◌<◌}
use onix_core.Base.{
  ℕ, ◌+◌, true, false, none, some, List, [], ◌∷◌, ◌≡◌, ◌≢◌, ◌↔◌, ◌⊎◌, inl, inr, refl, sym, ◌∙◌,
  subst, All, arith, length, Bool-cases, Option-cases, list_eq, ℕ-eq,
}
use onix_core.Base.Sort.Distinct.{All-map, All-both}
use onix_core.HxOil.Types.{SnapshotEntry, kind_eq, text_iff}
use onix_core.HxOil.Snapshot.{same_entry, previous_id, max_id, word, increment, with_id, assign_ids}

abbrev pub DistinctIds : List SnapshotEntry → Type 0
DistinctIds [] = Unit
DistinctIds (e ∷ es) = All (λ (other : SnapshotEntry). e.id ≢ other.id) es × DistinctIds es

abbrev pub DistinctEntries : List SnapshotEntry → Type 0
DistinctEntries [] = Unit
DistinctEntries (e ∷ es) = All (λ other. same_entry e other ≡ false) es × DistinctEntries es

-- Where an id was found, some member has it.
previous_id-member :
    (ps : List SnapshotEntry) (e : SnapshotEntry) (id x : ℕ)
    → previous_id ps e ≡ some id
    → All (λ (p : SnapshotEntry). x ≢ p.id) ps
    → x ≢ id
unfolding previous_id
previous_id-member [] e id x = λ h _. absurd (ground arith)
previous_id-member (p ∷ ps) e id x = elim (Option-cases (previous_id ps e)) [
  | inr (found, later) ↦ rw later (λ h a. previous_id-member ps e id x (later ∙ h) a.1)
  | inl none_later ↦ elim (Bool-cases (same_entry p e)) [
    | inl here ↦ rw (none_later, here) (λ h a. ground arith)
    | inr other ↦ rw (none_later, other) (λ h a. absurd (ground arith))
  ]
]

previous_id-max :
    (ps : List SnapshotEntry) (e : SnapshotEntry) (id : ℕ)
    → previous_id ps e ≡ some id
    → id ≤ max_id ps
unfolding previous_id max_id
previous_id-max [] e id = λ h. absurd (ground arith)
previous_id-max (p ∷ ps) e id = elim (Option-cases (previous_id ps e)) [
  | inr (found, later) ↦
      rw later (λ h. let below = previous_id-max ps e id (later ∙ h) in ground arith)
  | inl none_later ↦ elim (Bool-cases (same_entry p e)) [
    | inl here ↦ rw (none_later, here) (λ h. ground arith)
    | inr other ↦ rw (none_later, other) (λ h. absurd (ground arith))
  ]
]

pub same_entry_iff :
    (a b : SnapshotEntry)
    → (same_entry a b ≡ true) ↔ ((a.relative_path ≡ b.relative_path) × (a.kind ≡ b.kind))
same_entry_iff a b =
    ground (arith, text_iff a.relative_path b.relative_path, kind_eq.beq_iff a.kind b.kind)

same_entry_trans :
    (p a b : SnapshotEntry) → same_entry p a ≡ true → same_entry p b ≡ true → same_entry a b ≡ true
same_entry_trans p a b h k =
    let u = (same_entry_iff p a).0 h in
    let v = (same_entry_iff p b).0 k in (same_entry_iff a b).1 (sym u.0 ∙ v.0, sym u.1 ∙ v.1)

-- Two entries that had the same id before are the same entry.
previous_id-same :
    (ps : List SnapshotEntry) (a b : SnapshotEntry) (id : ℕ)
    → DistinctIds ps
    → previous_id ps a ≡ some id
    → previous_id ps b ≡ some id
    → same_entry a b ≡ true
unfolding previous_id
previous_id-same [] a b id d = λ h _. absurd (ground arith)
previous_id-same (p ∷ ps) a b id d = elim (Option-cases (previous_id ps a)) [
  | inr (found_a, later_a) ↦ elim (Option-cases (previous_id ps b)) [
    | inr (found_b, later_b) ↦
        rw (later_a, later_b) (λ h k. previous_id-same ps a b id d.1 (later_a ∙ h) (later_b ∙ k))
    | inl none_b ↦
        rw (later_a, none_b)
          (λ h.
            let apart = previous_id-member ps a id p.id (later_a ∙ h) d.0 in
            elim (Bool-cases (same_entry p b)) [
              | inl here ↦ rw here (λ k. absurd (apart (ground arith)))
              | inr other ↦ rw other (λ k. absurd (ground arith))
            ])
  ]
  | inl none_a ↦ elim (Bool-cases (same_entry p a)) [
    | inr other ↦ rw (none_a, other) (λ h. absurd (ground arith))
    | inl here_a ↦ elim (Option-cases (previous_id ps b)) [
      | inr (found_b, later_b) ↦
          rw (none_a, here_a, later_b)
            (λ h k. absurd (previous_id-member ps b id p.id (later_b ∙ k) d.0 (ground arith)))
      | inl none_b ↦ elim (Bool-cases (same_entry p b)) [
        | inl here_b ↦ λ h k. same_entry_trans p a b here_a here_b
        | inr other ↦ rw (none_b, other) (λ h k. absurd (ground arith))
      ]
    ]
  ]
]

previous_id-with_id :
    (ps : List SnapshotEntry) (id index : ℕ) (e : SnapshotEntry)
    → previous_id ps (with_id id index e) ≡ previous_id ps e
unfolding previous_id
previous_id-with_id [] id index e = refl
previous_id-with_id (p ∷ ps) id index e = rw (previous_id-with_id ps id index e) refl

module _ (previous : List SnapshotEntry) where
  -- The entry keeps the id that it had, or it has one from `next` on.
  abbrev pub Sourced : ℕ → SnapshotEntry → Type 0
  Sourced next e =
      (previous_id previous e ≡ some e.id) ⊎ ((previous_id previous e ≡ none) × (next ≤ e.id))

  widen :
      (next e_id : ℕ) (es : List SnapshotEntry)
      → next ≤ e_id
      → All (Sourced e_id) es
      → All (Sourced next) es
  widen next e_id es h s =
      All-map
        (λ e (c : Sourced e_id e). elim c [
          | inl kept ↦ inl kept
          | inr (unknown, above) ↦ inr (unknown, omega arith)
        ])
        es s

  pub assign_ids-known :
      (index next id : ℕ) (e : SnapshotEntry) (es : List SnapshotEntry)
      → previous_id previous e ≡ some id
      → assign_ids previous index next (e ∷ es) ≡ (
        with_id id index e ∷ (assign_ids previous (index + 1) next es).0,
        (assign_ids previous (index + 1) next es).1,
      )
  unfolding assign_ids
  assign_ids-known index next id e es known = rw (known, assign_ids) refl

  pub assign_ids-fresh :
      (index next : ℕ) (e : SnapshotEntry) (es : List SnapshotEntry)
      → previous_id previous e ≡ none
      → assign_ids previous index next (e ∷ es) ≡ (
        with_id next index e ∷ (assign_ids previous (index + 1) (increment next) es).0,
        (assign_ids previous (index + 1) (increment next) es).1,
      )
  unfolding assign_ids
  assign_ids-fresh index next e es unknown = rw (unknown, assign_ids) refl

  pub assign_ids-All :
      (P : SnapshotEntry → Type 0)
      → ((id index : ℕ) (e : SnapshotEntry) → P e → P (with_id id index e))
      → (index next : ℕ) (es : List SnapshotEntry) → All P es
      → All P (assign_ids previous index next es).0
  unfolding assign_ids
  assign_ids-All P keep index next [] a = tt
  assign_ids-All P keep index next (e ∷ es) a = elim (Option-cases (previous_id previous e)) [
    | inr (id, known) ↦
        rw (assign_ids-known index next id e es known)
          (keep id index e a.0, assign_ids-All P keep (index + 1) next es a.1)
    | inl unknown ↦
        rw (assign_ids-fresh index next e es unknown)
          (keep next index e a.0, assign_ids-All P keep (index + 1) (increment next) es a.1)
  ]

  -- The ids and the next free id.
  abbrev pub Assigned : ℕ → List SnapshotEntry × ℕ → Type 0
  Assigned next r =
      All (Sourced next) r.0 × All (λ (e : SnapshotEntry). e.id < r.1) r.0 × (next ≤ r.1)

  pub assign_ids-Assigned :
      (index next : ℕ) (es : List SnapshotEntry)
      → max_id previous < next
      → next + length es < word
      → Assigned next (assign_ids previous index next es)
  unfolding assign_ids
  assign_ids-Assigned index next [] m f = (tt, tt, omega arith)
  assign_ids-Assigned index next (e ∷ es) m f = elim (Option-cases (previous_id previous e)) [
    | inr (id, known) ↦
        let rest = assign_ids-Assigned (index + 1) next es m (omega arith) in
        let below = previous_id-max previous e id known in
        rw (assign_ids-known index next id e es known) (
          (inl (previous_id-with_id previous id index e ∙ known), rest.0),
          (omega arith, rest.1),
          rest.2,
        )
    | inl unknown ↦
        let same : increment next ≡ next + 1 = omega arith in
        let rest =
          assign_ids-Assigned (index + 1) (increment next) es (omega arith) (omega arith) in
        rw (assign_ids-fresh index next e es unknown) (
          (
            inr (previous_id-with_id previous next index e ∙ unknown, omega arith),
            widen next (increment next) _ (omega arith) rest.0,
          ),
          (omega arith, rest.1),
          omega arith,
        )
  ]

  -- The ids of later entries differ from the id of the entry, kept or new.
  known_apart :
      (next id : ℕ) (e : SnapshotEntry) (es : List SnapshotEntry)
      → DistinctIds previous
      → max_id previous < next
      → previous_id previous e ≡ some id
      → All (Sourced next) es
      → All (λ other. same_entry e other ≡ false) es
      → All (λ (other : SnapshotEntry). id ≢ other.id) es
  known_apart next id e es d m known s k =
      let below = previous_id-max previous e id known in
      All-map {Q = λ (other : SnapshotEntry). id ≢ other.id}
        (λ other (c : Sourced next other × (same_entry e other ≡ false)) (same : id ≡ other.id).
          elim c.0 [
            | inl kept ↦
                let equal =
                  previous_id-same previous e other id d known
                    (subst (λ i. previous_id previous other ≡ some i) (sym same) kept) in
                absurd (ground arith)
            | inr (unknown, above) ↦ absurd (omega arith)
          ])
        es (All-both _ _ es s k)

  fresh_apart :
      (next : ℕ) (es : List SnapshotEntry)
      → max_id previous < next
      → All (Sourced (next + 1)) es
      → All (λ (other : SnapshotEntry). next ≢ other.id) es
  fresh_apart next es m s =
      All-map {Q = λ (other : SnapshotEntry). next ≢ other.id}
        (λ other (c : Sourced (next + 1) other) (same : next ≡ other.id). elim c [
          | inl kept ↦
              let below = previous_id-max previous other other.id kept in absurd (omega arith)
          | inr (unknown, above) ↦ absurd (omega arith)
        ])
        es s

  pub assign_ids-DistinctIds :
      (index next : ℕ) (es : List SnapshotEntry)
      → DistinctIds previous
      → DistinctEntries es
      → max_id previous < next
      → next + length es < word
      → DistinctIds (assign_ids previous index next es).0
  unfolding assign_ids
  assign_ids-DistinctIds index next [] d k m f = tt
  assign_ids-DistinctIds index next (e ∷ es) d k m f =
      elim (Option-cases (previous_id previous e)) [
        | inr (id, known) ↦ rw (assign_ids-known index next id e es known) (
          known_apart next id e (assign_ids previous (index + 1) next es).0 d m known
              (assign_ids-Assigned (index + 1) next es m (omega arith)).0
              (assign_ids-All (λ x. same_entry e x ≡ false) (λ _ _ _ h. h) (index + 1) next es k.0),
          assign_ids-DistinctIds (index + 1) next es d k.1 m (omega arith),
        )
        | inl unknown ↦
            let same : increment next ≡ next + 1 = omega arith in
            rw (assign_ids-fresh index next e es unknown) (
              fresh_apart next (assign_ids previous (index + 1) (increment next) es).0 m (
                  subst
                    (λ n. All (Sourced n) (assign_ids previous (index + 1) (increment next) es).0)
                    same
                    (assign_ids-Assigned (index + 1) (increment next) es (omega arith)
                      (omega arith)).0),
              assign_ids-DistinctIds (index + 1) (increment next) es d k.1 (omega arith)
                  (omega arith),
            )
      ]
