-- ===== src/Backup/Walk/Totals.antt =====
-- The records and bytes that a walk counts, against a count over the tree itself.
use onix_core.Base.{
  subst, ◌!=◌, ℕ-eq, ℕ, ◌+◌, List, [], ◌∷◌, ◌≡◌, refl, arith, length, length-append, Bool-cases,
  inl, inr,
}
use onix_core.Base.Results.{ok, >>=-eq-ok, reject-then, ok_same}
use onix_core.Base.Sort.{insert, sort}
use onix_core.Base.Text.{Text, text_lt}
use onix_core.Backup.Types.{ManifestRecord, ManifestStats}
use onix_core.Backup.Paths.{join, validate_relative_path}
use onix_core.Backup.Walk.{
  file_identity_changed, metadata_of, Node, directory_node, file_node, symlink_node, other_node,
  Entries, nil, cons, Walk, add_record, walk_all, sort_entries, no_entries, record_for_path, visit,
  walk_node, walk_entries, walk_directory,
}

abbrev mutual
  -- The entries at and below a node.
  pub node_count : Node → ℕ
  node_count (directory_node m entries) = 1 + entry_count entries
  node_count _ = 1

  pub entry_count : Entries → ℕ
  entry_count nil = 0
  entry_count (cons name node entries) = node_count node + entry_count entries

-- The bytes of a node itself: a file's length when it was opened, a symbolic link's target.
abbrev own_bytes : Node → ℕ
own_bytes (directory_node m entries) = 0
own_bytes (file_node before after content) = before.len
own_bytes (symlink_node m target) = length target
own_bytes (other_node m) = 0

abbrev mutual
  -- The bytes of the files and symbolic links at and below a node.
  pub node_bytes : Node → ℕ
  node_bytes (directory_node m entries) = entry_bytes entries
  node_bytes (file_node before after content) = before.len
  node_bytes (symlink_node m target) = length target
  node_bytes (other_node m) = 0

  pub entry_bytes : Entries → ℕ
  entry_bytes nil = 0
  entry_bytes (cons name node entries) = node_bytes node + entry_bytes entries

-- A walk from some statistics to others that wrote `n` records, of `b` bytes.
pub record IsTotal (n b : ℕ) (stats stats' : ManifestStats) (rs : List ManifestRecord)
    : Type 0 where
  pub written : length rs ≡ n
  pub records : stats'.records ≡ stats.records + n
  pub bytes : stats'.bytes ≡ stats.bytes + b

abbrev pub Totals : ℕ → ℕ → Walk → Type 0
Totals n b walk =
    (stats stats' : ManifestStats) (rs : List ManifestRecord)
    → walk stats ≡ ok (rs, stats')
    → IsTotal n b stats stats' rs

-- The walks of a list count `n` records and `b` bytes together.
abbrev AllTotals : ℕ → ℕ → List (Text × Walk) → Type 0
AllTotals n b [] = (n ≡ 0) × (b ≡ 0)
AllTotals n b (x ∷ xs) =
    (n₁ : ℕ) × (b₁ : ℕ) × (n₂ : ℕ) × (b₂ : ℕ) × Totals n₁ b₁ x.1
    × AllTotals n₂ b₂ xs
    × (n ≡ n₁ + n₂)
    × (b ≡ b₁ + b₂)

walk_all-Totals : (n b : ℕ) (xs : List (Text × Walk)) → AllTotals n b xs → Totals n b (walk_all xs)
unfolding walk_all
walk_all-Totals n b [] t stats stats' rs h = record {
  written = ground arith;
  records = ground arith;
  bytes = ground arith;
}
walk_all-Totals n b ((name, walk) ∷ xs) (n₁, b₁, n₂, b₂, t, ts, p, q) stats stats' rs h =
    let (first, h₁, h') = >>=-eq-ok (walk stats) _ h in
    let (rest, h₂, made) = >>=-eq-ok (walk_all xs first.1) _ h' in
    let f = t stats first.1 first.0 h₁ in
    let r = walk_all-Totals n₂ b₂ xs ts first.1 rest.1 rest.0 h₂ in
    let e = length-append first.0 rest.0 in
    record {
      written = ground (arith, f.written, r.written, e);
      records = ground (arith, f.records, r.records);
      bytes = ground (arith, f.bytes, r.bytes);
    }

insert-AllTotals :
    (n b : ℕ) (x : Text × Walk) (xs : List (Text × Walk))
    → AllTotals n b (x ∷ xs)
    → AllTotals n b (insert (λ a c. text_lt a.0 c.0) x xs)
unfolding insert
insert-AllTotals n b x [] h = h
insert-AllTotals n b x (y ∷ xs) h = elim (Bool-cases (text_lt y.0 x.0)) [
  | inl behind ↦
      let (n₁, b₁, n', b', first, others, p, q) = h in
      let (n₂, b₂, n₃, b₃, second, rest, r, s) = others in
      rw behind (
        n₂,
        b₂,
        n₁ + n₃,
        b₁ + b₃,
        second,
        insert-AllTotals (n₁ + n₃) (b₁ + b₃) x xs (n₁, b₁, n₃, b₃, first, rest, refl, refl),
        omega (arith, p, r),
        omega (arith, q, s),
      )
  | inr before ↦ rw before h
]

sort_entries-AllTotals :
    (n b : ℕ) (xs : List (Text × Walk)) → AllTotals n b xs → AllTotals n b (sort_entries xs)
unfolding sort_entries sort
sort_entries-AllTotals n b [] h = h
sort_entries-AllTotals n b (x ∷ xs) (n₁, b₁, n₂, b₂, t, ts, p, q) =
    insert-AllTotals n b x (sort_entries xs)
      (n₁, b₁, n₂, b₂, t, sort_entries-AllTotals n₂ b₂ xs ts, p, q)

no_entries-Totals : Totals 0 0 no_entries
unfolding no_entries
no_entries-Totals stats stats' rs h =
    let same : ◌≡◌ {A = List ManifestRecord × ManifestStats} ([], stats) (rs, stats') =
      ok_same _ _ h in
    subst (λ p. IsTotal 0 0 stats p.1 p.0) same
      (record { written = refl; records = omega arith; bytes = omega arith })

module _ (hash : Text → Text) (root_device : ℕ) where
  record_for_path-size :
      (path : Text) (node : Node) (r : ManifestRecord)
      → record_for_path hash path node ≡ ok r
      → r.size ≡ own_bytes node
  unfolding record_for_path
  record_for_path-size path (directory_node m entries) r h = ground arith
  record_for_path-size path (file_node before after content) r h =
      let (same, made) = reject-then (file_identity_changed before after) _ _ h in ground arith
  record_for_path-size path (symlink_node m target) r h = ground arith
  record_for_path-size path (other_node m) r h = cc

  add_record_adds :
      (stats counted : ManifestStats) (size : ℕ)
      → add_record stats size ≡ ok counted
      → (counted.records ≡ stats.records + 1) × (counted.bytes ≡ stats.bytes + size)
  unfolding add_record
  add_record_adds stats counted size h = ground arith

  visit-Totals :
      (path : Text) (node : Node) (n b sum : ℕ) (below : Walk)
      → Totals n b below
      → sum ≡ own_bytes node + b
      → Totals (1 + n) sum (visit hash root_device path node below)
  unfolding visit
  visit-Totals path node n b sum below t whole stats stats' rs h =
      let (u, valid, h₁) = >>=-eq-ok (validate_relative_path path) _ h in
      let (inside, h₂) = reject-then ((metadata_of node).dev != root_device) _ _ h₁ in
      let (r, recorded, h₃) = >>=-eq-ok (record_for_path hash path node) _ h₂ in
      let (counted, added, h₄) = >>=-eq-ok (add_record stats r.size) _ h₃ in
      let (rest, walked, made) = >>=-eq-ok (below counted) _ h₄ in
      let size = record_for_path-size path node r recorded in
      let sums = add_record_adds stats counted r.size added in
      let total = t counted rest.1 rest.0 walked in
      let same : ◌≡◌ {A = List ManifestRecord × ManifestStats} (r ∷ rest.0, rest.1) (rs, stats') =
        ok_same _ _ made in
      subst (λ p. IsTotal (1 + n) sum stats p.1 p.0) same
        (record {
          written = omega (arith, total.written);
          records = omega (arith, total.records, sums.0);
          bytes = omega (arith, total.bytes, sums.1, size, whole);
        })

  mutual
    unfolding walk_node

    walk_node-Totals :
        (path : Text) (node : Node)
        → Totals (node_count node) (node_bytes node) (walk_node hash root_device path node)
    walk_node-Totals path (directory_node m entries) =
        visit-Totals path (directory_node m entries) (entry_count entries) (entry_bytes entries)
          (entry_bytes entries) _
          (walk_all-Totals (entry_count entries) (entry_bytes entries) _
            (sort_entries-AllTotals _ _ _ (walk_entries-AllTotals path entries)))
          (omega arith)
    walk_node-Totals path (file_node before after content) =
        visit-Totals path (file_node before after content) 0 0 before.len no_entries
          no_entries-Totals (omega arith)
    walk_node-Totals path (symlink_node m target) =
        visit-Totals path (symlink_node m target) 0 0 (length target) no_entries no_entries-Totals
          (omega arith)
    walk_node-Totals path (other_node m) =
        visit-Totals path (other_node m) 0 0 0 no_entries no_entries-Totals refl

    walk_entries-AllTotals :
        (path : Text) (entries : Entries)
        → AllTotals
            (entry_count entries)
            (entry_bytes entries)
            (walk_entries hash root_device path entries)
    walk_entries-AllTotals path nil = (refl, refl)
    walk_entries-AllTotals path (cons name node entries) = (
      node_count node,
      node_bytes node,
      entry_count entries,
      entry_bytes entries,
      walk_node-Totals (join path name) node,
      walk_entries-AllTotals path entries,
      refl,
      refl,
    )

  pub walk_directory-Totals :
      (entries : Entries)
      → Totals
          (entry_count entries)
          (entry_bytes entries)
          (walk_directory hash root_device [] entries)
  unfolding walk_directory
  walk_directory-Totals entries =
      walk_all-Totals (entry_count entries) (entry_bytes entries) _
        (sort_entries-AllTotals _ _ _ (walk_entries-AllTotals [] entries))
