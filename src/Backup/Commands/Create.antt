-- ===== src/Backup/Commands/Create.antt =====
-- What a run of `create_manifest_atomic` leaves behind.
use onix_core.Base.{
  ap, ◌∙◌, All, length, false, Option, none, some, ◌≡◌, ◌⊎◌, inl, inr, refl, sym, arith, Bool-cases,
  ◌||◌, or-eq-false, List, [],
}
use onix_core.Base.Results.{ok_same, Result, ok, err, >>=-eq-ok, reject-then}
use onix_core.Base.Text.{Text}
use onix_core.Backup.Types.{
  ManifestRecord, ManifestStats, Error, open_temporary, rename, remove, write, flush, sync,
}
use onix_core.Backup.Walk.Totals.{entry_count, entry_bytes, walk_directory-Totals}
use onix_core.Backup.Records.RoundTrip.{IsRecord}
use onix_core.Backup.Walk.{
  file_node, symlink_node, other_node, directory_node, Metadata, Entries, Node, walk_directory,
  render_manifest,
}
use onix_core.Backup.Walk.Trees.{AreEntries}
use onix_core.Backup.Walk.Sound.{IsHexHash}
use onix_core.Backup.Walk.Whole.{walk_directory-Emits}
use onix_core.Backup.Format.{validate_manifest_format}
use onix_core.Backup.Format.Accepts.{Ascending, validate_manifest_format-render_manifest}
use onix_core.Backup.Commands.{
  Disk, System, Directory, validate_root, is_there, write_manifest, remove_temporary, finish_create,
  create_manifest_atomic,
}

pub not_there : (o : Option Text) → is_there o ≡ false → o ≡ none
not_there none h = refl
not_there (some s) h = absurd (ground arith)

pub same_disk : (a b : Disk) → a.manifest ≡ b.manifest → a.temporary ≡ b.temporary → a ≡ b
same_disk a b p q = cc

pub Result-cases :
    {A : Type 0} (m : Result Error A) → ((e : Error) × (m ≡ err e)) ⊎ ((a : A) × (m ≡ ok a))
Result-cases (err e) = inl (e, refl)
Result-cases (ok a) = inr (a, refl)

validate_root-eq-ok :
    (root : Option Node) (found : Directory)
    → validate_root root ≡ ok found
    → root ≡ some (directory_node found.0 found.1)
unfolding validate_root
validate_root-eq-ok none found h = cc
validate_root-eq-ok (some (directory_node m entries)) found h =
    ap (λ (f : Directory). some (directory_node f.0 f.1)) (ok_same _ _ h)
validate_root-eq-ok (some (file_node before after content)) found h = cc
validate_root-eq-ok (some (symlink_node m target)) found h = cc
validate_root-eq-ok (some (other_node m)) found h = cc

-- What a successful run leaves of a directory with these entries: the file, its records and the
-- statistics `stats`.
pub record IsComplete (entries : Entries) (stats : ManifestStats) (disk : Disk) : Type 0 where
  pub rs : List ManifestRecord
  pub on_disk : disk ≡ record { manifest = some (render_manifest rs); temporary = none }
  pub are_records : All IsRecord rs
  pub ascending : Ascending rs
  pub one_each : length rs ≡ entry_count entries
  pub records : stats.records ≡ entry_count entries
  pub bytes : stats.bytes ≡ entry_bytes entries
  pub accepted : validate_manifest_format (render_manifest rs) ≡ ok stats

module _ (system : System) where
  pub written :
      (found : Directory) (content : Text) (stats : ManifestStats)
      → write_manifest system found ≡ ok (content, stats)
      → (rs : List ManifestRecord) × (walk_directory system.hash found.0.dev [] found.1
            (record { records = 0; bytes = 0 })
          ≡ ok (rs, stats))
        × (content ≡ render_manifest rs)
  unfolding write_manifest
  written found content stats h =
      let (p, h₁) = reject-then (system.fails write) _ _ h in
      let (walked, walks, h₂) =
        >>=-eq-ok (walk_directory system.hash found.0.dev [] found.1 _) _ h₁ in
      let (q, h₃) = reject-then (system.fails flush) _ _ h₂ in
      let (r, h₄) = reject-then (system.fails sync) _ _ h₃ in (walked.0, ground arith, ground arith)

  pub write_manifest-accepted :
      (found : Directory) (content : Text) (stats : ManifestStats)
      → IsHexHash system.hash
      → AreEntries found.1
      → write_manifest system found ≡ ok (content, stats)
      → validate_manifest_format content ≡ ok stats
  write_manifest-accepted found content stats hex t h =
      let (rs, walks, made) = written found content stats h in
      let w = walk_directory-Emits system.hash hex found.0.dev found.1 t _ stats rs walks in
      rw made
        (validate_manifest_format-render_manifest rs stats w.are_records w.ascending w.counted)

  -- What `finish_create` did: the old manifest stays, or the text that was written replaces it.
  finish_create-err :
      (m : Result Error (Text × ManifestStats)) (disk : Disk) (e : Error)
      → disk.temporary ≡ none
      → (finish_create system m disk).0 ≡ err e
      → ((finish_create system m disk).1.manifest ≡ disk.manifest)
        × (system.fails remove ≡ false
            → system.fails rename ≡ false
            → (finish_create system m disk).1 ≡ disk)
  unfolding finish_create remove_temporary
  finish_create-err (err e') disk e free = λ h. (refl, λ p q. rw p (same_disk _ _ refl (sym free)))
  finish_create-err (ok (content, stats)) disk e free = elim (Bool-cases (system.fails rename)) [
    | inl failed ↦ rw failed (λ h. (refl, λ p q. absurd (ground arith)))
    | inr done ↦ rw done (λ h. absurd (ground arith))
  ]

  finish_create-ok :
      (m : Result Error (Text × ManifestStats)) (disk : Disk) (stats : ManifestStats)
      → (finish_create system m disk).0 ≡ ok stats
      → (content : Text) × (m ≡ ok (content, stats))
        × ((finish_create system m disk).1 ≡ record { manifest = some content; temporary = none })
  unfolding finish_create
  finish_create-ok (err e) disk stats = λ h. absurd (ground arith)
  finish_create-ok (ok (content, counted)) disk stats = elim (Bool-cases (system.fails rename)) [
    | inl failed ↦ rw failed (λ h. absurd (ground arith))
    | inr done ↦ rw done (λ h. (content, ground arith, refl))
  ]

  -- Where `create_manifest_atomic` returns an error, the manifest is what it was; the whole disk is,
  -- unless the rename or the removal of the temporary file failed.
  pub create_manifest_atomic-err :
      (root : Option Node) (disk : Disk) (e : Error)
      → (create_manifest_atomic system root disk).0 ≡ err e
      → ((create_manifest_atomic system root disk).1.manifest ≡ disk.manifest)
        × (system.fails remove ≡ false
            → system.fails rename ≡ false
            → (create_manifest_atomic system root disk).1 ≡ disk)
  unfolding create_manifest_atomic
  create_manifest_atomic-err root disk e = elim (Result-cases (validate_root root)) [
    | inl (e', p) ↦ rw (p, create_manifest_atomic) (λ h. (refl, λ _ _. refl))
    | inr (found, p) ↦ elim (Bool-cases (is_there disk.temporary || system.fails open_temporary)) [
      | inl blocked ↦ rw (p, create_manifest_atomic, blocked) (λ h. (refl, λ _ _. refl))
      | inr free ↦
          rw (p, create_manifest_atomic, free)
            (finish_create-err (write_manifest system found) disk e
              (not_there disk.temporary (or-eq-false free).0))
    ]
  ]

  -- The steps of a run that returned statistics.
  pub create_manifest_atomic-ok :
      (root : Option Node) (disk : Disk) (stats : ManifestStats)
      → (create_manifest_atomic system root disk).0 ≡ ok stats
      → (found : Directory) × (content : Text) × (validate_root root ≡ ok found)
        × (write_manifest system found ≡ ok (content, stats))
        × ((create_manifest_atomic system root disk).1
            ≡ record { manifest = some content; temporary = none })
  unfolding create_manifest_atomic
  create_manifest_atomic-ok root disk stats = elim (Result-cases (validate_root root)) [
    | inl (e', p) ↦ rw (p, create_manifest_atomic) (λ h. absurd (ground arith))
    | inr (found, p) ↦ elim (Bool-cases (is_there disk.temporary || system.fails open_temporary)) [
      | inl blocked ↦ rw (p, create_manifest_atomic, blocked) (λ h. absurd (ground arith))
      | inr free ↦
          rw (p, create_manifest_atomic, free)
            (λ h.
              let (content, made, left) =
                finish_create-ok (write_manifest system found) disk stats h in
              (found, content, refl, made, left))
    ]
  ]

  -- Where `create_manifest_atomic` returns statistics, for a root with a well-formed tree and a hash
  -- of 64 lower-case hexadecimal digits, the root is a directory, no temporary file is left, and the
  -- manifest lists strictly ascending, well-formed records, as many as the tree has entries; the
  -- statistics are that number and the total length of the tree's files, as their metadata give it,
  -- and of its link targets, and they are what the format check returns for the manifest.
  pub create_manifest_atomic-IsComplete :
      (root : Option Node) (disk : Disk) (stats : ManifestStats)
      → IsHexHash system.hash
      → ((found : Directory) → validate_root root ≡ ok found → AreEntries found.1)
      → (create_manifest_atomic system root disk).0 ≡ ok stats
      → (m : Metadata) × (entries : Entries) × (root ≡ some (directory_node m entries))
        × IsComplete entries stats (create_manifest_atomic system root disk).1
  create_manifest_atomic-IsComplete root disk stats hex trees h =
      let (found, content, rooted, made, left) = create_manifest_atomic-ok root disk stats h in
      let (rs, walks, text) = written found content stats made in
      let fine = trees found rooted in
      let out = walk_directory-Emits system.hash hex found.0.dev found.1 fine _ stats rs walks in
      let total = walk_directory-Totals system.hash found.0.dev found.1 _ stats rs walks in
      (
        found.0,
        found.1,
        validate_root-eq-ok root found rooted,
        record {
          rs = rs;
          on_disk = left ∙ ap (λ t. record { manifest = some t; temporary = none }) text;
          are_records = out.are_records;
          ascending = out.ascending;
          one_each = total.written;
          records = omega (arith, total.records);
          bytes = omega (arith, total.bytes);
          accepted =
              validate_manifest_format-render_manifest rs stats out.are_records out.ascending
                out.counted;
        },
      )
