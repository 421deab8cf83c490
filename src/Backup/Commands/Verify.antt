-- ===== src/Backup/Commands/Verify.antt =====
-- What a run of `verify_manifest` says, and that it accepts what was created.
use onix_core.Base.{
  false, Option, none, some, [], not, ◌≡◌, inl, inr, refl, sym, ap, ◌∙◌, subst, arith, Bool-cases,
  ◌||◌, or-eq-false,
}
use onix_core.Base.Results.{Result, ok, err, ok_or, >>=-eq-ok, reject-then, ok_or-eq-ok}
use onix_core.Base.Text.{Text}
use onix_core.Backup.Types.{ManifestStats, Error, io, open_temporary, open_manifest, remove, read}
use onix_core.Backup.Walk.{Node}
use onix_core.Backup.Walk.Trees.{AreEntries}
use onix_core.Backup.Walk.Sound.{IsHexHash}
use onix_core.Backup.Format.{validate_manifest_format}
use onix_core.Backup.Compare.{Reader, files_equal}
use onix_core.Backup.Compare.Exact.{IsReader, files_equal_sound, files_equal_iff}
use onix_core.Backup.Commands.{
  Disk, System, Directory, validate_root, is_there, write_manifest, remove_temporary,
  create_manifest_atomic, compared, finish_verify, checked_root, verify_manifest,
}
use onix_core.Backup.Commands.Create.{
  Result-cases, not_there, same_disk, written, write_manifest-accepted, create_manifest_atomic-ok,
}

module _ (system : System) where
  removed :
      (content : Text) (disk : Disk)
      → disk.temporary ≡ none
      → ((remove_temporary system content disk).manifest ≡ disk.manifest)
        × (system.fails remove ≡ false → remove_temporary system content disk ≡ disk)
  unfolding remove_temporary
  removed content disk free = (refl, λ p. rw p (same_disk _ _ refl (sym free)))

  finish_verify-disk :
      (stats : ManifestStats) (expected : Text) (m : Result Error (Text × ManifestStats))
      (disk : Disk)
      → disk.temporary ≡ none
      → ((finish_verify system stats expected m disk).1.manifest ≡ disk.manifest)
        × (system.fails remove ≡ false → (finish_verify system stats expected m disk).1 ≡ disk)
  unfolding finish_verify
  finish_verify-disk stats expected (err e) disk free = removed system.partial disk free
  finish_verify-disk stats expected (ok (actual, counted)) disk free = removed actual disk free

  -- On every branch `verify_manifest` leaves the manifest as it was; it leaves the whole disk as it
  -- was, unless the removal of the temporary file failed.
  pub verify_manifest-disk :
      (root : Option Node) (disk : Disk)
      → ((verify_manifest system root disk).1.manifest ≡ disk.manifest)
        × (system.fails remove ≡ false → (verify_manifest system root disk).1 ≡ disk)
  unfolding verify_manifest
  verify_manifest-disk root disk = elim (Result-cases (checked_root system root disk)) [
    | inl (e, p) ↦ rw (p, verify_manifest) (refl, λ _. refl)
    | inr ((found, (expected, stats)), p) ↦
        elim (Bool-cases (is_there disk.temporary || system.fails open_temporary)) [
          | inl blocked ↦ rw (p, verify_manifest, blocked) (refl, λ _. refl)
          | inr free ↦
              rw (p, verify_manifest, free)
                (finish_verify-disk stats expected (write_manifest system found) disk
                  (not_there disk.temporary (or-eq-false free).0))
        ]
  ]

  compared-ok :
      (stats counted : ManifestStats) (expected actual : Text)
      → IsReader system.expected_reader
      → IsReader system.actual_reader
      → compared system stats expected actual ≡ ok counted
      → (expected ≡ actual) × (stats ≡ counted)
  unfolding compared
  compared-ok stats counted expected actual i j h =
      let (p, h₁) = reject-then (system.fails read) _ _ h in
      let (equal, answered, h₂) =
        >>=-eq-ok
          (ok_or (files_equal system.expected_reader system.actual_reader expected actual) _) _
          h₁ in
      let (same, h₃) = reject-then (not equal) _ _ h₂ in
      let (b, answer, sound) =
        files_equal_sound system.expected_reader system.actual_reader i j expected actual in
      let found =
        ok_or-eq-ok (files_equal system.expected_reader system.actual_reader expected actual) _
          answered in
      (sound (ground arith), ground arith)

  finish_verify-ok :
      (stats counted : ManifestStats) (expected : Text) (m : Result Error (Text × ManifestStats))
      (disk : Disk)
      → IsReader system.expected_reader
      → IsReader system.actual_reader
      → (finish_verify system stats expected m disk).0 ≡ ok counted
      → (stats ≡ counted) × ((written_stats : ManifestStats) × (m ≡ ok (expected, written_stats)))
  unfolding finish_verify
  finish_verify-ok stats counted expected (err e) disk i j h = absurd (ground arith)
  finish_verify-ok stats counted expected (ok (actual, written_stats)) disk i j h =
      let (same, counts) = compared-ok stats counted expected actual i j h in
      (counts, (written_stats, ap (λ t. ok (t, written_stats)) (sym same)))

  checked :
      (root : Option Node) (disk : Disk) (found : Directory) (expected : Text)
      (stats : ManifestStats)
      → checked_root system root disk ≡ ok (found, (expected, stats))
      → (validate_root root ≡ ok found)
        × (disk.manifest ≡ some expected)
        × (validate_manifest_format expected ≡ ok stats)
  unfolding checked_root
  checked root disk found expected stats h =
      let (f, rooted, h₁) = >>=-eq-ok (validate_root root) _ h in
      let (opened, h₂) = reject-then (system.fails open_manifest) _ _ h₁ in
      let (content, kept, h₃) = >>=-eq-ok (ok_or disk.manifest (io open_manifest)) _ h₂ in
      let (counted, format, same) = >>=-eq-ok (validate_manifest_format content) _ h₃ in
      let there = ok_or-eq-ok disk.manifest _ kept in (ground arith, ground arith, ground arith)

  -- Where `verify_manifest` returns statistics, the manifest is, byte for byte, what the walk over the
  -- root directory writes now, it has the manifest format, and the statistics are its own.
  pub verify_manifest-ok :
      (root : Option Node) (disk : Disk) (stats : ManifestStats)
      → IsReader system.expected_reader
      → IsReader system.actual_reader
      → (verify_manifest system root disk).0 ≡ ok stats
      → (found : Directory) × (content : Text) × (validate_root root ≡ ok found)
        × (disk.manifest ≡ some content)
        × (validate_manifest_format content ≡ ok stats)
        × ((written_stats : ManifestStats) × (write_manifest system found
              ≡ ok (content, written_stats)))
  unfolding verify_manifest
  verify_manifest-ok root disk stats i j = elim (Result-cases (checked_root system root disk)) [
    | inl (e, p) ↦ rw (p, verify_manifest) (λ h. absurd (ground arith))
    | inr ((found, (expected, expected_stats)), p) ↦
        elim (Bool-cases (is_there disk.temporary || system.fails open_temporary)) [
          | inl blocked ↦ rw (p, verify_manifest, blocked) (λ h. absurd (ground arith))
          | inr free ↦
              rw (p, verify_manifest, free)
                (λ h.
                  let (counts, made) =
                    finish_verify-ok expected_stats stats expected (write_manifest system found)
                      disk i j h in
                  let (rooted, kept, format) = checked root disk found expected expected_stats p in
                  (found, expected, rooted, kept, format ∙ ap ok counts, made))
        ]
  ]

-- The system at a later time, when no call fails and both files are read in the same portions.
abbrev pub calm : System → Reader → System
calm system reader = record {
  hash = system.hash;
  fails = λ _. false;
  partial = [];
  expected_reader = reader;
  actual_reader = reader;
}

module _ (system : System) (reader : Reader) where
  write_manifest-again :
      (found : Directory) (content : Text) (stats : ManifestStats)
      → write_manifest system found ≡ ok (content, stats)
      → write_manifest (calm system reader) found ≡ ok (content, stats)
  unfolding write_manifest
  write_manifest-again found content stats h =
      let (rs, walks, made) = written system found content stats h in rw (walks, made) refl

  verify_manifest-written :
      (root : Option Node) (found : Directory) (content : Text) (stats : ManifestStats)
      → IsReader reader
      → validate_root root ≡ ok found
      → write_manifest (calm system reader) found ≡ ok (content, stats)
      → validate_manifest_format content ≡ ok stats
      → (verify_manifest
          (calm system reader)
          root
          (record { manifest = some content; temporary = none })).0
        ≡ ok stats
  unfolding verify_manifest finish_verify checked_root compared
  verify_manifest-written root found content stats i rooted made accepted =
      rw
        (rooted, verify_manifest, accepted, made, (files_equal_iff reader i content content).1 refl)
        refl

  -- A later run of `verify_manifest` accepts what `create_manifest_atomic` made, with the same
  -- statistics, if the tree did not change and is well-formed, digests are written as 64 lower-case
  -- hexadecimal digits, no call of the operating system fails, and the reads of the manifest and of
  -- the temporary file return the same portions, each a valid answer to a read.
  pub verify_manifest-create_manifest_atomic :
      (root : Option Node) (disk : Disk) (stats : ManifestStats)
      → IsHexHash system.hash
      → IsReader reader
      → ((found : Directory) → validate_root root ≡ ok found → AreEntries found.1)
      → (create_manifest_atomic system root disk).0 ≡ ok stats
      → (verify_manifest (calm system reader) root (create_manifest_atomic system root disk).1).0
        ≡ ok stats
  verify_manifest-create_manifest_atomic root disk stats hex i t h =
      let (found, content, rooted, made, left) =
        create_manifest_atomic-ok system root disk stats h in
      subst (λ d. (verify_manifest (calm system reader) root d).0 ≡ ok stats) (sym left)
        (verify_manifest-written root found content stats i rooted
          (write_manifest-again found content stats made)
          (write_manifest-accepted system found content stats hex (t found rooted) made))
