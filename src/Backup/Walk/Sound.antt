-- ===== src/Backup/Walk/Sound.antt =====
-- The walk over a tree writes ascending records that the manifest can hold.
use Prim.Native.Nat.{◌≤◌, ◌%◌}
use onix_core.Base.{
  ℕ, true, List, [], ◌∷◌, ◌++◌, ◌≡◌, refl, sym, subst, ap, ◌∙◌, All, All-append, arith, length,
  ◌!=◌, ℕ-eq, list_eq,
}
use mathlib.Core.List.{append_assoc}
use onix_core.Base.Results.{ok_same, ok, >>=-eq-ok, reject-then}
use onix_core.Base.Sort.Distinct.{All-map}
use onix_core.Base.Text.{Text}
use onix_core.Backup.Types.{EntryKind, ManifestRecord, ManifestStats, directory, file, symlink}
use onix_core.Backup.Hex.{IsByte}
use onix_core.Backup.Paths.{split, join, validate_relative_path}
use onix_core.Backup.Paths.Order.{Before-below}
use onix_core.Backup.Records.{max_u64, hash_placeholder, valid_blake3_hex, validate_hash}
use onix_core.Backup.Records.RoundTrip.{IsRecord}
use onix_core.Backup.Format.Accepts.{count_all}
use onix_core.Backup.Walk.{
  Walk, Metadata, metadata_of, Node, directory_node, file_node, symlink_node, other_node,
  add_record, record_for_path, visit, file_identity_changed,
}
use onix_core.Backup.Walk.Trees.{IsMetadata, IsTree}
use onix_core.Backup.Walk.Emits.{Below, Emitted, Emits}

-- A digest's text is 64 lower-case hexadecimal digits.
abbrev pub IsHexHash : (Text → Text) → Type 0
IsHexHash hash = (s : Text) → valid_blake3_hex (hash s) ≡ true

pub join-IsByte :
    (directory name : Text)
    → All IsByte directory
    → All IsByte name
    → All IsByte (join directory name)
unfolding join
join-IsByte [] name d n = n
join-IsByte (c ∷ s) name d n = All-append IsByte (c ∷ s) (b'/' ∷ name) d (omega arith, n)

-- The record that `record_for_path` makes of its parts.
abbrev record_of : EntryKind → Text → ℕ → Metadata → Text → ManifestRecord
record_of kind hash size m path = record {
  kind = kind;
  hash = hash;
  size = size;
  mode = m.mode % 4096;
  uid = m.uid;
  gid = m.gid;
  relative_path = path;
}

record_of-IsRecord :
    (kind : EntryKind) (hash : Text) (size : ℕ) (m : Metadata) (path : Text) (r : ManifestRecord)
    → validate_hash kind hash ≡ ok tt
    → size ≤ max_u64
    → IsMetadata m
    → All IsByte path
    → validate_relative_path path ≡ ok tt
    → record_of kind hash size m path ≡ r
    → IsRecord r × (r.relative_path ≡ path)
record_of-IsRecord kind hash size m path r v fits t b p same =
    subst (λ q. IsRecord q × (q.relative_path ≡ path)) same
      (
        record {
          hashed = v;
          size_fits = fits;
          mode_fits = omega arith;
          uid_fits = t.uid_fits;
          gid_fits = t.gid_fits;
          path_bytes = b;
          path_valid = p;
        },
        refl,
      )

placeholder_valid : validate_hash directory hash_placeholder ≡ ok tt
unfolding validate_hash list_eq ℕ-eq
placeholder_valid = refl

-- A record and, below its path, the records of the rest.
first-Emitted :
    (start : List Text) (name path : Text) (r : ManifestRecord)
    (stats counted stats' : ManifestStats) (rest : List ManifestRecord)
    → IsRecord r
    → r.relative_path ≡ path
    → split b'/' path ≡ start ++ (name ∷ [])
    → add_record stats r.size ≡ ok counted
    → Emitted (split b'/' path) (λ n. Unit {0}) counted stats' rest
    → Emitted start (λ n. n ≡ name) stats stats' (r ∷ rest)
unfolding count_all
first-Emitted start name path r stats counted stats' rest good here at added w =
    let its_parts : split b'/' r.relative_path ≡ split b'/' path = ap (split b'/') here in
    record {
      are_records = (good, w.are_records);
      ascending = (
        All-map
            (λ q (below : Below (split b'/' path) (λ n. Unit {0}) q).
              Before-below below.1 below.0 r.relative_path q.relative_path
                (below.2 ∙ ap (λ p. p ++ (below.0 ∷ below.1)) (sym its_parts)))
            rest w.below,
        w.ascending,
      );
      below = (
        (name, [], its_parts ∙ at, refl),
        All-map
            (λ q (below : Below (split b'/' path) (λ n. Unit {0}) q). (
              name,
              below.0 ∷ below.1,
              below.2
                  ∙ (ap (λ p. p ++ (below.0 ∷ below.1)) at
                      ∙ append_assoc start (name ∷ []) (below.0 ∷ below.1)),
              refl,
            ))
            rest w.below,
      );
      counted = rw added w.counted;
    }

module _ (hash : Text → Text) (hex : IsHexHash hash) where
  record_for_path-IsRecord :
      (path : Text) (node : Node) (r : ManifestRecord)
      → All IsByte path
      → validate_relative_path path ≡ ok tt
      → IsTree node
      → record_for_path hash path node ≡ ok r
      → IsRecord r × (r.relative_path ≡ path)
  unfolding record_for_path validate_hash
  record_for_path-IsRecord path (directory_node m entries) r b v t h =
      record_of-IsRecord directory hash_placeholder 0 m path r placeholder_valid (omega arith) t.0 b
        v (ok_same _ _ h)
  record_for_path-IsRecord path (file_node before after content) r b v t h =
      record_of-IsRecord file (hash content) before.len before path r (rw (hex content) refl)
        t.len_fits t b v (ok_same _ _ (reject-then (file_identity_changed before after) _ _ h).1)
  record_for_path-IsRecord path (symlink_node m target) r b v t h =
      record_of-IsRecord symlink (hash target) (length target) m path r (rw (hex target) refl) t.1
        t.0 b v (ok_same _ _ h)
  record_for_path-IsRecord path (other_node m) r b v t h = cc

  pub visit-Emits :
      (root_device : ℕ) (start : List Text) (name path : Text) (node : Node) (below : Walk)
      → split b'/' path ≡ start ++ (name ∷ [])
      → All IsByte path
      → IsTree node
      → Emits (split b'/' path) (λ n. Unit {0}) below
      → Emits start (λ n. n ≡ name) (visit hash root_device path node below)
  unfolding visit
  visit-Emits root_device start name path node below at b t e stats stats' rs h =
      let (u, valid, h₁) = >>=-eq-ok (validate_relative_path path) _ h in
      let (inside, h₂) = reject-then ((metadata_of node).dev != root_device) _ _ h₁ in
      let (r, recorded, h₃) = >>=-eq-ok (record_for_path hash path node) _ h₂ in
      let (counted, added, h₄) = >>=-eq-ok (add_record stats r.size) _ h₃ in
      let (rest, walked, made) = >>=-eq-ok (below counted) _ h₄ in
      let (good, its_path) = record_for_path-IsRecord path node r b valid t recorded in
      let same : ◌≡◌ {A = List ManifestRecord × ManifestStats} (r ∷ rest.0, rest.1) (rs, stats') =
        ok_same _ _ made in
      subst (λ p. Emitted start (λ n. n ≡ name) stats p.1 p.0) same
        (first-Emitted start name path r stats counted rest.1 rest.0 good its_path at added
          (e counted rest.1 rest.0 walked))
