-- ===== src/Backup/Records/RoundTrip.antt =====
-- Reading back a record that was written.
use Prim.Native.Nat.{◌≤◌, ◌<◌}
use onix_core.Base.{
  ℕ, true, false, [], ◌∷◌, ◌++◌, ◌≡◌, refl, All, All-append, any, all, leb, ◌&&◌, ◌||◌, list_eq,
  ℕ-eq, nat_eq, arith, sym, subst, eq_of_not-ne,
}
use onix_core.Base.Results.{ok}
use onix_core.Base.Sort.Distinct.{All-map}
use onix_core.Base.Text.{Text, is_ascii_digit}
use onix_core.Backup.Types.{EntryKind, directory, file, symlink, marker, ManifestRecord}
use onix_core.Backup.Hex.{hex_digit, hex_encode, IsByte, hex_decode-hex_encode}
use onix_core.Backup.Numbers.{Radix, decimal, octal, format, IsDigit, format-IsDigit, parse-format}
use onix_core.Backup.Paths.{split, validate_relative_path}
use onix_core.Backup.Paths.Split.{split_single, split_piece}
use onix_core.Backup.Records.{
  max_u64, max_u32, hash_placeholder, render_record, parse_kind, valid_blake3_hex, validate_hash,
  mode_exceeds_mask, parse_record,
}

-- A record that the manifest can hold.
pub record IsRecord (r : ManifestRecord) : Type 0 where
  pub hashed : validate_hash r.kind r.hash ≡ ok tt
  pub size_fits : r.size ≤ max_u64
  pub mode_fits : r.mode < 4096
  pub uid_fits : r.uid ≤ max_u32
  pub gid_fits : r.gid ≤ max_u32
  pub path_bytes : All IsByte r.relative_path
  pub path_valid : validate_relative_path r.relative_path ≡ ok tt

-- The bytes of the fields: no space, no control byte, and ASCII.
abbrev pub IsPlain : ℕ → Type 0
IsPlain c = (b'-' ≤ c) × (c < 128)

abbrev pub Without : ℕ → Text → Type 0
Without d s = any (λ c. nat_eq c d) s ≡ false

plain-Without : (d : ℕ) (s : Text) → d < b'-' → All IsPlain s → Without d s
plain-Without d [] h ps = refl
plain-Without d (c ∷ s) h ps = ground (arith, plain-Without d s)

format-IsPlain : (r : Radix) (n : ℕ) → All IsPlain (format r n)
format-IsPlain r n =
    All-map (λ c (h : IsDigit c). (omega arith, omega arith)) (format r n) (format-IsDigit r n)

hex_encode-IsPlain : (s : Text) → All IsByte s → All IsPlain (hex_encode s)
unfolding hex_encode hex_digit
hex_encode-IsPlain [] h = tt
hex_encode-IsPlain (c ∷ s) h = (ground arith, (ground arith, hex_encode-IsPlain s h.1))

hex-IsPlain :
    (s : Text) → all (λ c. is_ascii_digit c || (leb b'a' c && leb c b'f')) s ≡ true → All IsPlain s
unfolding is_ascii_digit
hex-IsPlain [] a = tt
hex-IsPlain (c ∷ s) a = (ground arith, hex-IsPlain s (ground arith))

hash-IsPlain : (kind : EntryKind) (hash : Text) → validate_hash kind hash ≡ ok tt → All IsPlain hash
unfolding validate_hash valid_blake3_hex
hash-IsPlain directory hash v =
    let e : hash ≡ hash_placeholder = eq_of_not-ne (ground arith) in
    subst (All IsPlain) (sym e) ((omega arith, omega arith), tt)
hash-IsPlain file hash v = hex-IsPlain hash (ground arith)
hash-IsPlain symlink hash v = hex-IsPlain hash (ground arith)

marker-IsPlain : (kind : EntryKind) → All IsPlain (marker kind)
unfolding marker
marker-IsPlain directory = omega arith
marker-IsPlain file = omega arith
marker-IsPlain symlink = omega arith

abbrev pub IsAscii : ℕ → Type 0
IsAscii c = (b' ' ≤ c) × (c < 128)

ascii : (s : Text) → All IsPlain s → All IsAscii s
ascii s h = All-map (λ c (p : IsPlain c). (omega arith, omega arith)) s h

spaced : (a b : Text) → All IsPlain a → All IsAscii b → All IsAscii (a ++ (b' ' ∷ b))
spaced a b ha hb = All-append IsAscii a (b' ' ∷ b) (ascii a ha) ((omega arith, omega arith), hb)

parse_kind-marker : (kind : EntryKind) → parse_kind (marker kind) ≡ ok kind
unfolding parse_kind marker list_eq ℕ-eq
parse_kind-marker directory = refl
parse_kind-marker file = refl
parse_kind-marker symlink = refl

module _ (r : ManifestRecord) (v : IsRecord r) where
  spaceless : (a : Text) → All IsPlain a → Without b' ' a
  spaceless a = plain-Without b' ' a (omega arith)

  split-render_record :
      split b' ' (render_record r)
      ≡ marker r.kind
        ∷ r.hash
        ∷ format decimal r.size
        ∷ format octal r.mode
        ∷ format decimal r.uid
        ∷ format decimal r.gid
        ∷ hex_encode r.relative_path
        ∷ []
  unfolding render_record
  split-render_record =
      rw
        (
          split_piece b' ' (marker r.kind) _ (spaceless _ (marker-IsPlain r.kind)),
          split_piece b' ' r.hash _ (spaceless _ (hash-IsPlain r.kind r.hash v.hashed)),
          split_piece b' ' (format decimal r.size) _ (spaceless _ (format-IsPlain decimal r.size)),
          split_piece b' ' (format octal r.mode) _ (spaceless _ (format-IsPlain octal r.mode)),
          split_piece b' ' (format decimal r.uid) _ (spaceless _ (format-IsPlain decimal r.uid)),
          split_piece b' ' (format decimal r.gid) _ (spaceless _ (format-IsPlain decimal r.gid)),
          split_single b' ' (hex_encode r.relative_path)
              (spaceless _ (hex_encode-IsPlain r.relative_path v.path_bytes)),
        )
        refl

  mode_within : mode_exceeds_mask r.mode ≡ false
  unfolding mode_exceeds_mask
  mode_within = ground (arith, v.mode_fits)

  -- A written record is read back as it was, if its hash has the form that its kind asks for, its
  -- numbers fit their widths and the permission mask, and its path is accepted.
  pub parse_record-render_record : parse_record (render_record r) ≡ ok r
  unfolding parse_record
  parse_record-render_record =
      rw
        (
          split-render_record,
          parse_kind-marker r.kind,
          v.hashed,
          parse-format decimal max_u64 r.size v.size_fits,
          parse-format octal max_u32 r.mode (omega (arith, v.mode_fits)),
          mode_within,
          parse-format decimal max_u32 r.uid v.uid_fits,
          parse-format decimal max_u32 r.gid v.gid_fits,
          hex_decode-hex_encode r.relative_path v.path_bytes,
          v.path_valid,
        )
        refl

  -- A written record is printable ASCII.
  pub render_record-IsAscii : All IsAscii (render_record r)
  unfolding render_record
  render_record-IsAscii = spaced _ _ (marker-IsPlain r.kind) (
      spaced _ _ (hash-IsPlain r.kind r.hash v.hashed) (
        spaced _ _ (format-IsPlain decimal r.size) (
          spaced _ _ (format-IsPlain octal r.mode) (
            spaced _ _ (format-IsPlain decimal r.uid) (
              spaced _ _ (format-IsPlain decimal r.gid)
                (ascii _ (hex_encode-IsPlain r.relative_path v.path_bytes)))))))
