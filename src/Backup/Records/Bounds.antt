-- ===== src/Backup/Records/Bounds.antt =====
-- What a line must be like for `parse_record` to accept it.
use Prim.Native.Nat.{◌<◌}
use onix_core.Base.{ℕ, ◌+◌, ◌*◌, List, [], ◌∷◌, ◌≡◌, subst, All, arith, Bool-cases, inl, inr}
use onix_core.Base.Results.{ok, ok_or, >>=-eq-ok, reject-then, ok_or-eq-ok}
use onix_core.Base.Text.{Text}
use onix_core.Backup.Types.{ManifestRecord}
use onix_core.Backup.Hex.{hex_value, decode_pairs, even_length, hex_decode, IsByte}
use onix_core.Backup.Numbers.{decimal, octal, parse, parse_bound}
use onix_core.Backup.Paths.{split, validate_relative_path}
use onix_core.Backup.Records.{
  max_u64, max_u32, parse_kind, validate_hash, mode_exceeds_mask, parse_fields, parse_record,
}
use onix_core.Backup.Records.RoundTrip.{IsRecord}

hex_value_bound : (c v : ℕ) → hex_value c ≡ ok v → v < 16
unfolding hex_value
hex_value_bound c v h = ground arith

decode_pairs-IsByte : (s bytes : Text) → decode_pairs s ≡ ok bytes → All IsByte bytes
unfolding decode_pairs
decode_pairs-IsByte [] bytes h = let same : [] ≡ bytes = ground arith in subst (All IsByte) same tt
decode_pairs-IsByte (c ∷ []) bytes h =
    let same : [] ≡ bytes = ground arith in subst (All IsByte) same tt
decode_pairs-IsByte (c ∷ d ∷ s) bytes h =
    let (high, p, h₁) = >>=-eq-ok (hex_value c) _ h in
    let (low, q, h₂) = >>=-eq-ok (hex_value d) _ h₁ in
    let (rest, r, made) = >>=-eq-ok (decode_pairs s) _ h₂ in
    let high_bound = hex_value_bound c high p in
    let low_bound = hex_value_bound d low q in
    let same : (high * 16 + low) ∷ rest ≡ bytes = ground arith in
    subst (All IsByte) same (omega arith, decode_pairs-IsByte s rest r)

hex_decode-IsByte : (s bytes : Text) → hex_decode s ≡ ok bytes → All IsByte bytes
unfolding hex_decode
hex_decode-IsByte s bytes = elim (Bool-cases (even_length s)) [
  | inl even ↦ rw even (decode_pairs-IsByte s bytes)
  | inr odd ↦ rw odd (λ h. cc)
]

parse_fields-IsRecord :
    (fields : List Text) (r : ManifestRecord) → parse_fields fields ≡ ok r → IsRecord r
unfolding parse_fields mode_exceeds_mask
parse_fields-IsRecord [] r h = cc
parse_fields-IsRecord (f0 ∷ []) r h = cc
parse_fields-IsRecord (f0 ∷ f1 ∷ []) r h = cc
parse_fields-IsRecord (f0 ∷ f1 ∷ f2 ∷ []) r h = cc
parse_fields-IsRecord (f0 ∷ f1 ∷ f2 ∷ f3 ∷ []) r h = cc
parse_fields-IsRecord (f0 ∷ f1 ∷ f2 ∷ f3 ∷ f4 ∷ []) r h = cc
parse_fields-IsRecord (f0 ∷ f1 ∷ f2 ∷ f3 ∷ f4 ∷ f5 ∷ []) r h = cc
parse_fields-IsRecord (f0 ∷ f1 ∷ f2 ∷ f3 ∷ f4 ∷ f5 ∷ f6 ∷ f7 ∷ fs) r h = cc
parse_fields-IsRecord (f0 ∷ f1 ∷ f2 ∷ f3 ∷ f4 ∷ f5 ∷ f6 ∷ []) r h =
    let (kind, k, h₁) = >>=-eq-ok (parse_kind f0) _ h in
    let (u, hashed, h₂) = >>=-eq-ok (validate_hash kind f1) _ h₁ in
    let (size, s, h₃) = >>=-eq-ok (ok_or (parse decimal max_u64 f2) _) _ h₂ in
    let (mode, m, h₄) = >>=-eq-ok (ok_or (parse octal max_u32 f3) _) _ h₃ in
    let (masked, h₅) = reject-then (mode_exceeds_mask mode) _ _ h₄ in
    let (uid, i, h₆) = >>=-eq-ok (ok_or (parse decimal max_u32 f4) _) _ h₅ in
    let (gid, g, h₇) = >>=-eq-ok (ok_or (parse decimal max_u32 f5) _) _ h₆ in
    let (path, p, h₈) = >>=-eq-ok (hex_decode f6) _ h₇ in
    let (v, valid, made) = >>=-eq-ok (validate_relative_path path) _ h₈ in
    let same : (record {
      kind = kind;
      hash = f1;
      size = size;
      mode = mode;
      uid = uid;
      gid = gid;
      relative_path = path;
    })
        ≡ r =
      ground arith in
    subst IsRecord same (record {
      hashed = hashed;
      size_fits = parse_bound decimal max_u64 f2 size (ok_or-eq-ok _ _ s);
      mode_fits = ground arith;
      uid_fits = parse_bound decimal max_u32 f4 uid (ok_or-eq-ok _ _ i);
      gid_fits = parse_bound decimal max_u32 f5 gid (ok_or-eq-ok _ _ g);
      path_bytes = hex_decode-IsByte f6 path p;
      path_valid = valid;
    })

-- Whatever line `parse_record` accepts, the record has a hash of the form that its kind asks for,
-- numbers that fit their widths and the permission mask, and an accepted path.
pub parse_record-IsRecord :
    (line : Text) (r : ManifestRecord) → parse_record line ≡ ok r → IsRecord r
unfolding parse_record
parse_record-IsRecord line r h = parse_fields-IsRecord (split b' ' line) r h
