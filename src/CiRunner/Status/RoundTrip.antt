-- ===== src/CiRunner/Status/RoundTrip.antt =====
-- Parsing a rendered status gives it back: `render_signed_status` and `parse_signed_status` of
-- `pkgs/radicle-ci-runner/src/guard.rs`.
use onix_core.Base.{
  true, false, some, [], ◌∷◌, ◌++◌, any, all, is_nil, ◌≡◌, refl, ap, ◌∙◌, ◌==◌, not-ne_of_eq, ℕ-eq,
  arith, string_eq, list_eq,
}
use onix_core.Base.Results.{ok, >>=-eq-ok, ok_or-eq-ok}
use onix_core.Base.Text.{Text, codes, lines}
use onix_core.Base.Text.Lines.{is_break, any-append, lines-append, lines_last}
use onix_core.CiRunner.Types.{RunnerDisposition, succeeded}
use onix_core.CiRunner.Digest.{Digest}
use onix_core.CiRunner.GuardTypes.{SignedStatusV1}
use onix_core.CiRunner.GuardChecks.{lower_hex_byte, git_oid, blake3_digest}
use onix_core.CiRunner.Status.{
  status_marker, debug_disposition, StatusJson, human_line, validate_signed_status,
  render_signed_status, parse_lines, parse_signed_status,
}

-- What the crate relies on of `serde_json` for this type: a status's text is one line that is not
-- empty, since a control character in a string is escaped, and reading the text gives the status.
pub record IsFaithful (json : StatusJson) : Type 0 where
  pub one_line :
      (s : SignedStatusV1) (t : Text) → json.to_string s ≡ some t → any is_break t ≡ false
  pub not_empty : (s : SignedStatusV1) (t : Text) → json.to_string s ≡ some t → is_nil t ≡ false
  pub round : (s : SignedStatusV1) (t : Text) → json.to_string s ≡ some t → json.from_str t ≡ some s

hex-unbroken : (s : Text) → all lower_hex_byte s ≡ true → any is_break s ≡ false
unfolding lower_hex_byte is_break
hex-unbroken [] h = refl
hex-unbroken (c ∷ s) h = ground (arith, hex-unbroken s)

debug_disposition-unbroken : (r : RunnerDisposition) → any is_break (debug_disposition r) ≡ false
unfolding debug_disposition is_break
debug_disposition-unbroken succeeded = refl
debug_disposition-unbroken _ = refl

module _ (d : Digest) (status : SignedStatusV1) where
  -- What the human-readable line quotes.
  valid_quotes :
      validate_signed_status d status ≡ ok tt
      → (all lower_hex_byte (codes status.job_id) ≡ true)
        × (all lower_hex_byte (codes status.object_oid) ≡ true)
        × (all lower_hex_byte (codes status.artifact_blake3) ≡ true)
  unfolding validate_signed_status git_oid blake3_digest
  valid_quotes h = (ground arith, ground arith, ground arith)

  human_line-unbroken :
      validate_signed_status d status ≡ ok tt → any is_break (human_line status) ≡ false
  unfolding human_line is_break
  human_line-unbroken h =
      let q = valid_quotes h in
      simp (
        any-append,
        hex-unbroken (codes status.job_id) q.0,
        hex-unbroken (codes status.object_oid) q.1,
        hex-unbroken (codes status.artifact_blake3) q.2,
        debug_disposition-unbroken,
      )

  -- What rendering has established.
  record IsRendered (json : StatusJson) (t body : Text) : Type 0 where
    valid : validate_signed_status d status ≡ ok tt
    written : json.to_string status ≡ some t
    made : body ≡ status_marker ++ (b'\n' ∷ (t ++ (b'\n' ∷ b'\n' ∷ human_line status)))

  render_signed_status-IsRendered :
      (json : StatusJson) (body : Text)
      → render_signed_status d json status ≡ ok body
      → (t : Text) × IsRendered json t body
  unfolding render_signed_status
  render_signed_status-IsRendered json body h =
      let (u, valid, h₁) = >>=-eq-ok (validate_signed_status d status) _ h in
      let (t, written, h₂) = >>=-eq-ok _ _ h₁ in
      (
        t,
        record {
          valid = valid;
          written = ok_or-eq-ok (json.to_string status) _ written;
          made = ground arith;
        },
      )

  rendered_lines :
      (json : StatusJson) (t : Text)
      → IsFaithful json
      → validate_signed_status d status ≡ ok tt
      → json.to_string status ≡ some t
      → lines (status_marker ++ (b'\n' ∷ (t ++ (b'\n' ∷ b'\n' ∷ human_line status))))
        ≡ status_marker ∷ t ∷ [] ∷ human_line status ∷ []
  unfolding is_break human_line
  rendered_lines json t f v w =
      lines-append status_marker (t ++ (b'\n' ∷ b'\n' ∷ human_line status)) refl
      ∙ ap (λ rest. status_marker ∷ rest)
          (lines-append t (b'\n' ∷ human_line status) (f.one_line status t w)
            ∙ ap (λ rest. t ∷ rest)
                (lines-append [] (human_line status) refl
                  ∙ ap (λ rest. [] ∷ rest)
                      (lines_last (human_line status) (human_line-unbroken v) refl)))

  others_differ : any (λ line. line == status_marker) ([] ∷ human_line status ∷ []) ≡ false
  unfolding human_line list_eq ℕ-eq
  others_differ = refl

  parse_lines-rendered :
      (json : StatusJson) (t : Text)
      → IsFaithful json
      → validate_signed_status d status ≡ ok tt
      → json.to_string status ≡ some t
      → parse_lines d json (status_marker ∷ t ∷ [] ∷ human_line status ∷ []) ≡ ok status
  unfolding parse_lines
  parse_lines-rendered json t f v w = ground (
    arith,
    not-ne_of_eq {a = status_marker} refl,
    others_differ,
    f.not_empty status t w,
    f.round status t w,
  )

  -- Parsing the body that rendering a status returns gives that status, for every faithful JSON
  -- codec.
  pub parse_signed_status-render_signed_status :
      (json : StatusJson) (body : Text)
      → IsFaithful json
      → render_signed_status d json status ≡ ok body
      → parse_signed_status d json body ≡ ok status
  unfolding parse_signed_status
  parse_signed_status-render_signed_status json body f h =
      let (t, r) = render_signed_status-IsRendered json body h in
      ap (λ b. parse_lines d json (lines b)) r.made
      ∙ ap (parse_lines d json) (rendered_lines json t f r.valid r.written)
      ∙ parse_lines-rendered json t f r.valid r.written
