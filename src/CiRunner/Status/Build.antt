-- ===== src/CiRunner/Status/Build.antt =====
-- When a built status passes the validation that rendering and parsing make, from
-- `build_signed_status` and `validate_signed_status` of `pkgs/radicle-ci-runner/src/guard.rs`.
use onix_core.Base.{
  ℕ, String, true, false, not, List, [], ◌∷◌, ◌||◌, all, ◌≡◌, refl, subst, sym, ◌∙◌, ◌↔◌, arith,
  string_eq, option_eq, list_eq, ==_refl, eq_of_not-ne,
}
use onix_core.Base.Results.{ok, ok_or, >>=-eq-ok}
use onix_core.Base.Text.{codes}
use onix_core.CiRunner.Types.{
  RunnerConfigV1, AdmittedEventV1, JobResultV1, trigger_eq, locks_eq, disposition_eq,
}
use onix_core.CiRunner.Checks
use onix_core.CiRunner.Checks.{is_lower_hex}
use onix_core.CiRunner.Config.{validate_config}
use onix_core.CiRunner.Digest.{Fact, Digest, HexDigest}
use onix_core.CiRunner.Admission.{
  event_candidate, event_invalid, derive_job_id, validate_event, validate_result,
}
use onix_core.CiRunner.Admission.Events.{validate_event-checked, validate_event-IsAdmitted}
use onix_core.CiRunner.GuardTypes.{SignedStatusV1}
use onix_core.CiRunner.GuardChecks
use onix_core.CiRunner.GuardChecks.{
  lower_hex_byte, event_facts, result_facts, status_schema, status_claim_scope, status_non_claim,
  canonical_blake3,
}
use onix_core.CiRunner.Status.{
  fields_invalid, expected_status_blake3, validate_signed_status, build_signed_status,
}

hex_bytes : (s : List ℕ) → all is_lower_hex s ≡ all lower_hex_byte s
unfolding is_lower_hex lower_hex_byte
hex_bytes [] = refl
hex_bytes (c ∷ s) = ground (arith, hex_bytes s)

-- The digest and object tests of the two files agree.
digest-eq : (s : String) → Checks.blake3_digest s ≡ GuardChecks.blake3_digest s
unfolding Checks.blake3_digest GuardChecks.blake3_digest
digest-eq s = rw (hex_bytes (codes s))

oid-eq : (s : String) → Checks.git_oid s ≡ GuardChecks.git_oid s
unfolding Checks.git_oid GuardChecks.git_oid
oid-eq s = rw (hex_bytes (codes s))

line-eq : (s : String) → Checks.one_line s ≡ GuardChecks.one_line s
unfolding Checks.one_line GuardChecks.one_line
line-eq s = refl

-- What building a status has established.
record IsBuilt (d : Digest) (config : RunnerConfigV1) (event : AdmittedEventV1)
    (result : JobResultV1) (status : SignedStatusV1) : Type 0 where
  valid_event : validate_event d config event ≡ ok tt
  valid_result : validate_result event result ≡ ok tt
  event_made : canonical_blake3 d (event_facts event) ≡ ok status.event_blake3
  result_made : canonical_blake3 d (result_facts result) ≡ ok status.result_blake3
  made : expected_status_blake3 d status ≡ ok status.status_blake3
  schema : status.schema ≡ status_schema
  policy : status.policy_blake3 ≡ event.policy_blake3
  check : status.check_name ≡ config.check_name
  job : status.job_id ≡ event.job_id
  object : status.object_oid ≡ event.object_oid
  artifact : status.artifact_blake3 ≡ result.artifact_blake3
  scope : status.claim_scope ≡ status_claim_scope
  claim : status.non_claim ≡ status_non_claim

build_signed_status-IsBuilt :
    (d : Digest) (config : RunnerConfigV1) (event : AdmittedEventV1) (result : JobResultV1)
    (status : SignedStatusV1)
    → build_signed_status d config event result ≡ ok status
    → IsBuilt d config event result status
unfolding build_signed_status expected_status_blake3
build_signed_status-IsBuilt d config event result status h = ground arith

config_digest :
    (config : RunnerConfigV1)
    → validate_config config ≡ ok tt
    → (Checks.blake3_digest config.policy_blake3 ≡ true)
      × (Checks.one_line config.check_name ≡ true)
unfolding validate_config
config_digest config h = (ground arith, ground arith)

event_object :
    (config : RunnerConfigV1) (event : AdmittedEventV1)
    → event_invalid config event ≡ false
    → (Checks.git_oid event.object_oid ≡ true) × (event.policy_blake3 ≡ config.policy_blake3)
unfolding event_invalid
event_object config event h = (ground arith, eq_of_not-ne (ground arith))

module _ (d : Digest) (hex : HexDigest d) where
  canonical_blake3-digest :
      (facts : List Fact) {s : String}
      → canonical_blake3 d facts ≡ ok s
      → GuardChecks.blake3_digest s ≡ true
  unfolding canonical_blake3
  canonical_blake3-digest facts {s} h =
      let (bytes, _, made) = >>=-eq-ok (ok_or (d.to_vec facts) _) _ h in
      let same : d.blake3_hex bytes ≡ s = ground arith in
      subst (λ t. GuardChecks.blake3_digest t ≡ true) same (sym (digest-eq _) ∙ hex.hex bytes)

  derive_job_id-digest :
      (config : RunnerConfigV1) (event : AdmittedEventV1) {s : String}
      → derive_job_id d config (event_candidate event) event.source_archive_blake3 ≡ ok s
      → GuardChecks.blake3_digest s ≡ true
  unfolding derive_job_id
  derive_job_id-digest config event {s} h =
      let (bytes, _, made) = >>=-eq-ok (ok_or (d.to_vec _) _) _ h in
      let same : d.blake3_hex bytes ≡ s = ground arith in
      subst (λ t. GuardChecks.blake3_digest t ≡ true) same (sym (digest-eq _) ∙ hex.hex bytes)

  -- The parts of the final condition that a built status meets by itself.
  built_fields :
      (config : RunnerConfigV1) (event : AdmittedEventV1) (result : JobResultV1)
      (status : SignedStatusV1)
      → IsBuilt d config event result status
      → fields_invalid status ≡ (
          not (GuardChecks.radicle_id status.rid)
          || not (GuardChecks.git_oid status.patch_id)
          || not (GuardChecks.git_oid status.revision_id))
  unfolding fields_invalid validate_result
  built_fields config event result status b =
      let a = validate_event-IsAdmitted d config event b.valid_event in
      let c = config_digest config a.accepted in
      let o = event_object config event (validate_event-checked d config event b.valid_event) in
      ground (
        arith,
        b.policy,
        o.1,
        c,
        digest-eq config.policy_blake3,
        b.check,
        line-eq config.check_name,
        b.job,
        derive_job_id-digest config event a.job,
        b.object,
        o.0,
        oid-eq event.object_oid,
        b.artifact,
        b.valid_result,
        digest-eq result.artifact_blake3,
        canonical_blake3-digest (event_facts event) b.event_made,
        canonical_blake3-digest (result_facts result) b.result_made,
        ==_refl status_claim_scope,
        ==_refl status_non_claim,
      )

  -- A built status passes the validation of rendering and parsing exactly if its repository
  -- identifier meets the guard's stricter form and its patch and revision are Git object names,
  -- which admission does not ask for. The digests' text is assumed to be 64 hexadecimal digits.
  pub validate_signed_status-build_signed_status :
      (config : RunnerConfigV1) (event : AdmittedEventV1) (result : JobResultV1)
      (status : SignedStatusV1)
      → build_signed_status d config event result ≡ ok status
      → (validate_signed_status d status ≡ ok tt) ↔ (
          (GuardChecks.radicle_id status.rid ≡ true)
          × (GuardChecks.git_oid status.patch_id ≡ true)
          × (GuardChecks.git_oid status.revision_id ≡ true))
  unfolding validate_signed_status
  validate_signed_status-build_signed_status config event result status h =
      let b = build_signed_status-IsBuilt d config event result status h in
      let f = built_fields config event result status b in
      let own = ==_refl status.status_blake3 in
      let tag = (string_eq.beq_iff status.schema status_schema).1 b.schema in
      (λ v. ground (arith, b.made, f, own, tag), λ g. ground (arith, b.made, f, own, tag))
