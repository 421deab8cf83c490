-- ===== src/CiRunner/Status.antt =====
-- The signed status of `pkgs/radicle-ci-runner/src/guard.rs`: building, rendering, parsing and
-- validating it. A comment body is the list of its code points.
pub mod Build
pub mod RoundTrip
use onix_core.Base.{
  String, Bool, true, false, Option, none, some, List, [], ◌∷◌, ◌++◌, not, ◌||◌, any, is_nil, ◌==◌,
  ◌!=◌, string_eq, list_eq, ℕ-eq,
}
use onix_core.Base.Results.{Result, ok, err, ◌>>=◌, ◌>>◌, reject, ok_or}
use onix_core.Base.Text.{Text, codes, lines}
use onix_core.CiRunner.Types.{
  patch, RunnerConfigV1, AdmittedEventV1, JobResultV1, RunnerDisposition, succeeded, exit_failed,
  timed_out, cancelled, output_limit_exceeded, infrastructure_failed, Diagnostic, diagnostic,
  trigger_eq,
}
use onix_core.CiRunner.Digest.{text, runner_disposition, Digest}
use onix_core.CiRunner.Admission.{validate_event, validate_result}
use onix_core.CiRunner.GuardTypes.{SignedStatusV1}
use onix_core.CiRunner.GuardChecks.{
  status_schema, status_claim_scope, status_non_claim, one_line, radicle_id, git_oid, blake3_digest,
  event_facts, result_facts, canonical_blake3,
}

abbrev pub status_marker : Text
status_marker = codes "onix-radicle-ci-status:v1"

-- The derived `Debug` text.
unfoldable pub debug_disposition : RunnerDisposition → Text
debug_disposition succeeded = codes "Succeeded"
debug_disposition exit_failed = codes "ExitFailed"
debug_disposition timed_out = codes "TimedOut"
debug_disposition cancelled = codes "Cancelled"
debug_disposition output_limit_exceeded = codes "OutputLimitExceeded"
debug_disposition infrastructure_failed = codes "InfrastructureFailed"

-- What the crate takes from `serde_json` for a status: its text, and the status that a text holds
-- with no unknown field.
pub record StatusJson : Type 0 where
  pub to_string : SignedStatusV1 → Option Text
  pub from_str : Text → Option SignedStatusV1

-- The conditions of `validate_signed_status` behind that on the status digest.
pub fields_invalid : SignedStatusV1 → Bool
fields_invalid status =
    not (blake3_digest status.policy_blake3)
    || not (radicle_id status.rid)
    || not (git_oid status.patch_id)
    || not (git_oid status.revision_id)
    || not (one_line status.check_name)
    || not (blake3_digest status.job_id)
    || not (git_oid status.object_oid)
    || not (blake3_digest status.artifact_blake3)
    || not (blake3_digest status.event_blake3)
    || not (blake3_digest status.result_blake3)
    || status.claim_scope != status_claim_scope
    || status.non_claim != status_non_claim

-- The line that follows the JSON line and an empty line.
unfoldable pub human_line : SignedStatusV1 → Text
human_line status =
    codes "Onix CI `"
    ++ (codes status.job_id
        ++ (codes "` for `"
            ++ (codes status.object_oid
                ++ (codes "`: **"
                    ++ (debug_disposition status.disposition
                        ++ (codes "**. Artifact BLAKE3 `"
                            ++ (codes status.artifact_blake3
                                ++ codes
                                    "`. Scope: bounded observation only; this is not merge, canonical-ref, or release approval.")))))))

module _ (d : Digest) where
  unfoldable pub expected_status_blake3 : SignedStatusV1 → Result Diagnostic String
  expected_status_blake3 status = canonical_blake3 d (
      text status_schema
      ∷ text status.policy_blake3
      ∷ text status.rid
      ∷ text status.patch_id
      ∷ text status.revision_id
      ∷ text status.check_name
      ∷ text status.job_id
      ∷ text status.object_oid
      ∷ runner_disposition status.disposition
      ∷ text status.artifact_blake3
      ∷ text status.event_blake3
      ∷ text status.result_blake3
      ∷ text status.claim_scope
      ∷ text status.non_claim
      ∷ [])

  -- A wrong schema returns before the digest is computed.
  unfoldable pub validate_signed_status : SignedStatusV1 → Result Diagnostic (Unit {0})
  unfolding fields_invalid
  validate_signed_status status =
      let invalid =
        diagnostic "ci-status-identity" "signed status shape or BLAKE3 identity is invalid" in
      do
        reject (status.schema != status_schema) invalid
        expected ← expected_status_blake3 status
        reject (status.status_blake3 != expected || fields_invalid status) invalid

  -- Build the closed payload written inside the bot's signed patch comment.
  unfoldable pub build_signed_status :
      RunnerConfigV1 → AdmittedEventV1 → JobResultV1 → Result Diagnostic SignedStatusV1
  build_signed_status config event result = do
    validate_event d config event
    validate_result event result
    reject (event.trigger != patch)
        (diagnostic "ci-status-trigger" "signed status is only defined for patch revisions")
    patch_id ← ok_or event.patch_id (diagnostic "ci-status-patch" "signed status lacks a patch ID")
    revision_id ←
        ok_or event.revision_id
          (diagnostic "ci-status-revision" "signed status lacks a revision ID")
    event_blake3 ← canonical_blake3 d (event_facts event)
    result_blake3 ← canonical_blake3 d (result_facts result)
    let status : SignedStatusV1 = record {
      schema = status_schema;
      status_blake3 = "";
      policy_blake3 = event.policy_blake3;
      rid = event.rid;
      patch_id = patch_id;
      revision_id = revision_id;
      check_name = config.check_name;
      job_id = event.job_id;
      object_oid = event.object_oid;
      disposition = result.disposition;
      artifact_blake3 = result.artifact_blake3;
      event_blake3 = event_blake3;
      result_blake3 = result_blake3;
      claim_scope = status_claim_scope;
      non_claim = status_non_claim;
    }
    status_blake3 ← expected_status_blake3 status
    ok (record status { status_blake3 = status_blake3 })

  module _ (json : StatusJson) where
    -- Render one strict marker/JSON line followed by a human-readable boundary.
    unfoldable pub render_signed_status : SignedStatusV1 → Result Diagnostic Text
    render_signed_status status = do
      validate_signed_status status
      body ←
          ok_or (json.to_string status)
            (diagnostic "ci-status-serialize" "signed status could not be serialized")
      ok (status_marker ++ (b'\n' ∷ (body ++ (b'\n' ∷ b'\n' ∷ human_line status))))

    -- The JSON line and the lines behind it.
    unfoldable pub parse_payload : List Text → Result Diagnostic SignedStatusV1
    parse_payload [] = err (diagnostic "ci-status-json" "signed status JSON line is absent")
    parse_payload (body ∷ others) = do
      reject (is_nil body || any (λ line. line == status_marker) others)
          (diagnostic "ci-status-shape" "signed status body is malformed or repeated")
      status ←
          ok_or (json.from_str body) (
            diagnostic "ci-status-json"
              "signed status JSON is malformed or contains unknown fields")
      validate_signed_status status
      ok status

    unfoldable pub parse_lines : List Text → Result Diagnostic SignedStatusV1
    unfolding parse_payload
    parse_lines [] = err (diagnostic "ci-status-marker" "signed status marker is absent")
    parse_lines (first ∷ rest) = do
      reject (first != status_marker)
          (diagnostic "ci-status-marker" "signed status marker is absent")
      parse_payload rest

    -- Parse a closed status payload from a signed comment body.
    unfoldable pub parse_signed_status : Text → Result Diagnostic SignedStatusV1
    unfolding lines parse_lines
    parse_signed_status body = parse_lines (lines body)
