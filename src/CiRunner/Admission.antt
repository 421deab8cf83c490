-- ===== src/CiRunner/Admission.antt =====
-- Admission of a candidate, revalidation of a persisted event, and classification of a run, from
-- `pkgs/radicle-ci-runner/src/lib.rs`. The condition of each early return is a definition.
pub mod Events
pub mod Results
use Prim.Native.String.{len}
use mathlib.Core.Option.{map as map_option}
use onix_core.Base.{
  ℕ, String, Bool, true, false, Option, none, some, List, [], ◌∷◌, not, ◌&&◌, ◌||◌, ltb, ◌==◌, ◌!=◌,
  string_eq, option_eq, list_eq, if◌then◌else◌,
}
use onix_core.Base.Results.{Result, ok, err, ◌>>=◌, ◌>>◌, reject, ok_or}
use onix_core.Base.Text.{codes, contains_text}
use onix_core.CiRunner.Types.{
  TriggerClass, patch, canonical_branch, canonical_tag, RunnerConfigV1, CandidateV1,
  AdmittedEventV1, succeeded, ℤ, pos, ObservationV1, JobResultV1, Diagnostic, diagnostic, locks_eq,
  trigger_eq, disposition_eq, int_eq,
}
use onix_core.CiRunner.Checks.{
  event_schema, result_schema, job_id_domain, max_text_bytes, has_prefix, is_empty, git_oid,
  blake3_digest, required_non_claims,
}
use onix_core.CiRunner.Config.{validate_config}
use onix_core.CiRunner.Digest.{text, optional_text, trigger_class, lock_identity, Digest}

abbrev pub event_claim_scope : String
event_claim_scope = "exact-object-bounded-ci-input"

abbrev pub result_status_authority : String
result_status_authority = "non-delegate-patch-comment-only"

abbrev pub result_claim_scope : String
result_claim_scope = "bounded-ci-observation"

abbrev pub success_exit_code : ℤ
success_exit_code = pos 0

-- `Option::is_none_or(str::is_empty)` and `Option::is_some`.
unfoldable pub is_none_or_empty : Option String → Bool
is_none_or_empty none = true
is_none_or_empty (some s) = is_empty s

unfoldable pub is_some {ℓ} : {A : Type ℓ} → Option A → Bool
is_some none = false
is_some (some a) = true

unfoldable pub reference_invalid : CandidateV1 → Bool
reference_invalid candidate =
    is_empty candidate.reference || ltb max_text_bytes (len candidate.reference)

unfoldable pub patch_invalid : CandidateV1 → Bool
patch_invalid candidate =
    is_none_or_empty candidate.patch_id
    || is_none_or_empty candidate.revision_id
    || not (contains_text (codes candidate.reference) (codes "refs/cobs/xyz.radicle.patch/"))

unfoldable pub branch_invalid : CandidateV1 → Bool
branch_invalid candidate =
    is_some candidate.patch_id
    || is_some candidate.revision_id
    || candidate.reference != "refs/heads/main"

unfoldable pub tag_invalid : CandidateV1 → Bool
tag_invalid candidate =
    is_some candidate.patch_id
    || is_some candidate.revision_id
    || not (has_prefix candidate.reference "refs/tags/")

unfoldable pub trigger_invalid : TriggerClass → CandidateV1 → Result Diagnostic (Unit {0})
trigger_invalid patch candidate =
    reject (patch_invalid candidate)
      (diagnostic "ci-candidate-patch" "patch candidate lacks exact patch and revision linkage")
trigger_invalid canonical_branch candidate =
    reject (branch_invalid candidate)
      (diagnostic "ci-candidate-branch" "canonical branch candidate is malformed")
trigger_invalid canonical_tag candidate =
    reject (tag_invalid candidate)
      (diagnostic "ci-candidate-tag" "canonical tag candidate is malformed")

unfoldable pub validate_trigger : CandidateV1 → Result Diagnostic (Unit {0})
unfolding reference_invalid trigger_invalid patch_invalid branch_invalid tag_invalid
    is_none_or_empty is_some
validate_trigger candidate = do
  reject (reference_invalid candidate)
      (diagnostic "ci-candidate-reference" "candidate reference is empty or too long")
  trigger_invalid candidate.trigger candidate

unfoldable pub source_invalid : RunnerConfigV1 → CandidateV1 → Bool
source_invalid config candidate =
    candidate.rid != config.rid
    || not (git_oid candidate.object_oid)
    || not candidate.object_present_locally
    || not candidate.object_is_current
    || candidate.signed_refs_feature != config.signed_refs_feature
    || not candidate.delegate_alignment_verified

unfoldable pub event_invalid : RunnerConfigV1 → AdmittedEventV1 → Bool
event_invalid config event =
    event.schema != event_schema
    || event.policy_blake3 != config.policy_blake3
    || event.rid != config.rid
    || not (git_oid event.object_oid)
    || not (blake3_digest event.source_archive_blake3)
    || event.signed_refs_feature != config.signed_refs_feature
    || event.locks != config.expected_locks
    || event.claim_scope != event_claim_scope

unfoldable pub observation_invalid : RunnerConfigV1 → ObservationV1 → Bool
observation_invalid config observation =
    not (blake3_digest observation.stdout_blake3)
    || not (blake3_digest observation.stderr_blake3)
    || not (blake3_digest observation.artifact_blake3)
    || ltb config.limits.stdout_max_bytes observation.stdout_retained_bytes
    || ltb config.limits.stderr_max_bytes observation.stderr_retained_bytes
    || ltb observation.stdout_observed_bytes observation.stdout_retained_bytes
    || ltb observation.stderr_observed_bytes observation.stderr_retained_bytes
    || ltb config.limits.artifact_max_bytes observation.artifact_bytes
    || (observation.disposition == succeeded && observation.exit_code != some success_exit_code)

unfoldable pub result_invalid : AdmittedEventV1 → JobResultV1 → Bool
result_invalid event result =
    result.schema != result_schema
    || result.job_id != event.job_id
    || result.rid != event.rid
    || result.trigger != event.trigger
    || result.object_oid != event.object_oid
    || result.patch_id != event.patch_id
    || result.revision_id != event.revision_id
    || not (blake3_digest result.stdout_blake3)
    || not (blake3_digest result.stderr_blake3)
    || not (blake3_digest result.artifact_blake3)
    || result.status_authority != result_status_authority
    || result.claim_scope != result_claim_scope
    || result.non_claims != required_non_claims

-- Validate a result before status publication.
unfoldable pub validate_result : AdmittedEventV1 → JobResultV1 → Result Diagnostic (Unit {0})
unfolding result_invalid
validate_result event result = reject (result_invalid event result) (
    diagnostic "ci-result-shape"
      "job result does not preserve the admitted event and claim boundary")

-- The candidate that `validate_event` rebuilds from an event.
abbrev pub event_candidate : AdmittedEventV1 → CandidateV1
event_candidate event = record {
  rid = event.rid;
  trigger = event.trigger;
  reference = event.reference;
  object_oid = event.object_oid;
  patch_id = event.patch_id;
  revision_id = event.revision_id;
  object_present_locally = true;
  object_is_current = true;
  signed_refs_feature = event.signed_refs_feature;
  delegate_alignment_verified = true;
  observed_locks = event.locks;
}

abbrev pub admitted_event : RunnerConfigV1 → CandidateV1 → String → String → AdmittedEventV1
admitted_event config candidate source_archive_blake3 job_id = record {
  schema = event_schema;
  job_id = job_id;
  policy_blake3 = config.policy_blake3;
  rid = candidate.rid;
  trigger = candidate.trigger;
  reference = candidate.reference;
  object_oid = candidate.object_oid;
  patch_id = candidate.patch_id;
  revision_id = candidate.revision_id;
  signed_refs_feature = candidate.signed_refs_feature;
  source_archive_blake3 = source_archive_blake3;
  locks = candidate.observed_locks;
  claim_scope = event_claim_scope;
}

abbrev pub job_result : AdmittedEventV1 → ObservationV1 → JobResultV1
job_result event observation = record {
  schema = result_schema;
  job_id = event.job_id;
  rid = event.rid;
  trigger = event.trigger;
  object_oid = event.object_oid;
  patch_id = event.patch_id;
  revision_id = event.revision_id;
  disposition = observation.disposition;
  exit_code = observation.exit_code;
  stdout_observed_bytes = observation.stdout_observed_bytes;
  stdout_retained_bytes = observation.stdout_retained_bytes;
  stdout_blake3 = observation.stdout_blake3;
  stderr_observed_bytes = observation.stderr_observed_bytes;
  stderr_retained_bytes = observation.stderr_retained_bytes;
  stderr_blake3 = observation.stderr_blake3;
  artifact_bytes = observation.artifact_bytes;
  artifact_blake3 = observation.artifact_blake3;
  status_authority = result_status_authority;
  claim_scope = result_claim_scope;
  non_claims = required_non_claims;
}

module _ (d : Digest) where
  unfoldable pub derive_job_id : RunnerConfigV1 → CandidateV1 → String → Result Diagnostic String
  derive_job_id config candidate source_archive_blake3 = do
    facts ←
        ok_or
          (d.to_vec (
            text job_id_domain
            ∷ text config.policy_blake3
            ∷ text candidate.rid
            ∷ trigger_class candidate.trigger
            ∷ text candidate.reference
            ∷ text candidate.object_oid
            ∷ optional_text candidate.patch_id
            ∷ optional_text candidate.revision_id
            ∷ text source_archive_blake3
            ∷ lock_identity candidate.observed_locks
            ∷ []))
          (diagnostic "ci-job-id" "job identity facts could not be serialized")
    ok (d.blake3_hex facts)

  -- Admit a current exact object under the configured policy.
  unfoldable pub admit_candidate :
      RunnerConfigV1 → CandidateV1 → String → Result Diagnostic AdmittedEventV1
  unfolding source_invalid
  admit_candidate config candidate source_archive_blake3 = do
    validate_config config
    reject (source_invalid config candidate) (
        diagnostic "ci-candidate-source"
          "candidate is not the current admitted local Radicle object")
    validate_trigger candidate
    reject (candidate.observed_locks != config.expected_locks)
        (diagnostic "ci-candidate-locks" "candidate changed an admitted Cargo or Nix control file")
    reject (not (blake3_digest source_archive_blake3))
        (diagnostic "ci-candidate-archive" "source archive BLAKE3 is malformed")
    job_id ← derive_job_id config candidate source_archive_blake3
    ok (admitted_event config candidate source_archive_blake3 job_id)

  -- Revalidate a persisted event before execution.
  unfoldable pub validate_event : RunnerConfigV1 → AdmittedEventV1 → Result Diagnostic (Unit {0})
  unfolding event_invalid
  validate_event config event = do
    validate_config config
    reject (event_invalid config event)
        (diagnostic "ci-event-shape" "persisted event does not match the admitted policy")
    validate_trigger (event_candidate event)
    expected ← derive_job_id config (event_candidate event) event.source_archive_blake3
    reject (event.job_id != expected)
        (diagnostic "ci-event-job-id" "persisted event job identity does not match its facts")
    ok tt

  -- Classify one bounded process observation under the admitted event.
  unfoldable pub classify_observation :
      RunnerConfigV1 → AdmittedEventV1 → ObservationV1 → Result Diagnostic JobResultV1
  unfolding observation_invalid
  classify_observation config event observation = do
    validate_event config event
    reject (observation_invalid config observation) (
        diagnostic "ci-observation-bounds"
          "runner observation is malformed or above configured limits")
    ok (job_result event observation)
