-- ===== src/CiRunner/Admission/Results.antt =====
-- What a classified run guarantees, from `classify_observation` and `validate_result` of
-- `pkgs/radicle-ci-runner/src/lib.rs`.
use onix_core.Base.{
  String, refl, subst, ◌≤◌, true, false, some, ◌≡◌, ap, sym, ◌↔◌, inl, inr, ◌&&◌, arith, ◌==◌, ◌!=◌,
  Bool-cases, not-ne_of_eq, string_eq, option_eq, list_eq, ==_refl, eq_of_not-ne,
}
use onix_core.Base.Results.{ok}
use onix_core.CiRunner.Types.{
  CandidateV1, RunnerConfigV1, AdmittedEventV1, succeeded, ObservationV1, JobResultV1,
  disposition_eq, trigger_eq, int_eq,
}
use onix_core.CiRunner.Checks.{blake3_digest, result_schema, required_non_claims}
use onix_core.CiRunner.Digest.{Digest}
use onix_core.CiRunner.Admission.{
  result_status_authority, result_claim_scope, success_exit_code, observation_invalid,
  validate_result, job_result, validate_event, classify_observation, admit_candidate,
}
use onix_core.CiRunner.Admission.Events.{validate_event_iff, validate_event-IsAdmitted}
use onix_core.CiRunner.Config.Limits.{validate_config-IsWithin}

-- The bounds that an observation has to keep.
pub record IsBounded (config : RunnerConfigV1) (observation : ObservationV1) : Type 0 where
  pub stdout_digest : blake3_digest observation.stdout_blake3 ≡ true
  pub stderr_digest : blake3_digest observation.stderr_blake3 ≡ true
  pub artifact_digest : blake3_digest observation.artifact_blake3 ≡ true
  pub stdout_limit : observation.stdout_retained_bytes ≤ config.limits.stdout_max_bytes
  pub stderr_limit : observation.stderr_retained_bytes ≤ config.limits.stderr_max_bytes
  pub stdout_observed : observation.stdout_retained_bytes ≤ observation.stdout_observed_bytes
  pub stderr_observed : observation.stderr_retained_bytes ≤ observation.stderr_observed_bytes
  pub artifact_limit : observation.artifact_bytes ≤ config.limits.artifact_max_bytes
  pub exit_zero :
      observation.disposition ≡ succeeded → observation.exit_code ≡ some success_exit_code

pub observation_invalid-IsBounded :
    (config : RunnerConfigV1) (observation : ObservationV1)
    → observation_invalid config observation ≡ false
    → IsBounded config observation
unfolding observation_invalid
observation_invalid-IsBounded config observation h = record {
  stdout_digest = ground arith;
  stderr_digest = ground arith;
  artifact_digest = ground arith;
  stdout_limit = ground arith;
  stderr_limit = ground arith;
  stdout_observed = ground arith;
  stderr_observed = ground arith;
  artifact_limit = ground arith;
  exit_zero = λ e. eq_of_not-ne (ground (arith, (disposition_eq.beq_iff _ _).1 e));
}

exit_zero_test :
    (observation : ObservationV1)
    → (observation.disposition ≡ succeeded → observation.exit_code ≡ some success_exit_code)
    → (observation.disposition == succeeded && observation.exit_code != some success_exit_code)
      ≡ false
exit_zero_test observation h = elim (Bool-cases (observation.disposition == succeeded)) [
  | inl same ↦
      ground (arith, not-ne_of_eq ⦃e = option_eq⦄ (h ((disposition_eq.beq_iff _ _).0 same)))
  | inr other ↦ rw other
]

pub IsBounded-observation_invalid :
    (config : RunnerConfigV1) (observation : ObservationV1)
    → IsBounded config observation
    → observation_invalid config observation ≡ false
unfolding observation_invalid
IsBounded-observation_invalid config observation b =
    ground (arith, exit_zero_test observation b.exit_zero)

-- The result of a run, fact by fact: what was run is the event's, what was seen is the observation's,
-- and the rest is the fixed claim boundary.
pub record IsResultOf (event : AdmittedEventV1) (observation : ObservationV1) (result : JobResultV1)
    : Type 0 where
  pub schema : result.schema ≡ "onix.radicle-ci-result.v1"
  pub job_id : result.job_id ≡ event.job_id
  pub rid : result.rid ≡ event.rid
  pub trigger : result.trigger ≡ event.trigger
  pub object_oid : result.object_oid ≡ event.object_oid
  pub patch_id : result.patch_id ≡ event.patch_id
  pub revision_id : result.revision_id ≡ event.revision_id
  pub disposition : result.disposition ≡ observation.disposition
  pub exit_code : result.exit_code ≡ observation.exit_code
  pub stdout_observed_bytes : result.stdout_observed_bytes ≡ observation.stdout_observed_bytes
  pub stdout_retained_bytes : result.stdout_retained_bytes ≡ observation.stdout_retained_bytes
  pub stdout_blake3 : result.stdout_blake3 ≡ observation.stdout_blake3
  pub stderr_observed_bytes : result.stderr_observed_bytes ≡ observation.stderr_observed_bytes
  pub stderr_retained_bytes : result.stderr_retained_bytes ≡ observation.stderr_retained_bytes
  pub stderr_blake3 : result.stderr_blake3 ≡ observation.stderr_blake3
  pub artifact_bytes : result.artifact_bytes ≡ observation.artifact_bytes
  pub artifact_blake3 : result.artifact_blake3 ≡ observation.artifact_blake3
  pub status_authority : result.status_authority ≡ "non-delegate-patch-comment-only"
  pub claim_scope : result.claim_scope ≡ "bounded-ci-observation"
  pub non_claims : result.non_claims ≡ required_non_claims

job_result-IsResultOf :
    (event : AdmittedEventV1) (observation : ObservationV1)
    → IsResultOf event observation (job_result event observation)
job_result-IsResultOf event observation = record {
  schema = refl;
  job_id = refl;
  rid = refl;
  trigger = refl;
  object_oid = refl;
  patch_id = refl;
  revision_id = refl;
  disposition = refl;
  exit_code = refl;
  stdout_observed_bytes = refl;
  stdout_retained_bytes = refl;
  stdout_blake3 = refl;
  stderr_observed_bytes = refl;
  stderr_retained_bytes = refl;
  stderr_blake3 = refl;
  artifact_bytes = refl;
  artifact_blake3 = refl;
  status_authority = refl;
  claim_scope = refl;
  non_claims = refl;
}

IsResultOf-job_result :
    (event : AdmittedEventV1) (observation : ObservationV1) (result : JobResultV1)
    → IsResultOf event observation result
    → result ≡ job_result event observation
IsResultOf-job_result event observation result r = λ i. record {
  schema = r.schema i;
  job_id = r.job_id i;
  rid = r.rid i;
  trigger = r.trigger i;
  object_oid = r.object_oid i;
  patch_id = r.patch_id i;
  revision_id = r.revision_id i;
  disposition = r.disposition i;
  exit_code = r.exit_code i;
  stdout_observed_bytes = r.stdout_observed_bytes i;
  stdout_retained_bytes = r.stdout_retained_bytes i;
  stdout_blake3 = r.stdout_blake3 i;
  stderr_observed_bytes = r.stderr_observed_bytes i;
  stderr_retained_bytes = r.stderr_retained_bytes i;
  stderr_blake3 = r.stderr_blake3 i;
  artifact_bytes = r.artifact_bytes i;
  artifact_blake3 = r.artifact_blake3 i;
  status_authority = r.status_authority i;
  claim_scope = r.claim_scope i;
  non_claims = r.non_claims i;
}

module _ (d : Digest) (config : RunnerConfigV1) (event : AdmittedEventV1) where
  classify_observation_steps :
      (observation : ObservationV1) (result : JobResultV1)
      → (classify_observation d config event observation ≡ ok result) ↔ (
          (validate_event d config event ≡ ok tt)
          × IsBounded config observation
          × (result ≡ job_result event observation))
  unfolding classify_observation
  classify_observation_steps observation result = (
    λ h. (
      ground arith,
      observation_invalid-IsBounded config observation (ground arith),
      ground arith,
    ),
    λ (valid, bounded, made).
        rw (valid, IsBounded-observation_invalid config observation bounded) (ap ok (sym made)),
  )

  -- A run is classified exactly if admitting some candidate under the same configuration returns its
  -- event and the observation keeps its bounds; the result then takes its job, repository, trigger,
  -- object, patch and revision from the event, and the disposition, the exit code and the byte counts
  -- and digests of both streams and of the artifact from the observation, with the fixed claim scope.
  pub classify_observation_iff :
      (observation : ObservationV1) (result : JobResultV1)
      → (classify_observation d config event observation ≡ ok result) ↔ (
          ((candidate : CandidateV1) × (archive : String) × (admit_candidate d config candidate
                archive
              ≡ ok event))
          × IsBounded config observation
          × IsResultOf event observation result)
  classify_observation_iff observation result = (
    λ h.
        let (valid, bounded, made) = (classify_observation_steps observation result).0 h in
        (
          (validate_event_iff d config event).0 valid,
          bounded,
          subst (IsResultOf event observation) (sym made) (job_result-IsResultOf event observation),
        ),
    λ (admitted, bounded, facts). (classify_observation_steps observation result).1 (
      (validate_event_iff d config event).1 admitted,
      bounded,
      IsResultOf-job_result event observation result facts,
    ),
  )

  -- Whatever the configuration, a classified result retains at most 16777216 bytes of each of the two
  -- output streams and never more than the observation counts there, and its artifact has at most
  -- 1073741824 bytes.
  pub classify_observation_maxima :
      (observation : ObservationV1) (result : JobResultV1)
      → classify_observation d config event observation ≡ ok result
      → (result.stdout_retained_bytes ≤ 16_777_216)
        × (result.stdout_retained_bytes ≤ result.stdout_observed_bytes)
        × (result.stderr_retained_bytes ≤ 16_777_216)
        × (result.stderr_retained_bytes ≤ result.stderr_observed_bytes)
        × (result.artifact_bytes ≤ 1_073_741_824)
  classify_observation_maxima observation result h =
      let (valid, bounded, made) = (classify_observation_steps observation result).0 h in
      let within =
        validate_config-IsWithin config (validate_event-IsAdmitted d config event valid).accepted in
      rw made (
        ground (arith, bounded.stdout_limit, within.stdout_most),
        bounded.stdout_observed,
        ground (arith, bounded.stderr_limit, within.stderr_most),
        bounded.stderr_observed,
        ground (arith, bounded.artifact_limit, within.artifact_most),
      )

  -- A classified result passes the validation that precedes status publication, for its own event.
  pub validate_result-classify_observation :
      (observation : ObservationV1) (result : JobResultV1)
      → classify_observation d config event observation ≡ ok result
      → validate_result event result ≡ ok tt
  unfolding validate_result
  validate_result-classify_observation observation result h =
      let (_, bounded, made) = (classify_observation_steps observation result).0 h in
      rw made (
        ground (
          arith,
          bounded.stdout_digest,
          bounded.stderr_digest,
          bounded.artifact_digest,
          ==_refl event.job_id,
          ==_refl event.rid,
          ==_refl event.trigger,
          ==_refl event.object_oid,
          ==_refl event.patch_id,
          ==_refl event.revision_id,
          ==_refl result_schema,
          ==_refl result_status_authority,
          ==_refl result_claim_scope,
          ==_refl required_non_claims,
        ))
