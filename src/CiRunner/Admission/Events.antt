-- ===== src/CiRunner/Admission/Events.antt =====
-- A persisted event passes revalidation exactly if admission produces it.
use onix_core.Base.{
  String, false, not, ◌≡◌, refl, ap, sym, ◌↔◌, arith, ◌!=◌, string_eq, ==_refl, eq_of_not-ne,
}
use onix_core.Base.Results.{Result, ok, err, ◌>>=◌, ◌>>◌, reject}
use onix_core.CiRunner.Types.{
  RunnerConfigV1, CandidateV1, AdmittedEventV1, Diagnostic, diagnostic, locks_eq,
}
use onix_core.CiRunner.Checks.{event_schema, blake3_digest}
use onix_core.CiRunner.Config.{validate_config}
use onix_core.CiRunner.Digest.{Digest}
use onix_core.CiRunner.Admission.{
  event_claim_scope, event_candidate, admitted_event, source_invalid, event_invalid,
  validate_trigger, derive_job_id, admit_candidate, validate_event,
}

pub validate_trigger-eq :
    (a b : CandidateV1)
    → a.trigger ≡ b.trigger
    → a.reference ≡ b.reference
    → a.patch_id ≡ b.patch_id
    → a.revision_id ≡ b.revision_id
    → validate_trigger a ≡ validate_trigger b
unfolding validate_trigger
validate_trigger-eq a b p q r s = ground arith

-- The last two steps of `validate_event`.
same_job :
    (job : String) (e : Diagnostic) (derived : Result Diagnostic String)
    → (derived >>= λ expected. reject (job != expected) e >> ok (tt {0})) ≡ ok (tt {0})
    → derived ≡ ok job
same_job job e (ok expected) h = ap ok (sym (eq_of_not-ne (ground arith)))
same_job job e (err other) h = cc

module _ (d : Digest) (config : RunnerConfigV1) where
  -- The two passes over the same facts derive one job identity.
  derive_job_id-eq :
      (a : CandidateV1) (archive job : String)
      → derive_job_id d config (event_candidate (admitted_event config a archive job)) archive
        ≡ derive_job_id d config a archive
  unfolding derive_job_id
  derive_job_id-eq a archive job = refl

  source_invalid-event_invalid :
      (candidate : CandidateV1) (archive job : String)
      → source_invalid config candidate ≡ false
      → (candidate.observed_locks != config.expected_locks) ≡ false
      → not (blake3_digest archive) ≡ false
      → event_invalid config (admitted_event config candidate archive job) ≡ false
  unfolding source_invalid event_invalid
  source_invalid-event_invalid candidate archive job h k l =
      ground (arith, ==_refl event_schema, ==_refl event_claim_scope, ==_refl config.policy_blake3)

  -- What admission has checked of a candidate, and the event that it then returns.
  pub record IsAdmitted (candidate : CandidateV1) (archive : String) (event : AdmittedEventV1)
      : Type 0 where
    pub accepted : validate_config config ≡ ok tt
    pub current : source_invalid config candidate ≡ false
    pub triggered : validate_trigger candidate ≡ ok tt
    pub locked : (candidate.observed_locks != config.expected_locks) ≡ false
    pub archived : not (blake3_digest archive) ≡ false
    pub job : derive_job_id d config candidate archive ≡ ok event.job_id
    pub made : event ≡ admitted_event config candidate archive event.job_id

  pub admit_candidate-IsAdmitted :
      (candidate : CandidateV1) (archive : String) (event : AdmittedEventV1)
      → admit_candidate d config candidate archive ≡ ok event
      → IsAdmitted candidate archive event
  unfolding admit_candidate
  admit_candidate-IsAdmitted candidate archive event h = ground arith

  validate_event_of_IsAdmitted :
      (candidate : CandidateV1) (archive : String) (event : AdmittedEventV1)
      → IsAdmitted candidate archive event
      → validate_event d config event ≡ ok tt
  unfolding validate_event
  validate_event_of_IsAdmitted candidate archive event a =
      let made = admitted_event config candidate archive event.job_id in
      rw a.made (
        ground (
          arith,
          source_invalid-event_invalid candidate archive event.job_id a.current a.locked a.archived,
          validate_trigger-eq (event_candidate made) candidate refl refl refl refl,
          derive_job_id-eq candidate archive event.job_id,
          ==_refl event.job_id,
        ))

  event_invalid-source_invalid :
      (event : AdmittedEventV1)
      → event_invalid config event ≡ false
      → (source_invalid config (event_candidate event) ≡ false)
        × ((event.locks != config.expected_locks) ≡ false)
        × (not (blake3_digest event.source_archive_blake3) ≡ false)
        × (event
            ≡ admitted_event config
                (event_candidate event)
                event.source_archive_blake3
                event.job_id)
  unfolding source_invalid event_invalid
  event_invalid-source_invalid event h = ground (
    arith,
    string_eq.beq_iff event.schema event_schema,
    string_eq.beq_iff event.claim_scope event_claim_scope,
    string_eq.beq_iff event.policy_blake3 config.policy_blake3,
  )

  pub validate_event-checked :
      (event : AdmittedEventV1)
      → validate_event d config event ≡ ok tt
      → event_invalid config event ≡ false
  unfolding validate_event
  validate_event-checked event h = ground arith

  pub validate_event-IsAdmitted :
      (event : AdmittedEventV1)
      → validate_event d config event ≡ ok tt
      → IsAdmitted (event_candidate event) event.source_archive_blake3 event
  unfolding validate_event
  validate_event-IsAdmitted event h =
      let (current, locked, archived, made) =
        event_invalid-source_invalid event (validate_event-checked event h) in
      record {
        accepted = ground arith;
        current = current;
        triggered = ground arith;
        locked = locked;
        archived = archived;
        job =
            same_job event.job_id
              (diagnostic "ci-event-job-id" "persisted event job identity does not match its facts")
              (derive_job_id d config (event_candidate event) event.source_archive_blake3)
              (ground arith);
        made = made;
      }

  IsAdmitted-admit_candidate :
      (candidate : CandidateV1) (archive : String) (event : AdmittedEventV1)
      → IsAdmitted candidate archive event
      → admit_candidate d config candidate archive ≡ ok event
  unfolding admit_candidate
  IsAdmitted-admit_candidate candidate archive event a =
      rw (a.accepted, a.current, a.triggered, a.locked, a.archived, a.job) (ap ok (sym a.made))

  -- An event passes revalidation exactly if admitting some candidate under the same configuration,
  -- with some archive digest, returns that event.
  pub validate_event_iff :
      (event : AdmittedEventV1)
      → (validate_event d config event ≡ ok tt) ↔ (
          (candidate : CandidateV1) × (archive : String) × (admit_candidate d config candidate
              archive
            ≡ ok event))
  validate_event_iff event = (
    λ h. (
      event_candidate event,
      event.source_archive_blake3,
      IsAdmitted-admit_candidate _ _ event (validate_event-IsAdmitted event h),
    ),
    λ (candidate, archive, h).
        validate_event_of_IsAdmitted candidate archive event
          (admit_candidate-IsAdmitted candidate archive event h),
  )
