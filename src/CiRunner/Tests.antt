-- ===== src/CiRunner/Tests.antt =====
-- The tests of the CI runner's pure crate, run on the source's sample values.
mod Samples
use onix_core.Base.{
  ◌≤◌, String, List, [], ◌∷◌, ◌++◌, sym, ap, ◌∙◌, ap₂, subst, Bool, true, false, none, some, ◌≡◌,
  ◌↔◌, refl, ◌==◌, string_eq, ℕ-eq, list_eq, option_eq, contains, arith, ◌&&◌, if◌then◌else◌,
  is_nil, any,
}
use onix_core.Base.Results.{Result, ok, err, reject}
use onix_core.Base.Sort.{sort, insert, dedup, unique_sorted}
use onix_core.Base.Text.{
  Text, starts_with, text_lt, contains_text, is_ascii_alphanumeric, is_ascii_digit, is_control,
}
use onix_core.Base.Text.Lines.{is_break}
use onix_core.CiRunner.Types.{
  RunnerLimitsV1, CandidateV1, JobResultV1, RunnerDisposition, Diagnostic, diagnostic, locks_eq,
  trigger_eq, int_eq, disposition_eq,
}
use onix_core.CiRunner.Checks
use onix_core.CiRunner.Checks.{has_prefix, is_empty}
use onix_core.CiRunner.Config.{
  max_output_bytes, max_artifact_bytes, validate_config, has_suffix, count_words,
}
use onix_core.CiRunner.Digest.{Digest, HexDigest}
use onix_core.CiRunner.Admission.{
  admit_candidate, validate_event, validate_trigger, derive_job_id, classify_observation,
  validate_result, job_result,
}
use onix_core.CiRunner.Admission.Events.{validate_event_iff}
use onix_core.CiRunner.Admission.Results.{
  IsBounded, IsResultOf, classify_observation_iff, classify_observation_maxima,
  validate_result-classify_observation,
}
use onix_core.CiRunner.GuardTypes.{SignedStatusV1, string_lt, issue_lt, issue_eq}
use onix_core.CiRunner.GuardChecks.{
  canonical_blake3, blake3_digest, did, git_oid, lower_hex, lower_hex_byte, one_line, prefixed_id,
  radicle_id,
}
use onix_core.CiRunner.Status.{
  StatusJson, status_marker, human_line, validate_signed_status, build_signed_status,
  render_signed_status, parse_signed_status, expected_status_blake3,
}
use onix_core.CiRunner.Status.Build.{validate_signed_status-build_signed_status}
use onix_core.CiRunner.Status.RoundTrip.{IsFaithful, parse_signed_status-render_signed_status}
use onix_core.CiRunner.Guard.{
  evaluate_canonical_guard, guard_decision, guard_issues, issue_if, signed_refs_invalid,
  signing_approvals, any_foreign, approvals_invalid, live_status_invalid, is_err, event_digest,
  event_invalid, is_none_or_no_oid, live_patch_invalid, option_or_default, policy_invalid,
  receipt_invalid, result_digest, result_invalid, text_or_default, validate_event_result,
  validate_guard_policy, validate_live_observation, validate_valence_receipt,
}
use onix_core.CiRunner.Guard.Report.{AllPass, evaluate_canonical_guard_iff}
use onix_core.CiRunner.Guard.Facts.{IsExactRevision, evaluate_canonical_guard-IsExactRevision}
use onix_core.CiRunner.Guard.Delegates.{HasQuorum, evaluate_canonical_guard-HasQuorum}
use Samples.{
  digest_a, sample_rid, constant_digest, sample_limits, sample_config, sample_candidate,
  sample_event, sample_observation, sample_result, sample_status, sample_policy, sample_receipt,
  sample_live, sample_text,
}

admit_candidate_sample :
    admit_candidate constant_digest sample_config sample_candidate digest_a ≡ ok sample_event
unfolding admit_candidate validate_config string_eq Checks.radicle_id Checks.git_oid ℕ-eq
    Checks.blake3_digest Checks.one_line has_suffix count_words Checks.absolute_path
    validate_trigger contains_text locks_eq derive_job_id
admit_candidate_sample = refl

evaluate_canonical_guard_sample :
    (evaluate_canonical_guard constant_digest sample_policy sample_event sample_result
      sample_receipt sample_live).admitted
    ≡ true
unfolding evaluate_canonical_guard guard_issues issue_if signed_refs_invalid signing_approvals
    contains string_eq unique_sorted string_lt any_foreign approvals_invalid list_eq
    live_status_invalid is_err validate_signed_status expected_status_blake3 canonical_blake3
    blake3_digest option_eq ℕ-eq dedup insert sort is_ascii_alphanumeric is_ascii_digit is_control
    starts_with text_lt has_prefix is_empty event_digest event_invalid is_none_or_no_oid
    live_patch_invalid option_or_default policy_invalid receipt_invalid result_digest result_invalid
    text_or_default validate_event_result validate_guard_policy validate_live_observation
    validate_valence_receipt did git_oid lower_hex lower_hex_byte one_line prefixed_id radicle_id
    issue_eq issue_lt diagnostic disposition_eq int_eq trigger_eq
evaluate_canonical_guard_sample = refl

validate_event_iff_example : validate_event constant_digest sample_config sample_event ≡ ok tt
validate_event_iff_example =
    (validate_event_iff constant_digest sample_config sample_event).1
      (sample_candidate, digest_a, admit_candidate_sample)

sample_IsBounded : IsBounded sample_config sample_observation
unfolding Checks.blake3_digest ℕ-eq
sample_IsBounded = ground arith

sample_IsResultOf : IsResultOf sample_event sample_observation sample_result
sample_IsResultOf = record {
  schema = refl;
  job_id = refl;
  rid = refl;
  trigger = refl;
  object_oid = refl;
  patch_id = refl;
  revision_id = refl;
  disposition = refl;
  exit_code = refl;
  stdout_observed_bytes = refl;
  stdout_retained_bytes = refl;
  stdout_blake3 = refl;
  stderr_observed_bytes = refl;
  stderr_retained_bytes = refl;
  stderr_blake3 = refl;
  artifact_bytes = refl;
  artifact_blake3 = refl;
  status_authority = refl;
  claim_scope = refl;
  non_claims = refl;
}

classify_observation_iff_example :
    classify_observation constant_digest sample_config sample_event sample_observation
    ≡ ok sample_result
classify_observation_iff_example =
    (classify_observation_iff constant_digest sample_config sample_event sample_observation
        sample_result).1
      ((sample_candidate, digest_a, admit_candidate_sample), sample_IsBounded, sample_IsResultOf)

validate_result-classify_observation_example : validate_result sample_event sample_result ≡ ok tt
validate_result-classify_observation_example =
    validate_result-classify_observation constant_digest sample_config sample_event
      sample_observation sample_result classify_observation_iff_example

classify_observation_maxima_example :
    (sample_result.stdout_retained_bytes ≤ 16_777_216)
    × (sample_result.stdout_retained_bytes ≤ sample_result.stdout_observed_bytes)
    × (sample_result.stderr_retained_bytes ≤ 16_777_216)
    × (sample_result.stderr_retained_bytes ≤ sample_result.stderr_observed_bytes)
    × (sample_result.artifact_bytes ≤ 1_073_741_824)
classify_observation_maxima_example =
    classify_observation_maxima constant_digest sample_config sample_event sample_observation
      sample_result classify_observation_iff_example

build_signed_status_sample :
    build_signed_status constant_digest sample_config sample_event sample_result ≡ ok sample_status
unfolding build_signed_status trigger_eq canonical_blake3 expected_status_blake3
build_signed_status_sample =
    rw (validate_event_iff_example, validate_result-classify_observation_example) refl

constant_digest-HexDigest : HexDigest constant_digest
unfolding Checks.blake3_digest ℕ-eq
constant_digest-HexDigest = record { hex = λ bytes. refl }

validate_signed_status-build_signed_status_example :
    validate_signed_status constant_digest sample_status ≡ ok tt
unfolding radicle_id git_oid ℕ-eq
validate_signed_status-build_signed_status_example =
    (validate_signed_status-build_signed_status constant_digest constant_digest-HexDigest
        sample_config sample_event sample_result sample_status build_signed_status_sample).1
      (refl, refl, refl)

abbrev status_texts : SignedStatusV1 → List String
status_texts s =
    s.schema ∷ s.status_blake3 ∷ s.policy_blake3 ∷ s.rid ∷ s.patch_id ∷ s.revision_id ∷ s.check_name
    ∷ s.job_id ∷ s.object_oid ∷ s.artifact_blake3 ∷ s.event_blake3 ∷ s.result_blake3 ∷ s.claim_scope
    ∷ s.non_claim ∷ []

-- The status with the given texts, in the order of `status_texts`.
status_of : List String → RunnerDisposition → SignedStatusV1
status_of (a ∷ b ∷ c ∷ d ∷ e ∷ f ∷ g ∷ h ∷ i ∷ j ∷ k ∷ l ∷ m ∷ n ∷ []) disposition = record {
  schema = a;
  status_blake3 = b;
  policy_blake3 = c;
  rid = d;
  patch_id = e;
  revision_id = f;
  check_name = g;
  job_id = h;
  object_oid = i;
  artifact_blake3 = j;
  event_blake3 = k;
  result_blake3 = l;
  claim_scope = m;
  non_claim = n;
  disposition = disposition;
}
status_of _ disposition = sample_status

is_sample : SignedStatusV1 → Bool
is_sample s =
    status_texts s == status_texts sample_status && s.disposition == sample_status.disposition

eq_of_is_sample : (s : SignedStatusV1) → is_sample s ≡ true → sample_status ≡ s
unfolding is_sample status_of
eq_of_is_sample s h =
    let texts : status_texts sample_status ≡ status_texts s =
      sym ((list_eq.beq_iff (status_texts s) (status_texts sample_status)).0 (ground arith)) in
    let same : sample_status.disposition ≡ s.disposition =
      sym ((disposition_eq.beq_iff s.disposition sample_status.disposition).0 (ground arith)) in
    ap₂ status_of texts same

-- A codec of the one sample status.
abbrev sample_json : StatusJson
sample_json = record {
  to_string = λ s. if is_sample s then some sample_text else none;
  from_str = λ t. if t == sample_text then some sample_status else none;
}

from_str_sample : sample_json.from_str sample_text ≡ some sample_status
unfolding list_eq ℕ-eq
from_str_sample = refl

sample_json-IsFaithful : IsFaithful sample_json
unfolding is_break
sample_json-IsFaithful = record {
  one_line =
      λ s t h. let e : sample_text ≡ t = ground arith in subst (λ t. any is_break t ≡ false) e refl;
  not_empty =
      λ s t h. let e : sample_text ≡ t = ground arith in subst (λ t. is_nil t ≡ false) e refl;
  round = λ s t h.
      let e : sample_text ≡ t = ground arith in
      let same = eq_of_is_sample s (ground arith) in
      subst (λ t. sample_json.from_str t ≡ some s) e (from_str_sample ∙ ap some same);
}

abbrev sample_body : Text
sample_body = status_marker ++ (b'\n' ∷ (sample_text ++ (b'\n' ∷ b'\n' ∷ human_line sample_status)))

render_signed_status_sample :
    render_signed_status constant_digest sample_json sample_status ≡ ok sample_body
unfolding render_signed_status is_sample list_eq string_eq disposition_eq
render_signed_status_sample = rw validate_signed_status-build_signed_status_example refl

parse_signed_status-render_signed_status_example :
    parse_signed_status constant_digest sample_json sample_body ≡ ok sample_status
parse_signed_status-render_signed_status_example =
    parse_signed_status-render_signed_status constant_digest sample_status sample_json sample_body
      sample_json-IsFaithful render_signed_status_sample

evaluate_canonical_guard_iff_example :
    (evaluate_canonical_guard constant_digest sample_policy sample_event sample_result
      sample_receipt sample_live).decision
    ≡ some (
        guard_decision constant_digest sample_policy sample_event sample_result sample_receipt
          sample_live)
evaluate_canonical_guard_iff_example =
    ((evaluate_canonical_guard_iff constant_digest sample_policy sample_event sample_result
        sample_receipt sample_live).1
      evaluate_canonical_guard_sample).1

evaluate_canonical_guard-IsExactRevision_example :
    IsExactRevision constant_digest sample_policy sample_event sample_result sample_receipt
      sample_live
evaluate_canonical_guard-IsExactRevision_example =
    evaluate_canonical_guard-IsExactRevision constant_digest sample_policy sample_event
      sample_result sample_receipt sample_live evaluate_canonical_guard_sample

-- A receipt for another job is admitted too: only its own digest covers the job that it names.
evaluate_canonical_guard_foreign_job :
    (evaluate_canonical_guard constant_digest sample_policy sample_event sample_result
      (record sample_receipt { job_id = "another-job" })
      sample_live).admitted
    ≡ true
unfolding evaluate_canonical_guard guard_issues issue_if signed_refs_invalid signing_approvals
    contains string_eq unique_sorted string_lt any_foreign approvals_invalid list_eq
    live_status_invalid is_err validate_signed_status expected_status_blake3 canonical_blake3
    blake3_digest option_eq ℕ-eq dedup insert sort is_ascii_alphanumeric is_ascii_digit is_control
    starts_with text_lt has_prefix is_empty event_digest event_invalid is_none_or_no_oid
    live_patch_invalid option_or_default policy_invalid receipt_invalid result_digest result_invalid
    text_or_default validate_event_result validate_guard_policy validate_live_observation
    validate_valence_receipt did git_oid lower_hex lower_hex_byte one_line prefixed_id radicle_id
    issue_eq issue_lt diagnostic disposition_eq int_eq trigger_eq
evaluate_canonical_guard_foreign_job = refl

evaluate_canonical_guard-HasQuorum_example : HasQuorum sample_policy sample_live
evaluate_canonical_guard-HasQuorum_example =
    evaluate_canonical_guard-HasQuorum constant_digest sample_policy sample_event sample_result
      sample_receipt sample_live evaluate_canonical_guard_sample

-- A live observation that no delegate has signed is denied.
evaluate_canonical_guard_unsigned :
    (evaluate_canonical_guard constant_digest sample_policy sample_event sample_result
      sample_receipt
      (record sample_live { signing_delegates = [] })).issues
    ≡ record { code = "guard-live-signed-refs"; path = "live.signing_delegates" } ∷ []
unfolding evaluate_canonical_guard guard_issues issue_if signed_refs_invalid signing_approvals
    contains string_eq unique_sorted string_lt any_foreign approvals_invalid list_eq
    live_status_invalid is_err validate_signed_status expected_status_blake3 canonical_blake3
    blake3_digest option_eq ℕ-eq dedup insert sort is_ascii_alphanumeric is_ascii_digit is_control
    starts_with text_lt has_prefix is_empty event_digest event_invalid is_none_or_no_oid
    live_patch_invalid option_or_default policy_invalid receipt_invalid result_digest result_invalid
    text_or_default validate_event_result validate_guard_policy validate_live_observation
    validate_valence_receipt did git_oid lower_hex lower_hex_byte one_line prefixed_id radicle_id
    issue_eq issue_lt diagnostic disposition_eq int_eq trigger_eq
evaluate_canonical_guard_unsigned = refl
